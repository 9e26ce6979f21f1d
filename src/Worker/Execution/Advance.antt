-- ===== src/Worker/Execution/Advance.antt =====
-- The database calls of the worker only move executions forward, and settle no delivery.
use vigil_summit_agent.Prelude.{ℕ, String, true, ◌≡◌, refl, ◌∙◌, arith}
use vigil_summit_agent.Json.{Fields}
use vigil_summit_agent.Contracts.Message.{Failure, Command}
use vigil_summit_agent.Contracts.Workflow.{Node}
use vigil_summit_agent.Worker.State.{Execution, Db, Turn, others, fault, Env}
use vigil_summit_agent.Worker.Keeps.{Guarantee, Rely, TurnKeeps}
use vigil_summit_agent.Worker.Outbox.{write_rows}
use vigil_summit_agent.Worker.NodeRuns.{upsert_running, write_run}
use vigil_summit_agent.Worker.Trace.{insert_trace}
use vigil_summit_agent.Worker.Safe.{NodesSafe}
use vigil_summit_agent.Worker.Execution.{
  is_pending, is_running, is_open, to_running, to_succeeded, to_failed,
}
use vigil_summit_agent.Worker.Execution.Rows.{
  Later, Later-refl, Advance, Advanced, persist-Advanced, transition-Advanced,
}
use vigil_summit_agent.Worker.Execution.Safe.{WorkerSafe}

pub upsert-executions :
    (message : Command) (node : Node) (input : Fields) (at : ℕ) (id : String) (d : Db)
    → (upsert_running message node input at id d).1.executions ≡ d.executions
unfolding upsert_running
upsert-executions message node input at id d = ground arith

pub upsert-outbox :
    (message : Command) (node : Node) (input : Fields) (at : ℕ) (id : String) (d : Db)
    → (upsert_running message node input at id d).1.outbox ≡ d.outbox
unfolding upsert_running
upsert-outbox message node input at id d = ground arith

to_running-Later : (at : ℕ) (e : Execution) → is_pending e.status ≡ true → Later e (to_running at e)
unfolding to_running
to_running-Later at e h = ground arith

to_succeeded-Later :
    (output : Fields) (at : ℕ) (e : Execution)
    → is_running e.status ≡ true
    → Later e (to_succeeded output at e)
unfolding to_succeeded
to_succeeded-Later output at e h = ground arith

to_failed-Later :
    (failure : Failure) (at : ℕ) (e : Execution)
    → is_open e.status ≡ true
    → Later e (to_failed failure at e)
unfolding to_failed
to_failed-Later failure at e h = ground arith

Advance-nodes : NodesSafe Advance
unfolding write_rows write_run insert_trace
Advance-nodes = record {
  outbox = record {
    failed = λ seen message d s id e h. (e, h, Later-refl e);
    published = λ row_id at d s id e h. (e, h, Later-refl e);
  };
  persist = λ row_id key m d s. persist-Advanced row_id key m d;
  start_run = λ message node input at row_id d s id e h.
      (e, rw (upsert-executions message node input at row_id d) h, Later-refl e);
  end_run = λ row_id f d s id e h. (e, h, Later-refl e);
  trace = λ t d s id e h. (e, h, Later-refl e);
}

pub Advance-safe : WorkerSafe Advance
Advance-safe = record {
  nodes = Advance-nodes;
  started = λ message event_id row_id at d s.
      transition-Advanced message.execution_id is_pending (to_running at) row_id _ _ d
        (to_running-Later at);
  completed = λ message event_id row_id output a b d s.
      transition-Advanced message.execution_id is_running (to_succeeded output b) row_id _ _ d
        (to_succeeded-Later output b);
  failed = λ message event_id row_id failure at d s.
      transition-Advanced message.execution_id is_open (to_failed failure at) row_id _ _ d
        (to_failed-Later failure at);
}

-- Executions only move forward, and no delivery is settled.
abbrev pub Held : Guarantee
Held = record {
  rel = λ v v'. Advanced v.0 v'.0 × (v'.1 ≡ v.1);
  same = λ v. (Advance.same v, refl);
  chain = λ a b c p q. (Advance.chain a b c p.0 q.0, q.1 ∙ p.1);
}

Held-nodes : NodesSafe Held
Held-nodes = record {
  outbox = record {
    failed = λ seen message d s. (Advance-nodes.outbox.failed seen message d s, refl);
    published = λ row_id at d s. (Advance-nodes.outbox.published row_id at d s, refl);
  };
  persist = λ row_id key m d s. (Advance-nodes.persist row_id key m d s, refl);
  start_run = λ message node input at row_id d s.
      (Advance-nodes.start_run message node input at row_id d s, refl);
  end_run = λ row_id f d s. (Advance-nodes.end_run row_id f d s, refl);
  trace = λ t d s. (Advance-nodes.trace t d s, refl);
}

pub Held-safe : WorkerSafe Held
Held-safe = record {
  nodes = Held-nodes;
  started =
      λ message event_id row_id at d s. (Advance-safe.started message event_id row_id at d s, refl);
  completed = λ message event_id row_id output a b d s.
      (Advance-safe.completed message event_id row_id output a b d s, refl);
  failed = λ message event_id row_id failure at d s.
      (Advance-safe.failed message event_id row_id failure at d s, refl);
}

-- The other processes settle nothing of ours.
pub Held-Rely : (env : Env) → Rely Advance env → Rely Held env
Held-Rely env r = record { at = λ n. turn (env.turn n) (r.at n) }
  where
    turn : (t : Turn) → TurnKeeps Advance t → TurnKeeps Held t
    turn (others g) k = λ d s. (k d s, refl)
    turn (fault _) k = tt
