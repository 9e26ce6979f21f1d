-- ===== src/Worker/Delivery/Live.antt =====
-- The delivery handler and the dispatcher leave no row waiting in the outbox past the limit of attempts.
use vigil_summit_agent.Prelude.{Bool, Option, none, some, Bool-cases, inl, inr, ℕ, String}
use vigil_summit_agent.Contracts.Message.{RoutingKey, Message}
use vigil_summit_agent.Worker.State.{ExecutionStatus, Execution, Db, World, Env}
use vigil_summit_agent.Worker.Effects.{final}
use vigil_summit_agent.Worker.Keeps.{Rely}
use vigil_summit_agent.Worker.Outbox.{persist_outbox_event}
use vigil_summit_agent.Worker.NodeRuns.{write_run}
use vigil_summit_agent.Worker.Trace.{insert_trace}
use vigil_summit_agent.Worker.Safe.{NodesSafe}
use vigil_summit_agent.Worker.Execution.Safe.{WorkerSafe}
use vigil_summit_agent.Worker.Execution.Advance.{upsert-outbox}
use vigil_summit_agent.Worker.Command.{Delivery}
use vigil_summit_agent.Worker.Delivery.{handle_delivery}
use vigil_summit_agent.Worker.Delivery.Safe.{Keeps-handle_delivery}
use vigil_summit_agent.Worker.Outbox.{dispatch_pending_outbox_messages}
use vigil_summit_agent.Worker.Outbox.Rows.{Keeps-dispatch_pending_outbox_messages}
use vigil_summit_agent.Worker.Outbox.Live.{Live, KeepsLive, Live-safe, persist-Live}
use vigil_summit_agent.Worker.Execution.{change_and_record, transition, put}

transition-Live :
    (id : String) (allowed : ExecutionStatus → Bool) (change : Execution → Execution)
    (row_id : String) (key : RoutingKey) (m : Message) (d : Db)
    → Live d
    → Live (transition id allowed change row_id key m d).1
unfolding transition
transition-Live id allowed change row_id key m d l = by_row (d.executions id)
  where
    by_row :
        (o : Option Execution)
        → Live (change_and_record o id allowed change (persist_outbox_event row_id key m) d).1
    by_row none = l
    by_row (some old) = elim (Bool-cases (allowed old.status)) [
      | inl allows ↦
          rw allows (
            persist-Live row_id key m (record d { executions = put d.executions id (change old) })
              l)
      | inr denies ↦ rw denies l
    ]

Live-nodes : NodesSafe KeepsLive
unfolding write_run insert_trace
Live-nodes = record {
  outbox = Live-safe;
  persist = λ row_id key m d s. persist-Live row_id key m d;
  start_run =
      λ message node input at row_id d s l. rw (upsert-outbox message node input at row_id d) l;
  end_run = λ row_id f d s l. l;
  trace = λ t d s l. l;
}

Live-worker : WorkerSafe KeepsLive
Live-worker = record {
  nodes = Live-nodes;
  started = λ message event_id row_id at d s. transition-Live _ _ _ row_id _ _ d;
  completed = λ message event_id row_id output a b d s. transition-Live _ _ _ row_id _ _ d;
  failed = λ message event_id row_id failure at d s. transition-Live _ _ _ row_id _ _ d;
}

-- If every row that is pending in the outbox has fewer than five attempts, and the other processes keep
-- it so, then it is so after the delivery handler and after a cycle of the dispatcher, also where these
-- throw or a database call fails.
pub handle_delivery-Live :
    (delivery : Delivery) (batch_size : ℕ) (env : Env) (w : World)
    → Rely KeepsLive env
    → Live w.db
    → Live (final (handle_delivery delivery env w)).db
      × Live (final (dispatch_pending_outbox_messages batch_size env w)).db
handle_delivery-Live delivery batch_size env w r l = (
  (Keeps-handle_delivery Live-worker (λ x d s l. l) delivery).at env w r l,
  (Keeps-dispatch_pending_outbox_messages Live-safe batch_size).at env w r l,
)
