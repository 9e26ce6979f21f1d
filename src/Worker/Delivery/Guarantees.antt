-- ===== src/Worker/Delivery/Guarantees.antt =====
-- What the delivery handler guarantees to the rest of the system, however the broker answers, whatever
-- fails, and whatever the other processes do that respects the same relation.
use vigil_summit_agent.Prelude.{refl}
use vigil_summit_agent.Worker.State.{World, Env}
use vigil_summit_agent.Worker.Effects.{final}
use vigil_summit_agent.Worker.Keeps.{Rely}
use vigil_summit_agent.Worker.Outbox.{
  write_rows, mark_failed, mark_published, persist_outbox_event, key_of,
}
use vigil_summit_agent.Worker.Outbox.Rows.{
  OutboxGrows, OutboxGrows-safe, Extends, Extends-refl, persist-Extends,
}
use vigil_summit_agent.Worker.NodeRuns.{upsert_running, write_run}
use vigil_summit_agent.Worker.Trace.{insert_trace}
use vigil_summit_agent.Worker.Safe.{NodesSafe}
use vigil_summit_agent.Worker.Events.{
  execution_started_message, execution_completed_message, execution_failed_message,
}
use vigil_summit_agent.Worker.Execution.{
  is_pending, is_running, is_open, to_running, to_succeeded, to_failed,
}
use vigil_summit_agent.Worker.Execution.Rows.{
  Later-refl, Advance, Advanced, Recorded, KeepsRecorded, Recorded-Extends, persist-executions,
  transition-Recorded, transition-Extends,
}
use vigil_summit_agent.Worker.Execution.Safe.{WorkerSafe}
use vigil_summit_agent.Worker.Execution.Advance.{upsert-executions, upsert-outbox, Advance-safe}
use vigil_summit_agent.Worker.Command.{Delivery}
use vigil_summit_agent.Worker.Delivery.{handle_delivery}
use vigil_summit_agent.Worker.Delivery.Safe.{Keeps-handle_delivery}

Recorded-nodes : NodesSafe KeepsRecorded
unfolding write_rows write_run insert_trace
Recorded-nodes = record {
  outbox = record {
    failed = λ seen message d s.
        Recorded-Extends d (write_rows seen.id (mark_failed seen message) d).1 refl
          (OutboxGrows-safe.failed seen message d s);
    published = λ row_id at d s.
        Recorded-Extends d (write_rows row_id (mark_published at) d).1 refl
          (OutboxGrows-safe.published row_id at d s);
  };
  persist = λ row_id key m d s.
      Recorded-Extends d (persist_outbox_event row_id key m d).1 (persist-executions row_id key m d)
        (persist-Extends row_id key m d);
  start_run = λ message node input at row_id d s.
      Recorded-Extends d (upsert_running message node input at row_id d).1
        (upsert-executions message node input at row_id d)
        (rw (upsert-outbox message node input at row_id d) (Extends-refl d.outbox));
  end_run =
      λ row_id f d s. Recorded-Extends d (write_run row_id f d).1 refl (Extends-refl d.outbox);
  trace = λ t d s. Recorded-Extends d (insert_trace t d).1 refl (Extends-refl d.outbox);
}

Recorded-safe : WorkerSafe KeepsRecorded
unfolding to_running to_succeeded to_failed execution_started_message execution_completed_message
    execution_failed_message key_of
Recorded-safe = record {
  nodes = Recorded-nodes;
  started = λ message event_id row_id at d s.
      transition-Recorded message.execution_id is_pending (to_running at) row_id _ _ d
        (λ e rows h. h);
  completed = λ message event_id row_id output a b d s.
      transition-Recorded message.execution_id is_running (to_succeeded output b) row_id _ _ d
        (λ e rows h. h);
  failed = λ message event_id row_id failure at d s.
      transition-Recorded message.execution_id is_open (to_failed failure at) row_id _ _ d
        (λ e rows h. h);
}

OutboxGrows-nodes : NodesSafe OutboxGrows
unfolding write_run insert_trace
OutboxGrows-nodes = record {
  outbox = OutboxGrows-safe;
  persist = λ row_id key m d s. persist-Extends row_id key m d;
  start_run = λ message node input at row_id d s.
      rw (upsert-outbox message node input at row_id d) (Extends-refl d.outbox);
  end_run = λ row_id f d s. Extends-refl d.outbox;
  trace = λ t d s. Extends-refl d.outbox;
}

OutboxGrows-worker : WorkerSafe OutboxGrows
OutboxGrows-worker = record {
  nodes = OutboxGrows-nodes;
  started = λ message event_id row_id at d s. transition-Extends _ _ _ row_id _ _ d;
  completed = λ message event_id row_id output a b d s. transition-Extends _ _ _ row_id _ _ d;
  failed = λ message event_id row_id failure at d s. transition-Extends _ _ _ row_id _ _ d;
}

-- Whatever a delivery is, however the broker answers and whichever database call fails: if the other
-- processes only move executions forward, then over the handler no execution's row goes away, its
-- definition stays, its status does not go back, and a row that is terminal before is the same after.
pub handle_delivery-Advanced :
    (delivery : Delivery) (env : Env) (w : World)
    → Rely Advance env
    → Advanced w.db (final (handle_delivery delivery env w)).db
handle_delivery-Advanced delivery env w =
    (Keeps-handle_delivery Advance-safe (λ x d s id e h. (e, h, Later-refl e)) delivery).at env w

-- If every running, succeeded or failed execution has its started, completed or failed event in the
-- outbox before a delivery, and the other processes keep it so, then it is so after the handler, also
-- where the handler throws or a database call fails.
pub handle_delivery-Recorded :
    (delivery : Delivery) (env : Env) (w : World)
    → Rely KeepsRecorded env
    → Recorded w.db
    → Recorded (final (handle_delivery delivery env w)).db
handle_delivery-Recorded delivery env w =
    (Keeps-handle_delivery Recorded-safe (λ x d s r. r) delivery).at env w

-- Over the handler the outbox only grows at its end: a row that was there is still there, at its place,
-- with the same id, exchange, routing key, message id, idempotency key, payload and headers, if the
-- other processes keep it so.
pub handle_delivery-Extends :
    (delivery : Delivery) (env : Env) (w : World)
    → Rely OutboxGrows env
    → Extends w.db.outbox (final (handle_delivery delivery env w)).db.outbox
handle_delivery-Extends delivery env w =
    (Keeps-handle_delivery OutboxGrows-worker (λ x d s. Extends-refl d.outbox) delivery).at env w
