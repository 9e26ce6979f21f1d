-- ===== src/Worker/Delivery/Once.antt =====
-- The idempotency keys of the outbox under the delivery handler and the dispatcher.
use vigil_summit_agent.Prelude.{
  ◌≡◌, refl, ◌<>◌, Bool, Option, none, some, Bool-cases, inl, inr, ℕ, String,
}
use vigil_summit_agent.Json.{Fields}
use vigil_summit_agent.Worker.Events.{
  execution_started_message, execution_completed_message, execution_failed_message,
}
use vigil_summit_agent.Contracts.Message.{Command, Failure, RoutingKey, Message}
use vigil_summit_agent.Worker.State.{ExecutionStatus, Execution, Db, World, Env}
use vigil_summit_agent.Worker.Effects.{final}
use vigil_summit_agent.Worker.Keeps.{Rely}
use vigil_summit_agent.Worker.Outbox.{persist_outbox_event, key_of}
use vigil_summit_agent.Worker.NodeRuns.{write_run}
use vigil_summit_agent.Worker.Trace.{insert_trace}
use vigil_summit_agent.Worker.Safe.{NodesSafe}
use vigil_summit_agent.Worker.Execution.Safe.{WorkerSafe}
use vigil_summit_agent.Worker.Execution.Advance.{upsert-outbox}
use vigil_summit_agent.Worker.Command.{Delivery}
use vigil_summit_agent.Worker.Delivery.{handle_delivery}
use vigil_summit_agent.Worker.Delivery.Safe.{Keeps-handle_delivery}
use vigil_summit_agent.Worker.Outbox.{dispatch_pending_outbox_messages}
use vigil_summit_agent.Worker.Outbox.Rows.{Keeps-dispatch_pending_outbox_messages}
use vigil_summit_agent.Worker.Outbox.Unique.{Unique, KeepsUnique, Unique-safe, persist-Unique}
use vigil_summit_agent.Worker.Execution.{change_and_record, transition, put}

transition-Unique :
    (id : String) (allowed : ExecutionStatus → Bool) (change : Execution → Execution)
    (row_id : String) (key : RoutingKey) (m : Message) (d : Db)
    → Unique d.outbox
    → Unique (transition id allowed change row_id key m d).1.outbox
unfolding transition
transition-Unique id allowed change row_id key m d l = by_row (d.executions id)
  where
    by_row :
        (o : Option Execution)
        → Unique
            (change_and_record o id allowed change (persist_outbox_event row_id key m) d).1.outbox
    by_row none = l
    by_row (some old) = elim (Bool-cases (allowed old.status)) [
      | inl allows ↦ rw allows (
          persist-Unique row_id key m (record d { executions = put d.executions id (change old) })
            l)
      | inr denies ↦ rw denies l
    ]

Unique-nodes : NodesSafe KeepsUnique
unfolding write_run insert_trace
Unique-nodes = record {
  outbox = Unique-safe;
  persist = λ row_id key m d s. persist-Unique row_id key m d;
  start_run =
      λ message node input at row_id d s l. rw (upsert-outbox message node input at row_id d) l;
  end_run = λ row_id f d s l. l;
  trace = λ t d s l. l;
}

Unique-worker : WorkerSafe KeepsUnique
Unique-worker = record {
  nodes = Unique-nodes;
  started = λ message event_id row_id at d s. transition-Unique _ _ _ row_id _ _ d;
  completed = λ message event_id row_id output a b d s. transition-Unique _ _ _ row_id _ _ d;
  failed = λ message event_id row_id failure at d s. transition-Unique _ _ _ row_id _ _ d;
}

-- If no two rows of the outbox have the same idempotency key, and the other processes keep it so, then it
-- is so after the delivery handler and after a cycle of the dispatcher, also where these throw or a
-- database call fails. And the key of the started, the completed and the failed event of an execution
-- is the name of the event and the id of the execution, whatever the event's own id, time and contents
-- are: so each of them is stored at most once.
pub handle_delivery-Unique :
    (delivery : Delivery) (batch_size : ℕ) (env : Env) (w : World) (m : Command) (event_id : String)
    (output : Fields) (failure : Failure) (started_at at : ℕ)
    → Rely KeepsUnique env
    → Unique w.db.outbox
    → Unique (final (handle_delivery delivery env w)).db.outbox
      × Unique (final (dispatch_pending_outbox_messages batch_size env w)).db.outbox
      × (key_of (execution_started_message m event_id at)
          ≡ "workflow.execution.started:" <> m.execution_id)
      × (key_of (execution_completed_message m event_id output started_at at)
          ≡ "workflow.execution.completed:" <> m.execution_id)
      × (key_of (execution_failed_message m event_id failure at)
          ≡ "workflow.execution.failed:" <> m.execution_id)
unfolding execution_started_message execution_completed_message execution_failed_message key_of
handle_delivery-Unique delivery batch_size env w m event_id output failure started_at at r u = (
  (Keeps-handle_delivery Unique-worker (λ x d s u'. u') delivery).at env w r u,
  (Keeps-dispatch_pending_outbox_messages Unique-safe batch_size).at env w r u,
  refl,
  refl,
  refl,
)
