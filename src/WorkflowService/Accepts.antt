-- ===== src/WorkflowService/Accepts.antt =====
-- The execution worker publishes what the workflow service stores.
use vigil_summit_agent.Prelude.{ℕ, String, some, ◌≡◌, refl}
use vigil_summit_agent.Json.{obj, Fields}
use vigil_summit_agent.Contracts.Message.{Failure, Message, Command, routing_key_text}
use vigil_summit_agent.Contracts.Workflow.{Node}
use vigil_summit_agent.Worker.Events.{
  execution_started_message, execution_completed_message, execution_failed_message,
  node_started_message, node_completed_message, node_failed_message,
}
use vigil_summit_agent.WorkflowService.{
  is_producer, is_payload, is_envelope, read_lifecycle, parse_lifecycle,
}
use vigil_summit_agent.WorkflowService.Encoding.{payload_json, message_json}

-- The lifecycle events that the worker makes for a command, whatever the execution's values are.
pub data Emitted (message : Command) : Message → Type 0 where
  started : (id : String) (at : ℕ) → Emitted message (execution_started_message message id at)
  completed :
      (id : String) (output : Fields) (a b : ℕ)
      → Emitted message (execution_completed_message message id output a b)
  failed :
      (id : String) (f : Failure) (at : ℕ)
      → Emitted message (execution_failed_message message id f at)
  node_started :
      (id : String) (node : Node) (run : String) (input : Fields) (at : ℕ)
      → Emitted message (node_started_message message id node run input at)
  node_completed :
      (id : String) (node : Node) (run : String) (output : Fields) (a b : ℕ)
      → Emitted message (node_completed_message message id node run output a b)
  node_failed :
      (id : String) (node : Node) (run : String) (f : Failure) (at : ℕ)
      → Emitted message (node_failed_message message id node run f at)

-- Each lifecycle event that the execution worker makes for a command passes the guard of the workflow
-- service, which reads back the event's id and name, its date, and the workspace, the workflow and the
-- execution of the command.
pub parse_lifecycle-emitted :
    (iso : ℕ → String) (message : Command) (m : Message)
    → Emitted message m
    → parse_lifecycle (some (obj (message_json iso m)))
      ≡ some (record {
        event_id = m.event_id;
        event_name = routing_key_text m.event_name;
        occurred_at = iso m.occurred_at;
        workspace_id = message.workspace_id;
        workflow_id = message.workflow_id;
        execution_id = message.execution_id;
        producer = "execution-worker";
        payload = payload_json iso m.payload;
      })
unfolding parse_lifecycle read_lifecycle is_envelope is_payload is_producer message_json
    payload_json execution_started_message execution_completed_message execution_failed_message
    node_started_message node_completed_message node_failed_message routing_key_text
    vigil_summit_agent.Json.as_record
parse_lifecycle-emitted iso message m (started id at) = refl
parse_lifecycle-emitted iso message m (completed id output a b) = refl
parse_lifecycle-emitted iso message m (failed id f at) = refl
parse_lifecycle-emitted iso message m (node_started id node run input at) = refl
parse_lifecycle-emitted iso message m (node_completed id node run output a b) = refl
parse_lifecycle-emitted iso message m (node_failed id node run f at) = refl
