-- ===== src/WorkflowService/Tests.antt =====
-- The theorems about the workflow service at concrete inputs.
use vigil_summit_agent.Prelude.{ℕ, String, some, [], ◌≡◌}
use vigil_summit_agent.Json.{str, obj, Fields, end, field}
use vigil_summit_agent.Contracts.Message.{Command, Message, routing_key_text}
use vigil_summit_agent.Worker.Events.{execution_completed_message}
use vigil_summit_agent.WorkflowService.{parse_lifecycle, written, handle_event}
use vigil_summit_agent.WorkflowService.Encoding.{payload_json, message_json}
use vigil_summit_agent.WorkflowService.Accepts.{completed, parse_lifecycle-emitted}
use vigil_summit_agent.WorkflowService.Stored.{Unique, Outcome, handle_event-outcome}

abbrev first_command : Command
first_command = record {
  body = end;
  event_id = "event-1";
  occurred_at = "2026-01-01T00:00:00.000Z";
  workspace_id = "space-1";
  correlation_id = "correlation-1";
  workflow_id = "flow-1";
  execution_id = "run-1";
  input = end;
}

abbrev date : ℕ → String
date at = "2026-01-01T00:00:01.000Z"

abbrev output : Fields
output = field "topic" (str "hello") end

abbrev run_completed : Message
run_completed = execution_completed_message first_command "event-2" output 5 9

parse_lifecycle-emitted_example :
    parse_lifecycle (some (obj (message_json date run_completed)))
    ≡ some (record {
      event_id = run_completed.event_id;
      event_name = routing_key_text run_completed.event_name;
      occurred_at = "2026-01-01T00:00:01.000Z";
      workspace_id = "space-1";
      workflow_id = "flow-1";
      execution_id = "run-1";
      producer = "execution-worker";
      payload = payload_json date run_completed.payload;
    })
parse_lifecycle-emitted_example =
    parse_lifecycle-emitted date first_command run_completed (completed "event-2" output 5 9)

handle_event-outcome_example :
    Unique (handle_event (some (obj (message_json date run_completed))) written []).1
    × Outcome
        (parse_lifecycle (some (obj (message_json date run_completed))))
        written
        []
        (handle_event (some (obj (message_json date run_completed))) written []).0
        (handle_event (some (obj (message_json date run_completed))) written []).1
handle_event-outcome_example =
    handle_event-outcome (some (obj (message_json date run_completed))) written [] tt
