-- ===== src/WorkflowService.antt =====
-- apps/workflow-service/src/index.ts: the consumer that stores the lifecycle events of executions.
pub mod Encoding
pub mod Accepts
pub mod Stored
mod Tests
use vigil_summit_agent.Prelude.{
  ℕ, String, Bool, true, false, Option, none, some, List, [], ◌∷◌, ◌++◌, ◌&&◌, ◌||◌, ◌==◌, ◌=ₛ◌,
  if◌then◌else◌, any, includes,
}
use vigil_summit_agent.Json.{
  whole, Json, num, str, Fields, get, is_string, is_number, is_text, as_record,
}
use vigil_summit_agent.Contracts.Message.{message_schema_version}

-- `workflowExecutionLifecycleEvents`
abbrev pub lifecycle_events : List String
lifecycle_events =
    "workflow.execution.started" ∷ "workflow.execution.completed" ∷ "workflow.execution.failed"
    ∷ "workflow.node.execution.started" ∷ "workflow.node.execution.completed"
    ∷ "workflow.node.execution.failed" ∷ []

-- `isFlowPilotMessageProducer`
unfoldable pub is_producer : Option Json → Bool
is_producer v =
    is_text v "api"
    || is_text v "workflow-service"
    || is_text v "execution-worker"
    || is_text v "ai-orchestrator"
    || is_text v "observability-service"

abbrev text_or_empty : Option Json → String
text_or_empty (some (str s)) = s
text_or_empty (some _) = ""
text_or_empty none = ""

abbrev is_version : Option Json → Bool
is_version (some (num (whole n))) = n == message_schema_version
is_version (some _) = false
is_version none = false

abbrev is_record : Option Json → Bool
is_record v = elim (as_record v) [ none ↦ false | some _ ↦ true ]

-- `isRecord(x) && typeof x.message === "string"`
abbrev has_message : Option Json → Bool
has_message v = elim (as_record v) [ none ↦ false | some fs ↦ is_string (get fs "message") ]

abbrev is_node : Fields → Bool
is_node payload =
    is_string (get payload "nodeExecutionId")
    && is_string (get payload "nodeId")
    && is_string (get payload "nodeType")

-- The tests of the payload, by the event's name
unfoldable pub is_payload : String → Fields → Bool
is_payload name payload =
    is_string (get payload "workflowId")
    && is_string (get payload "executionId")
    && (if name =ₛ "workflow.execution.completed"
        then is_record (get payload "output") && is_number (get payload "durationMs")
        else if name =ₛ "workflow.execution.failed"
        then has_message (get payload "error")
        else if name =ₛ "workflow.execution.started"
        then true
        else if name =ₛ "workflow.node.execution.started"
        then is_node payload && is_record (get payload "input")
        else if name =ₛ "workflow.node.execution.completed"
        then is_node payload
          && is_record (get payload "output")
          && is_number (get payload "durationMs")
        else (name =ₛ "workflow.node.execution.failed")
          && is_node payload
          && has_message (get payload "error"))

-- The tests of the envelope
unfoldable pub is_envelope : Fields → Bool
is_envelope fs =
    is_string (get fs "eventName")
    && includes lifecycle_events (text_or_empty (get fs "eventName"))
    && is_string (get fs "eventId")
    && is_version (get fs "schemaVersion")
    && is_string (get fs "occurredAt")
    && is_string (get fs "workspaceId")
    && is_string (get fs "correlationId")
    && is_producer (get fs "producer")

-- What the service reads of a message.
pub record Lifecycle : Type 0 where
  pub event_id : String
  pub event_name : String
  pub occurred_at : String
  pub workspace_id : String
  pub workflow_id : String
  pub execution_id : String
  pub producer : String
  pub payload : Fields

abbrev lifecycle_of : Fields → Fields → Lifecycle
lifecycle_of fs payload = record {
  event_id = text_or_empty (get fs "eventId");
  event_name = text_or_empty (get fs "eventName");
  occurred_at = text_or_empty (get fs "occurredAt");
  workspace_id = text_or_empty (get fs "workspaceId");
  workflow_id = text_or_empty (get payload "workflowId");
  execution_id = text_or_empty (get payload "executionId");
  producer = text_or_empty (get fs "producer");
  payload = payload;
}

abbrev read_payload : Fields → Option Fields → Option Lifecycle
read_payload fs none = none
read_payload fs (some payload) =
    if is_envelope fs && is_payload (text_or_empty (get fs "eventName")) payload
    then some (lifecycle_of fs payload)
    else none

-- `isWorkflowExecutionLifecycleMessage`, with the fields that it finds
unfoldable pub read_lifecycle : Option Fields → Option Lifecycle
read_lifecycle none = none
read_lifecycle (some fs) = read_payload fs (as_record (get fs "payload"))

-- `parseWorkflowExecutionLifecycleMessage`, after `JSON.parse`, which gives `none` where it throws
unfoldable pub parse_lifecycle : Option Json → Option Lifecycle
parse_lifecycle value = read_lifecycle (as_record value)

abbrev pub has_event_id : String → Lifecycle → Bool
has_event_id id e = e.event_id =ₛ id

-- The upsert of `persistWorkflowExecutionEvent`, by the event's id and with nothing to update
unfoldable pub store_event : Lifecycle → List Lifecycle → List Lifecycle
store_event e stored = if any (has_event_id e.event_id) stored then stored else stored ++ e ∷ []

-- What the database answers to the upsert: it is done, a foreign key is missing (`P2003`), or another
-- error.
pub data Written : Type 0 where
  written foreign_key_missing write_failed : Written

pub data Settled : Type 0 where
  acknowledged requeued rejected : Settled

unfoldable pub persist : Lifecycle → Written → List Lifecycle → Settled × List Lifecycle
persist e written stored = (acknowledged, store_event e stored)
persist e foreign_key_missing stored = (rejected, stored)
persist e write_failed stored = (requeued, stored)

unfoldable pub handle_read : Option Lifecycle → Written → List Lifecycle → Settled × List Lifecycle
handle_read none answer stored = (rejected, stored)
handle_read (some e) answer stored = persist e answer stored

-- `handleDelivery`: how the delivery is settled, and the table of events.
unfoldable pub handle_event : Option Json → Written → List Lifecycle → Settled × List Lifecycle
handle_event value answer stored = handle_read (parse_lifecycle value) answer stored
