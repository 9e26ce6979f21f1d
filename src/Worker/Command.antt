-- ===== src/Worker/Command.antt =====
-- `parseWorkflowExecutionRequestedMessage`, its guard, and `getWorkflowExecutionRetryAttempt` of
-- apps/execution-worker/src/index.ts: what is read out of a delivery.
pub mod Redelivery
use vigil_summit_agent.Prelude.{ℕ, String, Bool, true, false, Option, none, some, ◌==◌, get_or_else}
use vigil_summit_agent.Json.{whole, Json, num, str, Fields, get, is_number, is_text, as_record}
use vigil_summit_agent.Contracts.Message.{
  workflow_execution_requested, routing_key_text, producer_api, message_schema_version, Command,
}
use vigil_summit_agent.Worker.State.{Env}

-- What the handler reads of a `ConsumeMessage`.
pub record Delivery : Type 0 where
  pub content : String
  pub routing_key : String
  pub message_id : Option String
  pub type : Option String
  pub headers : Option Fields

infixl 5 ◌>>=◌ ◌>>◌
abbrev pub ◌>>=◌ : {A B : Type 0} → Option A → (A → Option B) → Option B
none >>= f = none
some a >>= f = f a

abbrev pub ◌>>◌ : {B : Type 0} → Option (Unit {0}) → Option B → Option B
m >> k = m >>= λ _. k

abbrev pub guard : Bool → Option (Unit {0})
guard true = some tt
guard false = none

-- `typeof x === "string"`, with the text.
abbrev pub text : Option Json → Option String
text (some (str s)) = some s
text (some _) = none
text none = none

abbrev pub is_version : Option Json → Bool
is_version (some (num (whole n))) = n == message_schema_version
is_version (some _) = false
is_version none = false

-- `isWorkflowExecutionRequestedMessage`, with the fields that it finds.
unfoldable pub read_command : Fields → Option Command
read_command fs = do
  guard (is_text (get fs "eventName") (routing_key_text workflow_execution_requested))
  event_id ← text (get fs "eventId")
  guard (is_version (get fs "schemaVersion"))
  occurred_at ← text (get fs "occurredAt")
  workspace_id ← text (get fs "workspaceId")
  correlation_id ← text (get fs "correlationId")
  guard (is_text (get fs "producer") producer_api)
  payload ← as_record (get fs "payload")
  workflow_id ← text (get payload "workflowId")
  guard (is_number (get payload "workflowVersion"))
  execution_id ← text (get payload "executionId")
  requested_by ← as_record (get payload "requestedBy")
  guard (is_text (get requested_by "type") "user")
  requester ← text (get requested_by "id")
  input ← as_record (get payload "input")
  some (record {
    body = fs;
    event_id = event_id;
    occurred_at = occurred_at;
    workspace_id = workspace_id;
    correlation_id = correlation_id;
    workflow_id = workflow_id;
    execution_id = execution_id;
    input = input;
  })

-- `parseWorkflowExecutionRequestedMessage`
unfoldable pub parse_command : Env → Delivery → Option Command
parse_command env delivery = do fs ← as_record (env.parse_json delivery.content); read_command fs

-- The value of the retry header: a whole number, or a text that `parseInt` reads as one.
abbrev attempt_of : Env → Option Json → ℕ
attempt_of env (some (num (whole n))) = n
attempt_of env (some (str s)) = get_or_else (env.parse_int s) 0
attempt_of env (some _) = 0
attempt_of env none = 0

abbrev pub header : Option Fields → Option Json
header none = none
header (some fs) = get fs "x-flowpilot-retry-attempt"

-- `getWorkflowExecutionRetryAttempt`
unfoldable pub retry_attempt : Env → Delivery → ℕ
retry_attempt env delivery = attempt_of env (header delivery.headers)
