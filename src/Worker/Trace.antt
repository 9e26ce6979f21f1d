-- ===== src/Worker/Trace.antt =====
-- The AI traces of apps/execution-worker/src/index.ts: what a prompt node's output or failure says
-- of the provider, the row, and its event. The estimated cost and the sizes in bytes are left out.
use vigil_summit_agent.Prelude.{
  ℕ, ◌+◌, String, true, Option, none, some, [], ◌∷◌, ◌++◌, ◌=ₛ◌, if◌then◌else◌, get_or_else,
}
use vigil_summit_agent.Json.{Number, whole, Json, num, str, Fields, end, get, as_record}
use vigil_summit_agent.Contracts.Message.{
  ai_trace_created, Failure, trace_succeeded, trace_failed, TokenUsage, Command, elapsed,
}
use vigil_summit_agent.Contracts.Workflow.{PromptConfig, Config, ai_prompt_action, Node}
use vigil_summit_agent.Worker.State.{
  Db, Error, worker_error, client_error, enrichment_error, other_error, AiTrace,
}
use vigil_summit_agent.Worker.Effects.{M, pure, ◌>>=◌, try_catch, access, now, fresh_id}
use vigil_summit_agent.Worker.Events.{trace_created_message}
use vigil_summit_agent.Worker.Outbox.{persist_outbox_event, dispatch_outbox_event}

-- `normalizeWorkerFailure`
unfoldable pub normalize_worker_failure : Error → Failure
normalize_worker_failure (worker_error code message retryable) = record {
  code = code;
  message = message;
  retryable = retryable;
  response_body = none;
}
normalize_worker_failure (client_error code message retryable body) = record {
  code = code;
  message = message;
  retryable = retryable;
  response_body = body;
}
normalize_worker_failure (enrichment_error _ message _) = record {
  code = "workflow_execution_worker_error";
  message = message;
  retryable = true;
  response_body = none;
}
normalize_worker_failure (other_error message) = record {
  code = "workflow_execution_worker_error";
  message = message;
  retryable = true;
  response_body = none;
}

-- `getNonNegativeIntegerOrNull`
unfoldable pub non_negative_integer : Option Json → Option ℕ
non_negative_integer (some (num (whole n))) = some n
non_negative_integer (some _) = none
non_negative_integer none = none

abbrev pub fields_or_empty : Option Json → Fields
fields_or_empty v = get_or_else (as_record v) end

unfoldable pub ai_token_usage : Fields → TokenUsage
ai_token_usage output =
    let tokens = fields_or_empty (get output "tokens") in
    record {
      input = get_or_else (non_negative_integer (get tokens "input")) 0;
      output = get_or_else (non_negative_integer (get tokens "output")) 0;
    }

abbrev non_empty : Option Json → Option String
non_empty (some (str s)) = if s =ₛ "" then none else some s
non_empty (some _) = none
non_empty none = none

-- `getAiProviderTrace`
unfoldable pub provider_latency : Fields → Option ℕ
provider_latency output =
    non_negative_integer (get (fields_or_empty (get output "trace")) "providerLatencyMs")

unfoldable pub finish_reason : Fields → Option String
finish_reason output = non_empty (get (fields_or_empty (get output "trace")) "finishReason")

abbrev number_of : Option Json → Option Number
number_of (some (num n)) = some n
number_of (some _) = none
number_of none = none

-- `getProviderStatusCode`
unfoldable pub provider_status_code : Failure → Option Number
provider_status_code failure =
    number_of
      (get (fields_or_empty (get (fields_or_empty failure.response_body) "detail")) "status")

unfoldable pub succeeded_trace :
    Command → Node → PromptConfig → String → Fields → ℕ → ℕ → String → AiTrace
succeeded_trace message node c node_execution_id output started_at completed_at id =
    let usage = ai_token_usage output in
    record {
      id = id;
      workflow_id = message.workflow_id;
      execution_id = message.execution_id;
      node_execution_id = node_execution_id;
      node_id = node.id;
      credential_id = c.credential_id;
      provider = c.provider;
      model = c.model;
      status = trace_succeeded;
      latency_ms = elapsed started_at completed_at;
      provider_latency_ms = provider_latency output;
      finish_reason = finish_reason output;
      input_token_count = some usage.input;
      output_token_count = some usage.output;
      total_token_count = some (usage.input + usage.output);
      schema_valid = some true;
      error_code = none;
      error_message = none;
      provider_status_code = none;
      retryable = none;
    }

unfoldable pub failed_trace :
    Command → Node → PromptConfig → String → Failure → ℕ → ℕ → String → AiTrace
failed_trace message node c node_execution_id failure started_at failed_at id = record {
  id = id;
  workflow_id = message.workflow_id;
  execution_id = message.execution_id;
  node_execution_id = node_execution_id;
  node_id = node.id;
  credential_id = c.credential_id;
  provider = c.provider;
  model = c.model;
  status = trace_failed;
  latency_ms = elapsed started_at failed_at;
  provider_latency_ms = none;
  finish_reason = none;
  input_token_count = none;
  output_token_count = none;
  total_token_count = none;
  schema_valid = none;
  error_code = some failure.code;
  error_message = some failure.message;
  provider_status_code = provider_status_code failure;
  retryable = some failure.retryable;
}

unfoldable pub insert_trace : AiTrace → Db → AiTrace × Db
insert_trace trace db = (trace, record db { traces = db.traces ++ trace ∷ [] })

unfoldable pub publish_ai_trace_created : Command → AiTrace → ℕ → M (Unit {0})
publish_ai_trace_created message trace created_at = do
  event_id ← fresh_id
  row_id ← fresh_id
  row ← access (
      persist_outbox_event row_id ai_trace_created
        (trace_created_message message event_id trace created_at))
  dispatch_outbox_event row

-- The `try` of both recorders: a failure is logged and forgotten.
unfoldable pub record_trace : Command → (String → AiTrace) → M (Unit {0})
record_trace message trace_of =
    try_catch
      (do
        id ← fresh_id
        created_at ← now
        trace ← access (insert_trace (trace_of id))
        publish_ai_trace_created message trace created_at)
      (λ _. pure tt)

unfoldable pub record_succeeded : Command → Node → Config → String → Fields → ℕ → ℕ → M (Unit {0})
record_succeeded message node (ai_prompt_action c) node_execution_id output started_at
      completed_at =
    record_trace message
      (succeeded_trace message node c node_execution_id output started_at completed_at)
record_succeeded message node _ node_execution_id output started_at completed_at = pure tt

unfoldable pub record_failed : Command → Node → Config → String → Failure → ℕ → ℕ → M (Unit {0})
record_failed message node (ai_prompt_action c) node_execution_id failure started_at failed_at =
    record_trace message
      (failed_trace message node c node_execution_id failure started_at failed_at)
record_failed message node _ node_execution_id failure started_at failed_at = pure tt
