-- ===== src/Worker/Delivery.antt =====
-- `handleDelivery` of apps/execution-worker/src/index.ts, with its retries and dead letters. The
-- content type, the delivery mode and the timestamp of a publication are left out.
pub mod Safe
pub mod Guarantees
pub mod Accounted
pub mod Returns
pub mod Live
pub mod Once
use vigil_summit_agent.Prelude.{
  ℕ, ◌+◌, ◌-◌, String, Bool, false, Option, none, some, List, [], ◌∷◌, ◌&&◌, ltb, if◌then◌else◌,
  get_or_else, get_elem?,
}
use vigil_summit_agent.Json.{whole, num, str, Fields, end, field, set}
use vigil_summit_agent.Contracts.Message.{
  exchange_retry, exchange_dlx, workflow_execution_requested, routing_key_text, producer_api,
  message_schema_version, max_retry_attempts, Failure, Command,
}
use vigil_summit_agent.Worker.State.{
  Error, worker_error, Publication, command, raw, acked, requeued,
}
use vigil_summit_agent.Worker.Effects.{M, throw, ◌>>=◌, ◌>>◌, try_catch, publish, settle, ask}
use vigil_summit_agent.Worker.Command.{Delivery, parse_command, retry_attempt}
use vigil_summit_agent.Worker.Trace.{normalize_worker_failure}
use vigil_summit_agent.Worker.Execution.{process_workflow_execution, fail_workflow_execution}

pub record RetryQueue : Type 0 where
  pub queue : String
  pub routing_key : String
  pub ttl_ms : ℕ

-- `retryQueueConfig`
abbrev pub retry_queues : List RetryQueue
retry_queues =
    record {
      queue = "flowpilot.retry.execution-worker.workflow-executions.10s";
      routing_key = "workflow.execution.requested.retry.10s";
      ttl_ms = 10000;
    }
    ∷ record {
      queue = "flowpilot.retry.execution-worker.workflow-executions.1m";
      routing_key = "workflow.execution.requested.retry.1m";
      ttl_ms = 60000;
    }
    ∷ record {
      queue = "flowpilot.retry.execution-worker.workflow-executions.5m";
      routing_key = "workflow.execution.requested.retry.5m";
      ttl_ms = 300000;
    }
    ∷ []

-- The headers of a command that is published again.
abbrev pub command_headers : Command → ℕ → Fields → Fields
command_headers message attempt more = field "correlationId" (str message.correlation_id) (
    field "producer" (str producer_api) (
      field "schemaVersion" (num (whole message_schema_version)) (
        field "workspaceId" (str message.workspace_id)
          (field "x-flowpilot-retry-attempt" (num (whole attempt)) more))))

unfoldable pub retry_publication : Command → ℕ → RetryQueue → Publication
retry_publication message attempt q = record {
  exchange = exchange_retry;
  routing_key = q.routing_key;
  content = command message.body;
  message_id = some message.event_id;
  type = some (routing_key_text workflow_execution_requested);
  headers = command_headers message attempt end;
}

unfoldable pub publish_to : Command → ℕ → Option RetryQueue → M Bool
publish_to message attempt none = throw (
    worker_error "workflow_execution_retry_policy_missing"
      "No retry queue configured for the attempt" false)
publish_to message attempt (some q) = publish (retry_publication message attempt q)

-- `publishRetryCommand`
unfoldable pub publish_retry_command : Command → ℕ → M Bool
publish_retry_command message attempt =
    publish_to message attempt (get_elem? retry_queues (attempt - 1))

unfoldable pub dead_letter : Command → Failure → ℕ → Publication
dead_letter message failure attempt = record {
  exchange = exchange_dlx;
  routing_key = routing_key_text workflow_execution_requested;
  content = command message.body;
  message_id = some message.event_id;
  type = some (routing_key_text workflow_execution_requested);
  headers = command_headers message attempt (
      field "x-flowpilot-dead-letter-code" (str failure.code)
        (field "x-flowpilot-dead-letter-reason" (str failure.message) end));
}

-- `publishCommandDeadLetter`
unfoldable pub publish_command_dead_letter : Command → Failure → ℕ → M Bool
publish_command_dead_letter message failure attempt = publish (dead_letter message failure attempt)

unfoldable pub raw_dead_letter : Delivery → String → Publication
raw_dead_letter delivery reason = record {
  exchange = exchange_dlx;
  routing_key = delivery.routing_key;
  content = raw delivery.content;
  message_id = delivery.message_id;
  type = delivery.type;
  headers = set (get_or_else delivery.headers end) "x-flowpilot-dead-letter-reason" (str reason);
}

-- The last part of the `catch`: the execution fails for good.
unfoldable pub give_up : Command → Failure → ℕ → M (Unit {0})
give_up message failure attempt =
    try_catch
      (do
        fail_workflow_execution message failure
        publish_command_dead_letter message failure attempt
        settle acked)
      (λ _. settle requeued)

-- The `catch` of `handleDelivery`. A retry that cannot be published throws out of the handler.
unfoldable pub on_failure : Command → Failure → ℕ → M (Unit {0})
on_failure message failure attempt =
    if failure.retryable && ltb attempt max_retry_attempts
    then publish_retry_command message (attempt + 1) >> settle acked
    else give_up message failure attempt

unfoldable pub handle_error : Delivery → Command → Error → M (Unit {0})
handle_error delivery message error = do
  attempt ← ask (λ env. retry_attempt env delivery)
  on_failure message (normalize_worker_failure error) attempt

unfoldable pub handle_parsed : Delivery → Option Command → M (Unit {0})
handle_parsed delivery none = publish (raw_dead_letter delivery "invalid_payload") >> settle acked
handle_parsed delivery (some message) =
    try_catch (process_workflow_execution message >> settle acked) (handle_error delivery message)

unfoldable pub handle_delivery : Delivery → M (Unit {0})
handle_delivery delivery = do
  message ← ask (λ env. parse_command env delivery)
  handle_parsed delivery message
