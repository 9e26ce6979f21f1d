-- ===== src/Worker/Events.antt =====
-- The `create…Message` functions of apps/execution-worker/src/index.ts. All actors are the system
-- with the producer's name, and are left out.
use vigil_summit_agent.Prelude.{ℕ, String, some, ◌<>◌, get_or_else}
use vigil_summit_agent.Json.{Fields}
use vigil_summit_agent.Contracts.Message.{
  RoutingKey, workflow_execution_started, workflow_execution_completed, workflow_execution_failed,
  node_execution_started, node_execution_completed, node_execution_failed, ai_trace_created,
  producer_execution_worker, message_schema_version, Failure, Payload, execution_started,
  execution_completed, execution_failed, node_started, node_completed, node_failed, trace_created,
  Message, Command, elapsed,
}
use vigil_summit_agent.Contracts.Workflow.{Node, node_type}
use vigil_summit_agent.Worker.State.{AiTrace}
use vigil_summit_agent.Worker.Outbox.{started_key, completed_key, failed_key}

-- The envelope that all of them share.
abbrev pub event : Command → RoutingKey → String → String → ℕ → Payload → Message
event message name event_id key occurred_at payload = record {
  event_name = name;
  event_id = event_id;
  schema_version = message_schema_version;
  occurred_at = occurred_at;
  workspace_id = message.workspace_id;
  correlation_id = message.correlation_id;
  causation_id = message.event_id;
  producer = producer_execution_worker;
  idempotency_key = some key;
  payload = payload;
}

unfoldable pub execution_started_message : Command → String → ℕ → Message
execution_started_message message event_id occurred_at =
    event message workflow_execution_started event_id (started_key message.execution_id) occurred_at
      (execution_started message.workflow_id message.execution_id)

unfoldable pub execution_completed_message : Command → String → Fields → ℕ → ℕ → Message
execution_completed_message message event_id output started_at completed_at =
    event message workflow_execution_completed event_id (completed_key message.execution_id)
      completed_at
      (execution_completed message.workflow_id message.execution_id output
        (elapsed started_at completed_at))

unfoldable pub execution_failed_message : Command → String → Failure → ℕ → Message
execution_failed_message message event_id error occurred_at =
    event message workflow_execution_failed event_id (failed_key message.execution_id) occurred_at
      (execution_failed message.workflow_id message.execution_id error)

abbrev pub node_key : String → Command → Node → String
node_key kind message node =
    "workflow.node.execution." <> kind <> ":" <> message.execution_id <> ":" <> node.id

unfoldable pub node_started_message : Command → String → Node → String → Fields → ℕ → Message
node_started_message message event_id node node_execution_id input started_at =
    event message node_execution_started event_id (node_key "started" message node) started_at (
      node_started message.workflow_id message.execution_id node_execution_id node.id
        (node_type node.config) input)

unfoldable pub node_completed_message : Command → String → Node → String → Fields → ℕ → ℕ → Message
node_completed_message message event_id node node_execution_id output started_at completed_at =
    event message node_execution_completed event_id (node_key "completed" message node) completed_at
      (node_completed message.workflow_id message.execution_id node_execution_id node.id
        (node_type node.config) output (elapsed started_at completed_at))

unfoldable pub node_failed_message : Command → String → Node → String → Failure → ℕ → Message
node_failed_message message event_id node node_execution_id failure failed_at =
    event message node_execution_failed event_id (node_key "failed" message node) failed_at (
      node_failed message.workflow_id message.execution_id node_execution_id node.id
        (node_type node.config) failure)

-- `createAiTraceCreatedMessage`, without the estimated cost.
unfoldable pub trace_created_message : Command → String → AiTrace → ℕ → Message
trace_created_message message event_id trace created_at =
    event message ai_trace_created event_id ("ai.trace.created:" <> trace.id) created_at (
      trace_created (record {
        trace_id = trace.id;
        workflow_id = trace.workflow_id;
        execution_id = trace.execution_id;
        node_execution_id = trace.node_execution_id;
        node_id = trace.node_id;
        model = trace.model;
        provider = trace.provider;
        latency_ms = trace.latency_ms;
        provider_latency_ms = trace.provider_latency_ms;
        finish_reason = trace.finish_reason;
        input_tokens = get_or_else trace.input_token_count 0;
        output_tokens = get_or_else trace.output_token_count 0;
        total_tokens = get_or_else trace.total_token_count 0;
        status = trace.status;
        error_code = trace.error_code;
        provider_status_code = trace.provider_status_code;
        retryable = trace.retryable;
      }))
