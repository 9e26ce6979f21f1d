-- ===== src/Contracts/Message.antt =====
-- packages/contracts/src/messaging.ts: exchanges, routing keys, producers and the messages that
-- the execution worker reads and writes. The text of a date is kept as its milliseconds.
use vigil_summit_agent.Prelude.{ℕ, ◌-◌, String, Bool, Option, leb, if◌then◌else◌}
use vigil_summit_agent.Json.{Number, whole, negative, Json, Fields}

abbrev pub exchange_commands : String
exchange_commands = "flowpilot.commands"

abbrev pub exchange_events : String
exchange_events = "flowpilot.events"

abbrev pub exchange_retry : String
exchange_retry = "flowpilot.retry"

abbrev pub exchange_dlx : String
exchange_dlx = "flowpilot.dlx"

-- A value of `FLOWPILOT_ROUTING_KEYS`, which is also the `eventName` of the message.
pub data RoutingKey : Type 0 where
  lead_enrichment_requested lead_enrichment_completed workflow_execution_requested : RoutingKey
  workflow_execution_started node_execution_started node_execution_completed : RoutingKey
  node_execution_failed workflow_execution_completed workflow_execution_failed : RoutingKey
  workflow_created ai_trace_created : RoutingKey

unfoldable pub routing_key_text : RoutingKey → String
routing_key_text workflow_created = "workflow.created"
routing_key_text lead_enrichment_requested = "lead.enrichment.requested"
routing_key_text lead_enrichment_completed = "lead.enrichment.completed"
routing_key_text workflow_execution_requested = "workflow.execution.requested"
routing_key_text workflow_execution_started = "workflow.execution.started"
routing_key_text node_execution_started = "workflow.node.execution.started"
routing_key_text node_execution_completed = "workflow.node.execution.completed"
routing_key_text node_execution_failed = "workflow.node.execution.failed"
routing_key_text workflow_execution_completed = "workflow.execution.completed"
routing_key_text workflow_execution_failed = "workflow.execution.failed"
routing_key_text ai_trace_created = "ai.trace.created"

abbrev pub producer_api : String
producer_api = "api"

abbrev pub producer_execution_worker : String
producer_execution_worker = "execution-worker"

abbrev pub producer_engagement_worker : String
producer_engagement_worker = "engagement-worker"

abbrev pub max_retry_attempts : ℕ
max_retry_attempts = 3

abbrev pub message_schema_version : ℕ
message_schema_version = 1

-- `FlowPilotExecutionError`, with the response body of the AI orchestrator's client where that is
-- the `cause` of a worker failure.
pub record Failure : Type 0 where
  pub code : String
  pub message : String
  pub retryable : Bool
  pub response_body : Option Json

pub record TokenUsage : Type 0 where
  pub input : ℕ
  pub output : ℕ

pub data TraceStatus : Type 0 where
  trace_succeeded trace_failed : TraceStatus

-- `AiTraceCreatedPayload`
pub record TracePayload : Type 0 where
  pub trace_id : String
  pub workflow_id : String
  pub execution_id : String
  pub node_execution_id : String
  pub node_id : String
  pub model : String
  pub provider : String
  pub latency_ms : Number
  pub provider_latency_ms : Option ℕ
  pub finish_reason : Option String
  pub input_tokens : ℕ
  pub output_tokens : ℕ
  pub total_tokens : ℕ
  pub status : TraceStatus
  pub error_code : Option String
  pub provider_status_code : Option Number
  pub retryable : Option Bool

pub data Payload : Type 0 where
  execution_started : String → String → Payload
  execution_completed : String → String → Fields → Number → Payload
  execution_failed : String → String → Failure → Payload
  node_started : String → String → String → String → String → Fields → Payload
  node_completed : String → String → String → String → String → Fields → Number → Payload
  node_failed : String → String → String → String → String → Failure → Payload
  trace_created : TracePayload → Payload
  lead_enriched : String → String → String → String → String → Number → Payload

-- `FlowPilotMessageEnvelope` of an event that a worker publishes, without the actor, which is the
-- system.
pub record Message : Type 0 where
  pub event_name : RoutingKey
  pub event_id : String
  pub schema_version : ℕ
  pub occurred_at : ℕ
  pub workspace_id : String
  pub correlation_id : String
  pub causation_id : String
  pub producer : String
  pub idempotency_key : Option String
  pub payload : Payload

-- `WorkflowExecutionRequestedMessage`, read out of the JSON object `body`.
pub record Command : Type 0 where
  pub body : Fields
  pub event_id : String
  pub occurred_at : String
  pub workspace_id : String
  pub correlation_id : String
  pub workflow_id : String
  pub execution_id : String
  pub input : Fields

-- `end.getTime() - start.getTime()`
unfoldable pub elapsed : ℕ → ℕ → Number
elapsed start stop = if leb start stop then whole (stop - start) else negative (start - stop - 1)
