-- ===== src/Worker/State.antt =====
-- What the execution worker reads and writes: the rows of its tables in PostgreSQL, what it hands
-- to RabbitMQ and to the email provider, and the outside world that answers. One database call, or one `$transaction`, is one
-- atomic step; before it, other processes may change the database, or the call may fail.
use vigil_summit_agent.Prelude.{ℕ, String, Bool, Option, List}
use vigil_summit_agent.Json.{Number, Json, Fields}
use vigil_summit_agent.Contracts.Message.{Failure, Message, TraceStatus}
use vigil_summit_agent.Contracts.Workflow.{Definition}
use vigil_summit_agent.Engagement.Tables.{Tables, Email, Services}

pub data ExecutionStatus : Type 0 where
  pending running succeeded failed cancelled : ExecutionStatus

-- `WorkflowExecution`, with its version's definition
pub record Execution : Type 0 where
  pub id : String
  pub status : ExecutionStatus
  pub definition : Json
  pub started_at : Option ℕ
  pub completed_at : Option ℕ
  pub output : Option Fields
  pub error : Option Failure

pub data NodeStatus : Type 0 where
  node_running node_succeeded node_failed : NodeStatus

-- `WorkflowNodeExecution`
pub record NodeExecution : Type 0 where
  pub id : String
  pub execution_id : String
  pub node_id : String
  pub node_type : String
  pub status : NodeStatus
  pub input : Fields
  pub output : Option Fields
  pub error : Option Failure
  pub started_at : ℕ
  pub completed_at : Option ℕ

pub data OutboxStatus : Type 0 where
  pending published failed : OutboxStatus

pub data Content : Type 0 where
  lifecycle : Message → Content
  command : Fields → Content
  raw : String → Content

-- `OutboxMessage`; the headers are those of `createOutboxHeaders`
pub record OutboxMessage : Type 0 where
  pub id : String
  pub exchange : String
  pub routing_key : String
  pub event_name : String
  pub message_id : String
  pub idempotency_key : String
  pub payload : Content
  pub headers : Fields
  pub status : OutboxStatus
  pub attempts : ℕ
  pub last_error : Option String
  pub published_at : Option ℕ

-- `WorkflowAiTraceCreateData`, with the row's id
pub record AiTrace : Type 0 where
  pub id : String
  pub workflow_id : String
  pub execution_id : String
  pub node_execution_id : String
  pub node_id : String
  pub credential_id : Option String
  pub provider : String
  pub model : String
  pub status : TraceStatus
  pub latency_ms : Number
  pub provider_latency_ms : Option ℕ
  pub finish_reason : Option String
  pub input_token_count : Option ℕ
  pub output_token_count : Option ℕ
  pub total_token_count : Option ℕ
  pub schema_valid : Option Bool
  pub error_code : Option String
  pub error_message : Option String
  pub provider_status_code : Option Number
  pub retryable : Option Bool

-- The tables. An execution is looked up by its id; the outbox is in the order of `createdAt`.
pub record Db : Type 0 where
  pub executions : String → Option Execution
  pub node_executions : List NodeExecution
  pub outbox : List OutboxMessage
  pub traces : List AiTrace
  pub engagement : Tables

-- What is thrown: a `WorkflowExecutionWorkerError`, an `AiOrchestratorClientError` with its response
-- body, a `LeadEnrichmentError`, or anything else with its message.
pub data Error : Type 0 where
  worker_error : String → String → Bool → Error
  client_error : String → String → Bool → Option Json → Error
  enrichment_error : String → String → Bool → Error
  other_error : String → Error

-- A call of `channel.publish` that did not throw.
pub record Publication : Type 0 where
  pub exchange : String
  pub routing_key : String
  pub content : Content
  pub message_id : Option String
  pub type : Option String
  pub headers : Fields

pub data Settlement : Type 0 where
  acked requeued dropped : Settlement

pub record World : Type 0 where
  pub db : Db
  pub sent : List Publication
  pub emails : List Email
  pub settled : List Settlement
  pub step : ℕ

-- What comes before a database call: a change of the database by other processes, or a failure.
pub data Turn : Type 0 where
  others : (Db → Db) → Turn
  fault : String → Turn

-- What `channel.publish` answers.
pub data Answer : Type 0 where
  accepted backpressure : Answer
  rejected : String → Answer

pub data Reply : Type 0 where
  replied : Fields → Reply
  refused : Error → Reply

-- What `fetch` gives: a response, or the message of what it throws.
pub data HttpReply : Type 0 where
  response : Bool → ℕ → Fields → String → HttpReply
  unreachable : String → HttpReply

pub record PromptRequest : Type 0 where
  pub execution_id : String
  pub node_execution_id : String
  pub node_id : String
  pub correlation_id : String
  pub input : Fields
  pub provider : String
  pub credential_id : Option String
  pub model : String
  pub prompt : String

-- The code outside the repository, and the code of the repository behind a network call, answering
-- at each step: the database, the broker, the clock, `randomUUID`, `JSON.parse`, the shape that the
-- zod schema reads from a stored definition, the AI orchestrator, `fetch`, and `String(x)`,
-- `Number(x) < Number(y)` and `s.includes(t)`, and the services of the engagement part.
pub record Env : Type 0 where
  pub turn : ℕ → Turn
  pub broker : ℕ → Answer
  pub clock : ℕ → ℕ
  pub uuid : ℕ → String
  pub simulate_failures : Bool
  pub parse_json : String → Option Json
  pub parse_int : String → Option ℕ
  pub definition_shape : Json → Option Definition
  pub run_prompt : ℕ → PromptRequest → Reply
  pub http_request : ℕ → String → String → Fields → Option Json → HttpReply
  pub text_of : Option Json → String
  pub number_less : Option Json → Option Json → Bool
  pub text_includes : String → String → Bool
  pub services : Services
