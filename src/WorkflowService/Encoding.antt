-- ===== src/WorkflowService/Encoding.antt =====
-- What `JSON.stringify` makes of the lifecycle messages of apps/execution-worker/src/index.ts, before
-- it is text. The cause of a failure is left out. `iso` is `toISOString()`.
use vigil_summit_agent.Prelude.{ℕ, String, get_or_else}
use vigil_summit_agent.Json.{whole, Json, bool, num, str, obj, Fields, end, field}
use vigil_summit_agent.Contracts.Message.{
  routing_key_text, Failure, Payload, execution_started, execution_completed, execution_failed,
  node_started, node_completed, node_failed, trace_created, lead_enriched, Message,
}

module _ (iso : ℕ → String) where
  abbrev error_json : Failure → Json
  error_json f = obj (
      field "code" (str f.code)
        (field "message" (str f.message) (field "retryable" (bool f.retryable) end)))

  abbrev execution_fields : String → String → Fields → Fields
  execution_fields workflow_id execution_id more =
      field "workflowId" (str workflow_id) (field "executionId" (str execution_id) more)

  abbrev node_fields : String → String → String → String → String → Fields → Fields
  node_fields workflow_id execution_id node_execution_id node_id node_type more =
      execution_fields workflow_id execution_id (
        field "nodeExecutionId" (str node_execution_id)
          (field "nodeId" (str node_id) (field "nodeType" (str node_type) more)))

  -- The payload. The two that are no lifecycle events, which this service does not read, are left out.
  unfoldable pub payload_json : Payload → Fields
  payload_json (execution_started workflow_id execution_id) =
      execution_fields workflow_id execution_id end
  payload_json (execution_completed workflow_id execution_id output duration) =
      execution_fields workflow_id execution_id
        (field "output" (obj output) (field "durationMs" (num duration) end))
  payload_json (execution_failed workflow_id execution_id failure) =
      execution_fields workflow_id execution_id (field "error" (error_json failure) end)
  payload_json (node_started workflow_id execution_id run node type input) =
      node_fields workflow_id execution_id run node type (field "input" (obj input) end)
  payload_json (node_completed workflow_id execution_id run node type output duration) =
      node_fields workflow_id execution_id run node type
        (field "output" (obj output) (field "durationMs" (num duration) end))
  payload_json (node_failed workflow_id execution_id run node type failure) =
      node_fields workflow_id execution_id run node type (field "error" (error_json failure) end)
  payload_json (trace_created trace) = end
  payload_json (lead_enriched event_id lead_id registration_id snapshot_id provider confidence) =
      end

  unfoldable pub message_json : Message → Fields
  message_json m = field "eventName" (str (routing_key_text m.event_name)) (
      field "eventId" (str m.event_id) (
        field "schemaVersion" (num (whole m.schema_version)) (
          field "occurredAt" (str (iso m.occurred_at)) (
            field "workspaceId" (str m.workspace_id) (
              field "correlationId" (str m.correlation_id) (
                field "causationId" (str m.causation_id) (
                  field "producer" (str m.producer) (
                    field "actor"
                      (obj (field "type" (str "system") (field "id" (str m.producer) end)))
                      (field "idempotencyKey" (str (get_or_else m.idempotency_key ""))
                        (field "payload" (obj (payload_json m.payload)) end))))))))))
