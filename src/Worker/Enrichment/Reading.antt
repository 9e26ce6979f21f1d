-- ===== src/Worker/Enrichment/Reading.antt =====
-- `parseLeadEnrichmentRequestedMessage` and `getRetryAttempt` of
-- apps/execution-worker/src/enrichment/lead-enrichment-consumer.ts.
use vigil_summit_agent.Prelude.{ℕ, Option, none, some, get_or_else}
use vigil_summit_agent.Json.{whole, Json, null, num, Fields, get, is_text, as_record}
use vigil_summit_agent.Contracts.Message.{lead_enrichment_requested, routing_key_text}
use vigil_summit_agent.Worker.State.{Env}
use vigil_summit_agent.Worker.Command.{Delivery, ◌>>=◌, ◌>>◌, guard, text, is_version, header}
use vigil_summit_agent.Worker.Enrichment.{EnrichmentCommand}

unfoldable pub read_enrichment : Fields → Option EnrichmentCommand
read_enrichment fs = do
  guard (is_text (get fs "eventName") (routing_key_text lead_enrichment_requested))
  message_id ← text (get fs "eventId")
  guard (is_version (get fs "schemaVersion"))
  occurred_at ← text (get fs "occurredAt")
  workspace_id ← text (get fs "workspaceId")
  correlation_id ← text (get fs "correlationId")
  producer ← text (get fs "producer")
  payload ← as_record (get fs "payload")
  event_id ← text (get payload "eventId")
  lead_id ← text (get payload "leadId")
  registration_id ← text (get payload "registrationId")
  some (record {
    body = fs;
    message_id = message_id;
    workspace_id = workspace_id;
    correlation_id = correlation_id;
    event_id = event_id;
    lead_id = lead_id;
    registration_id = registration_id;
  })

-- `parseLeadEnrichmentRequestedMessage`
unfoldable pub parse_enrichment : Env → Delivery → Option EnrichmentCommand
parse_enrichment env delivery = do
  fs ← as_record (env.parse_json delivery.content)
  read_enrichment fs

-- `parseInt` of the value's text, unless it is a number; `null` counts as absent.
abbrev attempt_of : Env → Option Json → ℕ
attempt_of env none = 0
attempt_of env (some null) = 0
attempt_of env (some (num (whole n))) = n
attempt_of env (some (num _)) = 0
attempt_of env (some v) = get_or_else (env.parse_int (env.text_of (some v))) 0

-- `getRetryAttempt`
unfoldable pub enrichment_attempt : Env → Delivery → ℕ
enrichment_attempt env delivery = attempt_of env (header delivery.headers)
