-- ===== src/Worker/Enrichment/Consumer.antt =====
-- `handleLeadEnrichmentDelivery` of apps/execution-worker/src/enrichment/lead-enrichment-consumer.ts.
-- The content type, the delivery mode and the timestamp of a publication are left out.
use vigil_summit_agent.Prelude.{
  ℕ, ◌+◌, ◌-◌, String, Bool, Option, none, some, List, [], ◌∷◌, ◌&&◌, ltb, if◌then◌else◌,
  get_or_else, get_elem?, true,
}
use vigil_summit_agent.Json.{whole, num, str, end, field, set}
use vigil_summit_agent.Contracts.Message.{
  exchange_retry, exchange_dlx, lead_enrichment_requested, routing_key_text, message_schema_version,
  max_retry_attempts,
}
use vigil_summit_agent.Worker.State.{
  Error, enrichment_error, worker_error, client_error, other_error, Publication, command, raw,
  acked, requeued,
}
use vigil_summit_agent.Worker.Effects.{M, throw, ◌>>=◌, ◌>>◌, try_catch, publish, settle, ask}
use vigil_summit_agent.Worker.Command.{Delivery}
use vigil_summit_agent.Worker.Enrichment.{EnrichmentCommand, process_lead_enrichment}
use vigil_summit_agent.Worker.Enrichment.Reading.{parse_enrichment, enrichment_attempt}

pub record EnrichmentQueue : Type 0 where
  pub queue : String
  pub routing_key : String
  pub ttl_ms : ℕ

-- `retryQueueConfig`
abbrev pub enrichment_queues : List EnrichmentQueue
enrichment_queues =
    record {
      queue = "flowpilot.retry.engagement-worker.lead-enrichment.10s";
      routing_key = "lead.enrichment.requested.retry.10s";
      ttl_ms = 10000;
    }
    ∷ record {
      queue = "flowpilot.retry.engagement-worker.lead-enrichment.1m";
      routing_key = "lead.enrichment.requested.retry.1m";
      ttl_ms = 60000;
    }
    ∷ record {
      queue = "flowpilot.retry.engagement-worker.lead-enrichment.5m";
      routing_key = "lead.enrichment.requested.retry.5m";
      ttl_ms = 300000;
    }
    ∷ []

unfoldable pub enrichment_retry : EnrichmentCommand → ℕ → EnrichmentQueue → Publication
enrichment_retry message attempt q = record {
  exchange = exchange_retry;
  routing_key = q.routing_key;
  content = command message.body;
  message_id = some message.message_id;
  type = some (routing_key_text lead_enrichment_requested);
  headers = field "correlationId" (str message.correlation_id) (
      field "schemaVersion" (num (whole message_schema_version)) (
        field "workspaceId" (str message.workspace_id)
          (field "x-flowpilot-retry-attempt" (num (whole attempt)) end)));
}

unfoldable pub publish_to_queue : EnrichmentCommand → ℕ → Option EnrichmentQueue → M Bool
publish_to_queue message attempt none =
    throw (other_error "No lead enrichment retry queue for the attempt")
publish_to_queue message attempt (some q) = publish (enrichment_retry message attempt q)

-- `publishRetry`
unfoldable pub publish_retry : EnrichmentCommand → ℕ → M Bool
publish_retry message attempt =
    publish_to_queue message attempt (get_elem? enrichment_queues (attempt - 1))

-- `publishDeadLetter`
unfoldable pub enrichment_dead_letter : Delivery → String → String → ℕ → Publication
enrichment_dead_letter delivery code reason attempt = record {
  exchange = exchange_dlx;
  routing_key = routing_key_text lead_enrichment_requested;
  content = raw delivery.content;
  message_id = delivery.message_id;
  type = delivery.type;
  headers =
      set
        (set
          (set (get_or_else delivery.headers end) "x-flowpilot-retry-attempt" (num (whole attempt)))
          "x-flowpilot-dead-letter-code" (str code))
        "x-flowpilot-dead-letter-reason" (str reason);
}

-- The fields of a `LeadEnrichmentError`
pub record EnrichmentFailure : Type 0 where
  pub code : String
  pub message : String
  pub retryable : Bool

abbrev worker_failed : String → EnrichmentFailure
worker_failed message = record {
  code = "lead_enrichment_worker_failed";
  message = message;
  retryable = true;
}

-- `normalizeFailure` of lead-enrichment-consumer.ts
unfoldable pub enrichment_failure : Error → EnrichmentFailure
enrichment_failure (enrichment_error code message retryable) = record {
  code = code;
  message = message;
  retryable = retryable;
}
enrichment_failure (worker_error _ message _) = worker_failed message
enrichment_failure (client_error _ message _ _) = worker_failed message
enrichment_failure (other_error message) = worker_failed message

-- The `try` in the `catch`
unfoldable pub route_failure : Delivery → EnrichmentCommand → EnrichmentFailure → ℕ → M (Unit {0})
route_failure delivery message failure attempt =
    if failure.retryable && ltb attempt max_retry_attempts
    then publish_retry message (attempt + 1) >> settle acked
    else publish (enrichment_dead_letter delivery failure.code failure.message attempt)
      >> settle acked

unfoldable pub catch_failure : Delivery → EnrichmentCommand → Error → M (Unit {0})
catch_failure delivery message error = do
  attempt ← ask (λ env. enrichment_attempt env delivery)
  try_catch (route_failure delivery message (enrichment_failure error) attempt)
      (λ _. settle requeued)

unfoldable pub handle_enrichment_parsed : Delivery → Option EnrichmentCommand → M (Unit {0})
handle_enrichment_parsed delivery none = do
  attempt ← ask (λ env. enrichment_attempt env delivery)
  publish (enrichment_dead_letter delivery "invalid_payload" "invalid_payload" attempt)
  settle acked
handle_enrichment_parsed delivery (some message) =
    try_catch (process_lead_enrichment message >> settle acked) (catch_failure delivery message)

-- `handleLeadEnrichmentDelivery`
unfoldable pub handle_lead_enrichment_delivery : Delivery → M (Unit {0})
handle_lead_enrichment_delivery delivery = do
  message ← ask (λ env. parse_enrichment env delivery)
  handle_enrichment_parsed delivery message
