-- ===== src/Worker/EnrichmentTests.antt =====
-- The theorems about lead enrichment at concrete inputs.
use vigil_summit_agent.Prelude.{none, some, [], ◌∷◌, ◌≡◌, refl, ◌=ₛ◌, ◌<>◌, if◌then◌else◌}
use vigil_summit_agent.Json.{whole, num, null, str, obj, Fields, end, field, as_record}
use vigil_summit_agent.Contracts.Message.{routing_key_text}
use vigil_summit_agent.Engagement.Policy.{registered}
use vigil_summit_agent.Engagement.Tables.{
  event_published, EnrichmentResult, Snapshot, enrichment_succeeded,
}
use vigil_summit_agent.Worker.State.{Db, World, Env, acked}
use vigil_summit_agent.Worker.Effects.{ok}
use vigil_summit_agent.Worker.Command.{Delivery}
use vigil_summit_agent.Worker.Enrichment.{
  EnrichmentCommand, Context, find_context, store_result, completed_message,
}
use vigil_summit_agent.Worker.Enrichment.Reading.{read_enrichment, parse_enrichment}
use vigil_summit_agent.Worker.Enrichment.Consumer.{handle_lead_enrichment_delivery}
use vigil_summit_agent.Worker.Triples.{Post}
use vigil_summit_agent.Worker.Enrichment.Settled.{Settled, handle_lead_enrichment_delivery-settles}
use vigil_summit_agent.Worker.Enrichment.Again.{handle_lead_enrichment_delivery-idempotent}
use vigil_summit_agent.Worker.Enrichment.Stored.{Stored, store_result-stores}
use vigil_summit_agent.Worker.Fixtures.{no_tables, quiet_services, quiet_env, first_db, first_world}

abbrev enrichment_body : Fields
enrichment_body = field "eventName" (str "lead.enrichment.requested") (
    field "eventId" (str "event-9") (
      field "schemaVersion" (num (whole 1)) (
        field "occurredAt" (str "2026-01-01T00:00:00.000Z") (
          field "workspaceId" (str "space-1") (
            field "correlationId" (str "registration:reg-1") (
              field "producer" (str "api") (
                field "payload"
                  (obj (
                    field "eventId" (str "summit-1")
                      (field "leadId" (str "lead-1") (field "registrationId" (str "reg-1") end))))
                  end)))))))

abbrev enrichment_env : Env
enrichment_env = record quiet_env {
  parse_json = λ text. if text =ₛ "enrich" then some (obj enrichment_body) else none;
}

abbrev enrichment_delivery : Delivery
enrichment_delivery = record {
  content = "enrich";
  routing_key = "lead.enrichment.requested";
  message_id = some "event-9";
  type = some "lead.enrichment.requested";
  headers = none;
}

abbrev enrichment_command : EnrichmentCommand
enrichment_command = record {
  body = enrichment_body;
  message_id = "event-9";
  workspace_id = "space-1";
  correlation_id = "registration:reg-1";
  event_id = "summit-1";
  lead_id = "lead-1";
  registration_id = "reg-1";
}

command_is_read : parse_enrichment enrichment_env enrichment_delivery ≡ some enrichment_command
unfolding parse_enrichment read_enrichment as_record routing_key_text
command_is_read = refl

abbrev context : Context
context = record {
  registration = record {
    id = "reg-1";
    workspace_id = "space-1";
    event_id = "summit-1";
    lead_id = "lead-1";
    status = registered;
    interest_topics = "zero trust" ∷ [];
  };
  lead = record {
    id = "lead-1";
    workspace_id = "space-1";
    normalized_work_email = "ana@example.test";
    full_name = "Ana Souza";
    work_email = "ana@example.test";
    job_title = some "CISO";
    company_name = "Example";
    company_domain = none;
    suppressed_at = none;
  };
  event = record {
    id = "summit-1";
    workspace_id = "space-1";
    status = event_published;
    capacity = 120;
    ends_at = none;
    name = "Summit";
    timezone = "America/Sao_Paulo";
    starts_at = 2000000000;
    audience_profile = null;
  };
}

abbrev snapshot : Snapshot
snapshot = record {
  id = "snap-1";
  workspace_id = "space-1";
  event_id = "summit-1";
  lead_id = "lead-1";
  registration_id = "reg-1";
  provider = "synthetic";
  provider_version = "1";
  status = enrichment_succeeded;
  result = none;
  error_code = none;
  error_message = none;
  started_at = some 1;
  completed_at = some 2;
}

abbrev enriched_db : Db
enriched_db = record first_db {
  engagement = record no_tables {
    registrations = context.registration ∷ [];
    leads = context.lead ∷ [];
    events = context.event ∷ [];
    snapshots = snapshot ∷ [];
  };
}

abbrev enriched_world : World
enriched_world = record first_world { db = enriched_db }

context_is_found : find_context enrichment_command enriched_db ≡ some context
unfolding find_context
context_is_found = refl

handle_lead_enrichment_delivery-settles_example :
    Post
      (λ u w'. Settled enrichment_env [] enriched_world enrichment_delivery enrichment_command w')
      (λ e w'. w'.settled ≡ [])
      (handle_lead_enrichment_delivery enrichment_delivery enrichment_env enriched_world)
handle_lead_enrichment_delivery-settles_example =
    handle_lead_enrichment_delivery-settles enrichment_delivery enrichment_command enrichment_env
      enriched_world command_is_read

handle_lead_enrichment_delivery-idempotent_example :
    handle_lead_enrichment_delivery enrichment_delivery enrichment_env enriched_world
    ≡ ok tt (record enriched_world { settled = acked ∷ []; step = 3 })
handle_lead_enrichment_delivery-idempotent_example =
    handle_lead_enrichment_delivery-idempotent enrichment_delivery enrichment_command context
      snapshot (λ d. d) (λ d. d) enrichment_env enriched_world command_is_read refl refl
      context_is_found refl refl refl

abbrev result : EnrichmentResult
result = record {
  provider = "synthetic";
  provider_version = "1";
  job_title = some "CISO";
  seniority = some "EXECUTIVE";
  role_category = some "SECURITY";
  company_name = "Example";
  company_domain = none;
  company_industry = none;
  company_employee_range = none;
  professional_profile_url = none;
  security_signals = "zero trust" ∷ [];
  confidence = whole 1;
  evidence = null;
  provider_payload = end;
}

store_result-stores_example :
    Stored "snap-1" result
      ("lead.enrichment.completed:" <> "reg-1")
      enriched_db
      (store_result quiet_services context snapshot
        (λ label. label)
        5
        result
        (completed_message enrichment_command "snap-1" result "event-10" 5)
        enriched_db)
      (some snapshot)
store_result-stores_example =
    store_result-stores quiet_services context snapshot (λ label. label) 5 result enrichment_command
      "event-10" enriched_db
