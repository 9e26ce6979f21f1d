-- ===== src/Worker/DispatcherTests.antt =====
-- The theorems about the scheduled action dispatcher at concrete inputs.
use vigil_summit_agent.Prelude.{◌≤◌, true, none, some, [], ◌∷◌, ◌≡◌, refl, arith}
use vigil_summit_agent.Json.{null, obj, end}
use vigil_summit_agent.Engagement.Policy.{event_communication, registered}
use vigil_summit_agent.Engagement.Cadence.{send_message}
use vigil_summit_agent.Engagement.Tables.{event_published, action_pending, Action, scheduled}
use vigil_summit_agent.Worker.State.{Db, World}
use vigil_summit_agent.Worker.Effects.{final}
use vigil_summit_agent.Worker.Dispatcher.{claim, backoff}
use vigil_summit_agent.Worker.Dispatcher.Send.{MessageContext, with_found}
use vigil_summit_agent.Worker.Dispatcher.Claims.{claims, claim-exclusive, backoff-bounds}
use vigil_summit_agent.Worker.Dispatcher.Consent.{no_consent, with_found-sends-nothing}
use vigil_summit_agent.Worker.Fixtures.{no_tables, quiet_env, first_db, first_world}

-- An action without the id of its message, whose processing fails.
abbrev action : Action
action = record {
  id = "action-1";
  workspace_id = "space-1";
  enrollment_id = "enrollment-1";
  type = send_message;
  status = action_pending;
  due_at = 10;
  payload = obj end;
  idempotency_key = "send-message:message-1";
  attempts = 0;
  lease_until = none;
  last_error = none;
  completed_at = none;
}

abbrev action_db : Db
action_db = record first_db { engagement = record no_tables { actions = action ∷ [] } }

abbrev action_world : World
action_world = record first_world { db = action_db }

claimed : (claim "action-1" 20 action_db).0 ≡ 1
unfolding claim
claimed = refl

claim-exclusive_example :
    (claim "action-1" 60019
      (claims (("action-1", 50) ∷ ("action-2", 60) ∷ []) (claim "action-1" 20 action_db).1)).0
    ≡ 0
claim-exclusive_example =
    claim-exclusive "action-1" 20 60019 (("action-1", 50) ∷ ("action-2", 60) ∷ []) action_db
      (refl, tt) (λ h. omega (arith, h, claimed)) (omega arith, (omega arith, tt)) (omega arith)

backoff-bounds_example : (10000 ≤ backoff 3) × (backoff 3 ≤ 300000) × (backoff 3 ≤ backoff 4)
backoff-bounds_example = backoff-bounds 3

abbrev message : MessageContext
message = record {
  message = record {
    id = "message-1";
    workspace_id = "space-1";
    event_id = "summit-1";
    lead_id = "lead-1";
    conversation_id = "conversation-1";
    is_outbound = true;
    purpose = event_communication;
    status = scheduled;
    subject = some "Summit";
    body = "Ola";
    provider_message_id = none;
    sent_at = none;
    delivered_at = none;
    failure_code = none;
  };
  lead = record {
    id = "lead-1";
    workspace_id = "space-1";
    normalized_work_email = "ana@example.test";
    full_name = "Ana Souza";
    work_email = "ana@example.test";
    job_title = none;
    company_name = "Example";
    company_domain = none;
    suppressed_at = none;
  };
  event = record {
    id = "summit-1";
    workspace_id = "space-1";
    status = event_published;
    capacity = 120;
    ends_at = none;
    name = "Summit";
    timezone = "America/Sao_Paulo";
    starts_at = 2000000000;
    audience_profile = null;
  };
  status = registered;
}

with_found-sends-nothing_example :
    (final (with_found "action-1" 20 (some message) quiet_env action_world)).emails ≡ []
with_found-sends-nothing_example =
    with_found-sends-nothing no_consent "action-1" 20 message quiet_env action_world
      (record { at = λ n d s b. b }) refl
