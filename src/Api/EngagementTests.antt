-- ===== src/Api/EngagementTests.antt =====
-- The theorems about registrations, links and events at concrete inputs.
use vigil_summit_agent.Prelude.{◌=ₛ◌, false, String, true, none, some, [], ◌∷◌, ◌≡◌, refl, arith}
use vigil_summit_agent.Json.{null}
use vigil_summit_agent.Engagement.Policy.{event_communication, registered, attended}
use vigil_summit_agent.Engagement.Tables.{
  Lead, event_published, Event, Registration, decline, unsubscribe, PublicAction, ActionToken,
  Tables, scheduled,
}
use vigil_summit_agent.Worker.State.{Db, World}
use vigil_summit_agent.Worker.Effects.{final}
use vigil_summit_agent.Worker.Dispatcher.Send.{MessageContext, with_found}
use vigil_summit_agent.Worker.Fixtures.{no_tables, quiet_env, first_db, first_world}
use vigil_summit_agent.Api.Engagement.{consume_public_action}
use vigil_summit_agent.Api.Engagement.Status.{update_registration_status}
use vigil_summit_agent.Api.Engagement.Transitions.{Moved}
use vigil_summit_agent.Api.Engagement.Life.{registrations-Moved}
use vigil_summit_agent.Api.Engagement.Inbound.{InboundText, RecordInboundMessageDto, record_inbound}
use vigil_summit_agent.Api.Engagement.Unsubscribe.{consume_public_action-silences}
use vigil_summit_agent.Api.Engagement.Again.{consume_public_action-again}
use vigil_summit_agent.Api.Events.Register.{Store, RegisterForEventDto, Fresh}

abbrev lead : Lead
lead = record {
  id = "lead-1";
  workspace_id = "space-1";
  normalized_work_email = "ana@example.test";
  full_name = "Ana Souza";
  work_email = "ana@example.test";
  job_title = none;
  company_name = "Example";
  company_domain = none;
  suppressed_at = none;
}

abbrev summit : Event
summit = record {
  id = "summit-1";
  workspace_id = "space-1";
  status = event_published;
  capacity = 2;
  ends_at = none;
  name = "Summit";
  timezone = "America/Sao_Paulo";
  starts_at = 2000000000;
  audience_profile = null;
}

abbrev registration : Registration
registration = record {
  id = "registration-1";
  workspace_id = "space-1";
  event_id = "summit-1";
  lead_id = "lead-1";
  status = registered;
  interest_topics = [];
}

abbrev token : PublicAction → ActionToken
token action = record {
  registration_id = "registration-1";
  token_hash = "hash-1";
  action = action;
  purpose = event_communication;
  expires_at = 1000;
  consumed_at = none;
}

abbrev tables : PublicAction → Tables
tables action = record no_tables {
  leads = lead ∷ [];
  events = summit ∷ [];
  registrations = registration ∷ [];
  tokens = token action ∷ [];
}

abbrev number : String → String
number key = key

-- A reply that confirms
abbrev inbound_text : InboundText
inbound_text = record {
  is_opt_out = λ body. false;
  has_meeting_intent = λ body. false;
  needs_handoff = λ body. false;
  confirms = λ body. body =ₛ "confirmo";
  declines = λ body. false;
  trim = λ body. body;
  slice = λ n body. body;
}

abbrev reply : RecordInboundMessageDto
reply = record {
  registration_id = "registration-1";
  body = "confirmo";
  provider_message_id = some "provider-1";
}

registrations-Moved_example :
    Moved (registration ∷ []) (consume_public_action "hash-1" 20 (tables decline)).1.registrations
    × Moved
        (registration ∷ [])
        (update_registration_status "space-1" "registration-1" attended number 20
          (tables decline)
          (tables decline)).1.registrations
    × Moved
        (registration ∷ [])
        (record_inbound inbound_text number "space-1" reply 20
          (tables decline)
          (tables decline)).1.registrations
registrations-Moved_example =
    registrations-Moved (tables decline) "hash-1" "space-1" "registration-1" attended inbound_text
      reply number 20 (refl, tt)

consume_public_action-again_example :
    (consume_public_action "hash-1" 30 (consume_public_action "hash-1" 20 (tables decline)).1).1
    ≡ (consume_public_action "hash-1" 20 (tables decline)).1
consume_public_action-again_example =
    consume_public_action-again "hash-1" 20 30 (tables decline) (omega arith)

abbrev message : MessageContext
message = record {
  message = record {
    id = "message-1";
    workspace_id = "space-1";
    event_id = "summit-1";
    lead_id = "lead-1";
    conversation_id = "conversation-1";
    is_outbound = true;
    purpose = event_communication;
    status = scheduled;
    subject = some "Summit";
    body = "Ola";
    provider_message_id = none;
    sent_at = none;
    delivered_at = none;
    failure_code = none;
  };
  lead = lead;
  event = summit;
  status = registered;
}

abbrev left_db : Db
left_db = record first_db {
  engagement = (consume_public_action "hash-1" 20 (tables unsubscribe)).1;
}

abbrev left_world : World
left_world = record first_world { db = left_db }

consume_public_action-silences_example :
    (final (with_found "action-1" 40 (some message) quiet_env left_world)).emails ≡ []
consume_public_action-silences_example =
    consume_public_action-silences "hash-1" 20 (tables unsubscribe) (token unsubscribe) registration
      refl refl refl refl refl "action-1" 40 message quiet_env left_world refl refl refl
      (record { at = λ n d s b. b }) refl

abbrev fresh : Fresh
fresh = record {
  lead_id = "lead-2";
  registration_id = "registration-2";
  message_id = "message-2";
  occurred_at = "2026-01-01T00:00:00.000Z";
  trim = λ s. s;
  to_lower_case = λ s. s;
}

abbrev dto : RegisterForEventDto
dto = record {
  full_name = "Bruno Lima";
  work_email = "bruno@example.test";
  job_title = none;
  company_name = "Example";
  company_domain = none;
  interest_topics = none;
  commercial_follow_up_consent = true;
}

abbrev store : Store
store = record { tables = tables decline; outbox = [] }
