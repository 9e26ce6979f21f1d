-- ===== src/Api/Events/Register.antt =====
-- The public registration for an event, in apps/api/src/modules/events/events.service.ts. Ids, times, and
-- what the code asks of JavaScript's texts are arguments. The terms of a consent that no rule reads (the
-- legal basis, the notice and the source) are left out.
use vigil_summit_agent.Prelude.{
  ℕ, zero, suc, String, Bool, true, false, Option, none, some, List, [], ◌∷◌, ◌++◌, ◌&&◌, ◌==◌,
  ◌=ₛ◌, ◌<>◌, leb, if◌then◌else◌, find, filter, map, get_or_else, length,
}
use vigil_summit_agent.Json.{whole, num, str, obj, Fields, end, field}
use vigil_summit_agent.Contracts.Message.{
  exchange_commands, lead_enrichment_requested, routing_key_text, message_schema_version,
  producer_api,
}
use vigil_summit_agent.Engagement.Policy.{
  Purpose, event_communication, commercial_follow_up, RegistrationStatus, registered, waitlisted,
  confirmed, attended,
}
use vigil_summit_agent.Engagement.Tables.{Lead, Event, Registration, Consent, Tables}
use vigil_summit_agent.Api.Events.{find_public_event}

-- What the service creates of an outbox message
pub record OutboxRow : Type 0 where
  pub exchange : String
  pub routing_key : String
  pub event_name : String
  pub message_id : String
  pub idempotency_key : String
  pub payload : Fields
  pub headers : Fields

pub record Store : Type 0 where
  pub tables : Tables
  pub outbox : List OutboxRow

pub record RegisterForEventDto : Type 0 where
  pub full_name : String
  pub work_email : String
  pub job_title : Option String
  pub company_name : String
  pub company_domain : Option String
  pub interest_topics : Option (List String)
  pub commercial_follow_up_consent : Bool

-- The ids of the rows that a transaction creates, its time, and `trim` and `toLowerCase`
pub record Fresh : Type 0 where
  pub lead_id : String
  pub registration_id : String
  pub message_id : String
  pub occurred_at : String
  pub trim : String → String
  pub to_lower_case : String → String

-- What `register` returns, or the exception that it throws.
pub data Registered : Type 0 where
  registered_as : Bool → String → String → RegistrationStatus → Registered
  published_event_not_found : Registered
  not_completed : Registered
  database_error : String → Registered

-- `activeCapacityStatuses`
unfoldable pub takes_seat : RegistrationStatus → Bool
takes_seat registered = true
takes_seat confirmed = true
takes_seat attended = true
takes_seat _ = false

unfoldable pub occupied_seats : String → List Registration → ℕ
occupied_seats event_id rs =
    length (filter (λ (r : Registration). r.event_id =ₛ event_id && takes_seat r.status) rs)

abbrev pub optional : (String → String) → Option String → Option String
optional f none = none
optional f (some s) = some (f s)

abbrev pub is_lead : String → String → Lead → Bool
is_lead workspace_id email l = l.workspace_id =ₛ workspace_id && l.normalized_work_email =ₛ email

unfoldable pub new_lead : Fresh → String → RegisterForEventDto → Lead
new_lead fresh workspace_id dto = record {
  id = fresh.lead_id;
  workspace_id = workspace_id;
  normalized_work_email = fresh.to_lower_case (fresh.trim dto.work_email);
  full_name = fresh.trim dto.full_name;
  work_email = fresh.trim dto.work_email;
  job_title = optional fresh.trim dto.job_title;
  company_name = fresh.trim dto.company_name;
  company_domain = optional (λ s. fresh.to_lower_case (fresh.trim s)) dto.company_domain;
  suppressed_at = none;
}

-- Fields that are `undefined` stay as they are.
abbrev pub or_else : {A : Type 0} → Option A → Option A → Option A
or_else none old = old
or_else (some a) old = some a

unfoldable pub update_lead : Fresh → RegisterForEventDto → Lead → Lead
update_lead fresh dto l = record l {
  full_name = fresh.trim dto.full_name;
  work_email = fresh.trim dto.work_email;
  job_title = or_else (optional fresh.trim dto.job_title) l.job_title;
  company_name = fresh.trim dto.company_name;
  company_domain =
      or_else (optional (λ s. fresh.to_lower_case (fresh.trim s)) dto.company_domain)
        l.company_domain;
}

-- The upsert of the lead, with its id
unfoldable pub upsert_lead :
    Fresh → String → RegisterForEventDto → Option Lead → List Lead → String × List Lead
upsert_lead fresh workspace_id dto none leads =
    (fresh.lead_id, leads ++ new_lead fresh workspace_id dto ∷ [])
upsert_lead fresh workspace_id dto (some l) leads =
    (l.id, map (λ (x : Lead). if x.id =ₛ l.id then update_lead fresh dto x else x) leads)

-- `createEnrichmentMessage`
unfoldable pub create_enrichment_message : Fresh → String → String → String → String → Fields
create_enrichment_message fresh workspace_id event_id lead_id registration_id =
    field "eventName" (str (routing_key_text lead_enrichment_requested)) (
      field "eventId" (str fresh.message_id) (
        field "schemaVersion" (num (whole message_schema_version)) (
          field "occurredAt" (str fresh.occurred_at) (
            field "workspaceId" (str workspace_id) (
              field "correlationId" (str ("registration:" <> registration_id)) (
                field "producer" (str producer_api) (
                  field "actor"
                    (obj
                      (field "type" (str "webhook") (field "id" (str "public-registration") end)))
                    (field "idempotencyKey" (str ("lead.enrichment.requested:" <> registration_id))
                      (field "payload"
                        (obj (
                          field "eventId" (str event_id) (
                            field "leadId" (str lead_id)
                              (field "registrationId" (str registration_id) end))))
                        end)))))))))

unfoldable pub enrichment_row : Fresh → String → String → String → String → OutboxRow
enrichment_row fresh workspace_id event_id lead_id registration_id = record {
  exchange = exchange_commands;
  routing_key = routing_key_text lead_enrichment_requested;
  event_name = routing_key_text lead_enrichment_requested;
  message_id = fresh.message_id;
  idempotency_key = "lead.enrichment.requested:" <> registration_id;
  payload = create_enrichment_message fresh workspace_id event_id lead_id registration_id;
  headers = field "correlationId" (str ("registration:" <> registration_id)) (
      field "producer" (str producer_api) (
        field "schemaVersion" (num (whole message_schema_version))
          (field "workspaceId" (str workspace_id) end)));
}

abbrev pub purposes_of : Bool → List Purpose
purposes_of true = event_communication ∷ commercial_follow_up ∷ []
purposes_of false = event_communication ∷ []

abbrev pub new_consent : Event → String → Purpose → Consent
new_consent e lead_id purpose = record {
  workspace_id = e.workspace_id;
  event_id = e.id;
  lead_id = lead_id;
  purpose = purpose;
  withdrawn_at = none;
}

unfoldable pub admission : Event → List Registration → RegistrationStatus
admission e rs = if leb e.capacity (occupied_seats e.id rs) then waitlisted else registered

abbrev pub new_registration :
    Fresh → Event → String → RegistrationStatus → RegisterForEventDto → Registration
new_registration fresh e lead_id status dto = record {
  id = fresh.registration_id;
  workspace_id = e.workspace_id;
  event_id = e.id;
  lead_id = lead_id;
  status = status;
  interest_topics = map fresh.trim (get_or_else dto.interest_topics []);
}

abbrev pub admit : Fresh → Event → RegisterForEventDto → Option Lead → Store → Registered × Store
admit fresh e dto lead s =
    let status = admission e s.tables.registrations in
    let upserted = upsert_lead fresh e.workspace_id dto lead s.tables.leads in
    (
      registered_as true fresh.registration_id upserted.0 status,
      record {
        tables = record s.tables {
          leads = upserted.1;
          registrations =
              s.tables.registrations ++ new_registration fresh e upserted.0 status dto ∷ [];
          consents =
              s.tables.consents
              ++ map (new_consent e upserted.0) (purposes_of dto.commercial_follow_up_consent);
        };
        outbox =
            s.outbox
            ++ enrichment_row fresh e.workspace_id e.id upserted.0 fresh.registration_id ∷ [];
      },
    )

abbrev pub registration_of_lead : String → Lead → List Registration → Option Registration
registration_of_lead event_id lead rs =
    find (λ (r : Registration). r.event_id =ₛ event_id && r.lead_id =ₛ lead.id) rs

abbrev pub admit_again :
    Fresh → Event → RegisterForEventDto → Lead → Option Registration → Store → Registered × Store
admit_again fresh e dto lead (some r) s = (registered_as false r.id lead.id r.status, s)
admit_again fresh e dto lead none s = admit fresh e dto (some lead) s

abbrev pub admit_lead :
    Fresh → Event → RegisterForEventDto → Option Lead → Store → Registered × Store
admit_lead fresh e dto none s = admit fresh e dto none s
admit_lead fresh e dto (some lead) s =
    admit_again fresh e dto lead (registration_of_lead e.id lead s.tables.registrations) s

abbrev pub register_found : Fresh → Option Event → RegisterForEventDto → Store → Registered × Store
register_found fresh none dto s = (published_event_not_found, s)
register_found fresh (some e) dto s =
    admit_lead fresh e dto
      (find (is_lead e.workspace_id (fresh.to_lower_case (fresh.trim dto.work_email)))
        s.tables.leads)
      s

-- `registerInTransaction`. The event that is found has the id that is asked for.
unfoldable pub register_in_transaction :
    Fresh → String → RegisterForEventDto → Store → Registered × Store
register_in_transaction fresh event_id dto s =
    register_found fresh (find_public_event event_id s.tables.events) dto s

-- How the database ends a serializable transaction: after what others have committed, or with the
-- error P2034, or with another error.
pub data Ending : Type 0 where
  commits : (Store → Store) → Ending
  conflicts : (Store → Store) → Ending
  breaks : String → Ending

abbrev pub conflict_code : String
conflict_code = "P2034"

-- How an attempt ends, when it is the last one or is followed by more.
abbrev pub register_attempt :
    Ending
    → Bool
    → Fresh
    → String
    → RegisterForEventDto
    → Store
    → (Store → Registered × Store)
    → Registered × Store
register_attempt (commits others) last fresh event_id dto s again =
    register_in_transaction fresh event_id dto (others s)
register_attempt (breaks message) last fresh event_id dto s again = (database_error message, s)
register_attempt (conflicts others) true fresh event_id dto s again =
    (database_error conflict_code, others s)
register_attempt (conflicts others) false fresh event_id dto s again = again (others s)

-- The attempts that are left: the error of the last one is thrown.
unfoldable pub register_attempts :
    ℕ → (ℕ → Ending) → (ℕ → Fresh) → String → RegisterForEventDto → Store → Registered × Store
register_attempts zero ending fresh event_id dto s = (not_completed, s)
register_attempts (suc left) ending fresh event_id dto s =
    register_attempt (ending left) (left == 0) (fresh left) event_id dto s
      (λ s'. register_attempts left ending fresh event_id dto s')

-- `register`
unfoldable pub register :
    (ℕ → Ending) → (ℕ → Fresh) → String → RegisterForEventDto → Store → Registered × Store
register ending fresh event_id dto s = register_attempts 3 ending fresh event_id dto s
