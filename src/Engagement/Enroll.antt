-- ===== src/Engagement/Enroll.antt =====
-- What the transaction of `processLeadEnrichment` does to the tables, in the worker's
-- apps/execution-worker/src/enrichment/process-lead-enrichment.ts: the qualification, the enrollment
-- with its scheduled actions, and the interest signals. Each `create` gets the id that is made for it.
pub mod Actions
use vigil_summit_agent.Prelude.{
  ℕ, zero, suc, ◌-◌, ◌*◌, String, Bool, true, false, not, Option, none, some, List, [], ◌∷◌, ◌++◌,
  ◌&&◌, ◌||◌, ◌==◌, ◌=ₛ◌, ◌<>◌, if◌then◌else◌, find, any, ltb, is_some, map,
}
use vigil_summit_agent.Json.{Number, whole, Json, str, obj, Fields, end, field, as_record}
use vigil_summit_agent.Engagement.Policy.{Purpose, event_communication, commercial_follow_up}
use vigil_summit_agent.Engagement.Cadence.{
  ActionType, agent_decision, request_confirmation, follow_up, day_ms,
}
use vigil_summit_agent.Engagement.Qualification.{
  QualificationInput, QualificationStatus, disqualified, TextOps, qualify_lead,
}
use vigil_summit_agent.Engagement.Tables.{
  observed, conversation_open, Registration, Event, EnrichmentResult, LeadQualification, Consent,
  Conversation, pre_event, enrollment_active, Enrollment, Action, action_pending, SignalSource,
  declared, enriched, Signal, Tables,
}

-- A step of the worker's `buildPreEventSchedule`
pub record Step : Type 0 where
  pub key : String
  pub due_at : ℕ
  pub type : ActionType

abbrev pub step : String → ℕ → ActionType → Step
step key due_at type = record { key = key; due_at = due_at; type = type }

unfoldable pub candidates : ℕ → ℕ → List Step
candidates starts_at now =
    step "welcome" now agent_decision
    ∷ step "d14" (starts_at - 14 * day_ms) request_confirmation
    ∷ step "d7" (starts_at - 7 * day_ms) request_confirmation
    ∷ step "d3" (starts_at - 3 * day_ms) follow_up
    ∷ step "d1" (starts_at - day_ms) follow_up
    ∷ []

-- `xs.filter((x, index) => p(x, index))`, from an index on
abbrev filter_indexed : {A : Type 0} → (A → ℕ → Bool) → ℕ → List A → List A
filter_indexed p i [] = []
filter_indexed p i (x ∷ xs) =
    if p x i then x ∷ filter_indexed p (suc i) xs else filter_indexed p (suc i) xs

-- `buildPreEventSchedule` of the worker
unfoldable pub build_schedule : ℕ → ℕ → List Step
build_schedule starts_at now =
    filter_indexed (λ s index. index == 0 || ltb now s.due_at) 0 (candidates starts_at now)

-- `cadence:${registrationId}:${step.key}`
abbrev pub cadence_key : String → String → String
cadence_key registration_id key = "cadence:" <> registration_id <> ":" <> key

abbrev pub has_action_key : String → Action → Bool
has_action_key key a = a.idempotency_key =ₛ key

abbrev pub purpose_text : Purpose → String
purpose_text event_communication = "EVENT_COMMUNICATION"
purpose_text commercial_follow_up = "COMMERCIAL_FOLLOW_UP"

abbrev pub action_payload : Registration → String → Step → Json
action_payload r qualification_id s = obj (
    field "action" (str s.key) (
      field "purpose" (str (purpose_text event_communication)) (
        field "eventId" (str r.event_id) (
          field "leadId" (str r.lead_id) (
            field "registrationId" (str r.id)
              (field "qualificationId" (str qualification_id) end))))))

unfoldable pub new_action : Registration → String → String → String → Step → Action
new_action r enrollment_id qualification_id id s = record {
  id = id;
  workspace_id = r.workspace_id;
  enrollment_id = enrollment_id;
  type = s.type;
  status = action_pending;
  due_at = s.due_at;
  payload = action_payload r qualification_id s;
  idempotency_key = cadence_key r.id s.key;
  attempts = 0;
  lease_until = none;
  last_error = none;
  completed_at = none;
}

-- `scheduledAction.upsert` with nothing to update
abbrev pub upsert_action : Action → List Action → List Action
upsert_action a actions =
    if any (has_action_key a.idempotency_key) actions then actions else actions ++ a ∷ []

-- The loop over the schedule. The id of a new action is made from its step's key.
unfoldable pub schedule_actions :
    Registration → String → String → (String → String) → List Step → List Action → List Action
schedule_actions r enrollment_id qualification_id new_id [] actions = actions
schedule_actions r enrollment_id qualification_id new_id (s ∷ ss) actions =
    schedule_actions r enrollment_id qualification_id new_id ss
      (upsert_action (new_action r enrollment_id qualification_id (new_id s.key) s) actions)

abbrev pub same_purpose : Purpose → Purpose → Bool
same_purpose event_communication event_communication = true
same_purpose commercial_follow_up commercial_follow_up = true
same_purpose event_communication commercial_follow_up = false
same_purpose commercial_follow_up event_communication = false

-- Is there a consent that is not withdrawn?
abbrev pub has_consent : String → String → Purpose → List Consent → Bool
has_consent event_id lead_id purpose consents =
    any
      (λ (c : Consent).
        c.event_id =ₛ event_id
        && c.lead_id =ₛ lead_id
        && same_purpose c.purpose purpose
        && not (is_some c.withdrawn_at))
      consents

abbrev pub is_disqualified : QualificationStatus → Bool
is_disqualified disqualified = true
is_disqualified _ = false

-- What `qualifyLead` is given.
unfoldable pub qualification_input : EnrichmentResult → Event → QualificationInput
qualification_input result event = record {
  job_title = result.job_title;
  seniority = result.seniority;
  role_category = result.role_category;
  company_industry = result.company_industry;
  company_employee_range = result.company_employee_range;
  security_signals = result.security_signals;
  audience_profile = as_record (some event.audience_profile);
}

-- `leadQualification.upsert` by the registration: the id of the row, and the table.
unfoldable pub upsert_qualification :
    LeadQualification → List LeadQualification → String × List LeadQualification
upsert_qualification new [] = (new.id, new ∷ [])
upsert_qualification new (q ∷ qs) =
    let r = upsert_qualification new qs in
    if q.registration_id =ₛ new.registration_id
    then (q.id, record q { snapshot_id = new.snapshot_id; result = new.result } ∷ qs)
    else (r.0, q ∷ r.1)

-- `conversation.upsert` by the registration, with nothing to update
unfoldable pub upsert_conversation : Conversation → List Conversation → List Conversation
upsert_conversation new cs =
    if any (λ c. c.registration_id =ₛ new.registration_id) cs then cs else cs ++ new ∷ []

-- `cadenceEnrollment.upsert` by the registration, which sets the time of the next action
unfoldable pub upsert_enrollment : Enrollment → List Enrollment → String × List Enrollment
upsert_enrollment new [] = (new.id, new ∷ [])
upsert_enrollment new (e ∷ es) =
    let r = upsert_enrollment new es in
    if e.registration_id =ₛ new.registration_id
    then (e.id, record e { next_action_at = new.next_action_at } ∷ es)
    else (r.0, e ∷ r.1)

abbrev same_source : SignalSource → SignalSource → Bool
same_source declared declared = true
same_source enriched enriched = true
same_source observed observed = true
same_source _ _ = false

-- The unique columns of the table
abbrev pub same_signal : Signal → Signal → Bool
same_signal s t =
    t.registration_id =ₛ s.registration_id
    && same_source t.source s.source
    && t.kind =ₛ s.kind
    && t.value =ₛ s.value

-- `interestSignal.createMany` with `skipDuplicates`, by the unique columns of the table
unfoldable pub add_signals : List Signal → List Signal → List Signal
add_signals [] table = table
add_signals (s ∷ ss) table =
    add_signals ss (if any (same_signal s) table then table else table ++ s ∷ [])

abbrev signal :
    Registration
    → String
    → (String → String)
    → SignalSource
    → String
    → Number
    → Fields
    → String
    → Signal
signal r snapshot_id new_id source kind confidence evidence value = record {
  id = new_id (kind <> ":" <> value);
  workspace_id = r.workspace_id;
  event_id = r.event_id;
  lead_id = r.lead_id;
  registration_id = r.id;
  snapshot_id = some snapshot_id;
  source = source;
  kind = kind;
  value = value;
  confidence = confidence;
  evidence = evidence;
}

unfoldable pub signals_of :
    Registration → String → (String → String) → EnrichmentResult → List Signal
signals_of r snapshot_id new_id result =
    map
      (signal r snapshot_id new_id declared "TOPIC" (whole 1)
        (field "source" (str "public_registration_form") end))
      r.interest_topics
    ++ map
        (signal r snapshot_id new_id enriched "SECURITY_INTEREST" result.confidence
          (field "provider" (str result.provider) end))
        result.security_signals

-- The `if` of the transaction: the conversation, the enrollment and its actions.
unfoldable pub enroll :
    Registration → Event → String → (String → String) → ℕ → QualificationStatus → Tables → Tables
enroll r event qualification_id new_id completed_at status t =
    let enrollment =
      upsert_enrollment
        (record {
          id = new_id "enrollment";
          workspace_id = r.workspace_id;
          event_id = r.event_id;
          lead_id = r.lead_id;
          registration_id = r.id;
          phase = pre_event;
          status = enrollment_active;
          current_step = 0;
          next_action_at = some completed_at;
        })
        t.enrollments in
    let conversation : Conversation = record {
      id = new_id "conversation";
      workspace_id = r.workspace_id;
      event_id = r.event_id;
      lead_id = r.lead_id;
      registration_id = r.id;
      status = conversation_open;
    } in
    if has_consent r.event_id r.lead_id event_communication t.consents
      && not (is_disqualified status)
    then record t {
      conversations = upsert_conversation conversation t.conversations;
      enrollments = enrollment.1;
      actions =
          schedule_actions r enrollment.0 qualification_id new_id
            (build_schedule event.starts_at completed_at) t.actions;
    }
    else t

-- All of the transaction after the snapshot's row, and before the outbox.
unfoldable pub qualify_and_enroll :
    TextOps
    → Registration
    → Event
    → String
    → (String → String)
    → ℕ
    → EnrichmentResult
    → Tables
    → Tables
qualify_and_enroll ops r event snapshot_id new_id completed_at result t =
    let qualification = qualify_lead ops (qualification_input result event) in
    let q =
      upsert_qualification
        (record {
          id = new_id "qualification";
          workspace_id = r.workspace_id;
          event_id = r.event_id;
          lead_id = r.lead_id;
          registration_id = r.id;
          snapshot_id = snapshot_id;
          result = qualification;
        })
        t.qualifications in
    let enrolled =
      enroll r event q.0 new_id completed_at qualification.status
        (record t { qualifications = q.1 }) in
    record enrolled {
      signals = add_signals (signals_of r snapshot_id new_id result) enrolled.signals;
    }
