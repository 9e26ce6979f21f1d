-- ===== src/Api/Engagement/Status.antt =====
-- What an operator does to a registration, and the withdrawal of a consent, in
-- apps/api/src/modules/engagement/engagement.service.ts. What is read before a transaction is an argument of
-- its own.
use vigil_summit_agent.Prelude.{
  ℕ, String, Bool, true, false, not, Option, none, some, List, [], ◌∷◌, ◌++◌, ◌&&◌, ◌=ₛ◌,
  if◌then◌else◌, find, any, filter, map, is_some, get_or_else, length,
}
use vigil_summit_agent.Json.{str, obj, end, field}
use vigil_summit_agent.Engagement.Policy.{
  Purpose, commercial_follow_up, RegistrationStatus, declined, attended, no_show,
}
use vigil_summit_agent.Engagement.Cadence.{CadenceStep, build_post_event_schedule}
use vigil_summit_agent.Engagement.Tables.{
  Lead, Event, Registration, Consent, post_event, enrollment_active, Enrollment, ActionStatus,
  action_pending, action_cancelled, Action, Tables,
}
use vigil_summit_agent.Engagement.Enroll.{cadence_key, purpose_text, same_purpose, upsert_action}
use vigil_summit_agent.Api.Engagement.{
  can_move, enrollment_of, update_enrollment, stop_cadence, add_suppression, withdraw, set_status,
}

abbrev cancel_pending : String → ℕ → List Action → List Action
cancel_pending enrollment_id now actions =
    map
      (λ (a : Action).
        if a.enrollment_id =ₛ enrollment_id && is_pending a.status
        then record a {
          status = action_cancelled;
          completed_at = some now;
          last_error = some "post_event_transition";
        }
        else a)
      actions
  where
    is_pending : ActionStatus → Bool
    is_pending action_pending = true
    is_pending _ = false

unfoldable pub post_action : Registration → String → (String → String) → CadenceStep → Action
post_action r enrollment_id new_id s = record {
  id = new_id s.key;
  workspace_id = r.workspace_id;
  enrollment_id = enrollment_id;
  type = s.type;
  status = action_pending;
  due_at = s.due_at;
  payload = obj (
      field "registrationId" (str r.id)
        (field "action" (str s.key) (field "purpose" (str (purpose_text s.purpose)) end)));
  idempotency_key = cadence_key r.id s.key;
  attempts = 0;
  lease_until = none;
  last_error = none;
  completed_at = none;
}

abbrev pub store_steps :
    Registration → String → (String → String) → List CadenceStep → List Action → List Action
store_steps r enrollment_id new_id [] actions = actions
store_steps r enrollment_id new_id (s ∷ ss) actions =
    store_steps r enrollment_id new_id ss
      (upsert_action (post_action r enrollment_id new_id s) actions)

abbrev first_due : List CadenceStep → Option ℕ
first_due [] = none
first_due (s ∷ _) = some s.due_at

abbrev pub post_enrollment :
    Registration
    → (String → String)
    → Option Enrollment
    → List Enrollment
    → Enrollment × List Enrollment
post_enrollment r new_id (some e) es = (
  e,
  update_enrollment e.id (λ x. record x { phase = post_event; status = enrollment_active }) es,
)
post_enrollment r new_id none es =
    let e : Enrollment = record {
      id = new_id "enrollment";
      workspace_id = r.workspace_id;
      event_id = r.event_id;
      lead_id = r.lead_id;
      registration_id = r.id;
      phase = post_event;
      status = enrollment_active;
      current_step = 0;
      next_action_at = none;
    } in
    (e, es ++ e ∷ [])

-- `schedulePostEvent`
unfoldable pub schedule_post_event :
    Registration → RegistrationStatus → ℕ → (String → String) → ℕ → Tables → Tables
schedule_post_event r status anchor new_id now t =
    let e = post_enrollment r new_id (enrollment_of r.id t.enrollments) t.enrollments in
    let steps = build_post_event_schedule status anchor in
    record t {
      enrollments =
          update_enrollment e.0.id (λ x. record x { next_action_at = first_due steps }) e.1;
      actions = store_steps r e.0.id new_id steps (cancel_pending e.0.id now t.actions);
    }

abbrev pub after_status :
    RegistrationStatus → Registration → ℕ → (String → String) → ℕ → Tables → Tables
after_status declined r anchor new_id now t = stop_cadence r.id now "registration_declined" t
after_status attended r anchor new_id now t = schedule_post_event r attended anchor new_id now t
after_status no_show r anchor new_id now t = schedule_post_event r no_show anchor new_id now t
after_status _ r anchor new_id now t = t

abbrev pub anchor_of : Registration → ℕ → List Event → ℕ
anchor_of r now events = ends (find (λ (e : Event). e.id =ₛ r.event_id) events)
  where
    ends : Option Event → ℕ
    ends none = now
    ends (some e) = get_or_else e.ends_at now

-- What `updateRegistrationStatus` returns, or the exception that it throws.
pub data Updated : Type 0 where
  updated : RegistrationStatus → Updated
  registration_not_found invalid_transition : Updated

abbrev pub update_found :
    Tables
    → Option Registration
    → RegistrationStatus
    → (String → String)
    → ℕ
    → Tables
    → Updated × Tables
update_found before none status new_id now t = (registration_not_found, t)
update_found before (some r) status new_id now t =
    if can_move r.status status
    then (
      updated status,
      after_status status r (anchor_of r now before.events) new_id now (set_status r.id status t),
    )
    else (invalid_transition, t)

abbrev pub is_registration : String → String → Registration → Bool
is_registration workspace_id id r = r.id =ₛ id && r.workspace_id =ₛ workspace_id

-- `updateRegistrationStatus`: the registration and its event are read before the transaction.
unfoldable pub update_registration_status :
    String
    → String
    → RegistrationStatus
    → (String → String)
    → ℕ
    → Tables
    → Tables
    → Updated × Tables
update_registration_status workspace_id id status new_id now before t =
    update_found before (find (is_registration workspace_id id) before.registrations) status new_id
      now t

abbrev stop_all : List Registration → ℕ → Tables → Tables
stop_all [] now t = t
stop_all (r ∷ rs) now t = stop_all rs now (stop_cadence r.id now "consent_withdrawn" t)

-- What `withdrawConsent` returns, or the exception that it throws.
pub data Withdrawn : Type 0 where
  withdrawn : ℕ → Withdrawn
  lead_not_found : Withdrawn

abbrev pub is_granted : String → String → Purpose → Consent → Bool
is_granted workspace_id lead_id purpose c =
    c.workspace_id =ₛ workspace_id && c.lead_id =ₛ lead_id && same_purpose c.purpose purpose

-- `withdrawConsent`: the lead and its registrations are read before the transaction.
unfoldable pub withdraw_consent :
    String → String → Option Purpose → ℕ → Tables → Tables → Withdrawn × Tables
withdraw_consent workspace_id lead_id dto_purpose now before t =
    let purpose = get_or_else dto_purpose commercial_follow_up in
    let granted =
      λ (c : Consent). is_granted workspace_id lead_id purpose c && not (is_some c.withdrawn_at) in
    if any (λ (l : Lead). l.id =ₛ lead_id && l.workspace_id =ₛ workspace_id) before.leads
    then (
      withdrawn (length (filter granted t.consents)),
      stop_all (filter (λ (r : Registration). r.lead_id =ₛ lead_id) before.registrations) now
          (record t {
            consents = withdraw (is_granted workspace_id lead_id purpose) now t.consents;
            suppressions = add_suppression workspace_id lead_id purpose t.suppressions;
          }),
    )
    else (lead_not_found, t)
