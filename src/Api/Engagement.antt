-- ===== src/Api/Engagement.antt =====
-- The transitions of registrations, the public actions, and what stops a cadence, in
-- apps/api/src/modules/engagement/engagement.service.ts. One transaction is one function on the tables.
-- The times of the status changes, the reasons of a suppression, and the audit and privacy records are
-- left out.
pub mod Again
pub mod Inbound
pub mod Life
pub mod Status
pub mod Transitions
pub mod Unsubscribe
use vigil_summit_agent.Prelude.{
  ℕ, String, Bool, true, false, not, Option, none, some, List, [], ◌∷◌, ◌++◌, ◌&&◌, ◌=ₛ◌, leb,
  if◌then◌else◌, find, any, map, is_some,
}
use vigil_summit_agent.Engagement.Policy.{
  Purpose, RegistrationStatus, registered, waitlisted, confirmed, declined, attended, no_show,
}
use vigil_summit_agent.Engagement.Tables.{
  Registration, Consent, Suppression, enrollment_cancelled, Enrollment, ActionStatus,
  action_pending, dispatching, dispatched, action_cancelled, Action, PublicAction, confirm, decline,
  unsubscribe, ActionToken, Tables,
}
use vigil_summit_agent.Engagement.Enroll.{same_purpose}

-- `transitions[from].includes(to)`
unfoldable pub can_move : RegistrationStatus → RegistrationStatus → Bool
can_move registered confirmed = true
can_move registered declined = true
can_move waitlisted registered = true
can_move waitlisted declined = true
can_move confirmed attended = true
can_move confirmed no_show = true
can_move confirmed declined = true
can_move _ _ = false

-- A status of an action that `stopCadence` cancels
abbrev pub is_open : ActionStatus → Bool
is_open action_pending = true
is_open dispatching = true
is_open dispatched = true
is_open _ = false

unfoldable pub stop_action : ℕ → String → Action → Action
stop_action now reason a = record a {
  status = action_cancelled;
  completed_at = some now;
  last_error = some reason;
  lease_until = none;
}

unfoldable pub stop_actions : String → ℕ → String → List Action → List Action
stop_actions enrollment_id now reason actions =
    map
      (λ (a : Action).
        if a.enrollment_id =ₛ enrollment_id && is_open a.status
        then stop_action now reason a
        else a)
      actions

abbrev pub enrollment_of : String → List Enrollment → Option Enrollment
enrollment_of registration_id es = find (λ e. e.registration_id =ₛ registration_id) es

abbrev pub update_enrollment :
    String → (Enrollment → Enrollment) → List Enrollment → List Enrollment
update_enrollment id f es = map (λ (e : Enrollment). if e.id =ₛ id then f e else e) es

abbrev pub stop_found : Option Enrollment → ℕ → String → Tables → Tables
stop_found none now reason t = t
stop_found (some e) now reason t = record t {
  actions = stop_actions e.id now reason t.actions;
  enrollments =
      update_enrollment e.id
        (λ x. record x { status = enrollment_cancelled; next_action_at = none }) t.enrollments;
}

-- `stopCadence`
unfoldable pub stop_cadence : String → ℕ → String → Tables → Tables
stop_cadence registration_id now reason t =
    stop_found (enrollment_of registration_id t.enrollments) now reason t

abbrev pub is_for : String → String → Purpose → Suppression → Bool
is_for workspace_id lead_id purpose s =
    s.workspace_id =ₛ workspace_id && s.lead_id =ₛ lead_id && same_purpose s.purpose purpose

-- The upsert by the unique columns of `Suppression`, which sets it active
unfoldable pub add_suppression : String → String → Purpose → List Suppression → List Suppression
add_suppression workspace_id lead_id purpose rows =
    if any (is_for workspace_id lead_id purpose) rows
    then map
        (λ (s : Suppression).
          if is_for workspace_id lead_id purpose s then record s { active = true } else s)
        rows
    else rows
      ++ record { workspace_id = workspace_id; lead_id = lead_id; purpose = purpose; active = true }
        ∷ []

abbrev pub withdraw : (Consent → Bool) → ℕ → List Consent → List Consent
withdraw p now consents =
    map
      (λ (c : Consent).
        if p c && not (is_some c.withdrawn_at) then record c { withdrawn_at = some now } else c)
      consents

abbrev pub is_consent : String → String → Purpose → Consent → Bool
is_consent event_id lead_id purpose c =
    c.event_id =ₛ event_id && c.lead_id =ₛ lead_id && same_purpose c.purpose purpose

-- `suppressLead`
unfoldable pub suppress_lead : Registration → Purpose → ℕ → Tables → Tables
suppress_lead r purpose now t = record t {
  suppressions = add_suppression r.workspace_id r.lead_id purpose t.suppressions;
  consents = withdraw (is_consent r.event_id r.lead_id purpose) now t.consents;
}

abbrev pub set_status : String → RegistrationStatus → Tables → Tables
set_status id status t = record t {
  registrations =
      map (λ (r : Registration). if r.id =ₛ id then record r { status = status } else r)
        t.registrations;
}

-- What `consumePublicAction` returns, or the exception that it throws.
pub data Consumed : Type 0 where
  link_invalid : Consumed
  consumed : PublicAction → RegistrationStatus → Bool → Consumed

-- The status after the two tests of the action
unfoldable pub moved : PublicAction → RegistrationStatus → RegistrationStatus
moved confirm status = if can_move status confirmed then confirmed else status
moved decline status = if can_move status declined then declined else status
moved unsubscribe status = status

abbrev action_text : PublicAction → String
action_text confirm = "confirm"
action_text decline = "decline"
action_text unsubscribe = "unsubscribe"

-- What the action does besides the status: `suppressLead` and `stopCadence`.
unfoldable pub apply_action : PublicAction → Registration → Purpose → ℕ → Tables → Tables
apply_action confirm r purpose now t = t
apply_action decline r purpose now t = stop_cadence r.id now (action_text decline) t
apply_action unsubscribe r purpose now t =
    stop_cadence r.id now (action_text unsubscribe) (suppress_lead r purpose now t)

abbrev pub has_hash : String → ActionToken → Bool
has_hash hash token = token.token_hash =ₛ hash

unfoldable pub mark_consumed : String → ℕ → Tables → Tables
mark_consumed hash now t = record t {
  tokens =
      map (λ (x : ActionToken). if has_hash hash x then record x { consumed_at = some now } else x)
        t.tokens;
}

abbrev pub consume_with : ActionToken → Option Registration → ℕ → Tables → Consumed × Tables
consume_with token none now t = (link_invalid, t)
consume_with token (some r) now t =
    if is_some token.consumed_at then (consumed token.action r.status true, t) else (
      consumed token.action (moved token.action r.status) false,
      mark_consumed token.token_hash now (
          apply_action token.action r token.purpose now
            (set_status r.id (moved token.action r.status) t)),
    )

abbrev pub consume_token : Option ActionToken → ℕ → Tables → Consumed × Tables
consume_token none now t = (link_invalid, t)
consume_token (some token) now t =
    if leb token.expires_at now
    then (link_invalid, t)
    else consume_with token
        (find (λ (r : Registration). r.id =ₛ token.registration_id) t.registrations) now t

-- `consumePublicAction`, from the hash of the token on. A token has a registration, by its foreign key.
unfoldable pub consume_public_action : String → ℕ → Tables → Consumed × Tables
consume_public_action hash now t = consume_token (find (has_hash hash) t.tokens) now t
