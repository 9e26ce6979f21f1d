-- ===== src/Worker/Dispatcher/Reads.antt =====
-- What scheduled-action-dispatcher.ts of apps/execution-worker/src/engagement reads before it acts: the
-- payload of an action, and the facts for the communication policy. The queries of a `Promise.all` are
-- in the order in which they are written.
use vigil_summit_agent.Prelude.{
  ℕ, String, Bool, true, false, Option, none, some, List, ◌&&◌, ◌||◌, ◌=ₛ◌, if◌then◌else◌, length,
  filter, any, is_some, map,
}
use vigil_summit_agent.Json.{Json, str, obj, get}
use vigil_summit_agent.Engagement.Policy.{
  Purpose, RegistrationStatus, PolicyResult, Reason, missing_consent, lead_suppressed,
  meeting_booked, registration_declined, cadence_limit_reached, evaluate_communication_policy,
}
use vigil_summit_agent.Engagement.Tables.{
  Lead, Suppression, Meeting, action_pending, completed, action_cancelled, Action, EmailStatus,
  sent, delivered, EmailMessage,
}
use vigil_summit_agent.Engagement.Enroll.{same_purpose, has_consent}
use vigil_summit_agent.Worker.State.{Db, other_error}
use vigil_summit_agent.Worker.Effects.{M, pure, throw, ◌>>=◌, access}

abbrev pub with_actions : List Action → Db → Db
with_actions rows db = record db { engagement = record db.engagement { actions = rows } }

-- `scheduledAction.update({ where: { id }, data })`: `none` without such a row.
abbrev pub update_action_row : String → (Action → Action) → Db → Option (Unit {0}) × Db
update_action_row id f db =
    if any (λ a. a.id =ₛ id) db.engagement.actions
    then (some tt, with_actions (map (λ a. if a.id =ₛ id then f a else a) db.engagement.actions) db)
    else (none, db)

unfoldable pub require_row : Option (Unit {0}) → M (Unit {0})
require_row none = throw (other_error "Record to update not found")
require_row (some u) = pure u

unfoldable pub update_action : String → (Action → Action) → M (Unit {0})
update_action id f = access (update_action_row id f) >>= require_row

unfoldable pub complete : ℕ → Action → Action
complete at a = record a { status = completed; completed_at = some at; lease_until = none }

unfoldable pub postpone : ℕ → String → Action → Action
postpone retry_at reason a = record a {
  status = action_pending;
  due_at = retry_at;
  lease_until = none;
  last_error = some reason;
}

unfoldable pub cancel : ℕ → String → Action → Action
cancel at reason a = record a {
  status = action_cancelled;
  completed_at = some at;
  lease_until = none;
  last_error = some reason;
}

abbrev non_empty : Option Json → Option String
non_empty (some (str s)) = if s =ₛ "" then none else some s
non_empty (some _) = none
non_empty none = none

-- `readOptionalString`
unfoldable pub read_optional_string : Json → String → M (Option String)
read_optional_string (obj fs) key = pure (non_empty (get fs key))
read_optional_string _ key = throw (other_error "Invalid action payload")

unfoldable pub require_text : Option String → M String
require_text none = throw (other_error "Missing action payload field")
require_text (some s) = pure s

-- `readString`
unfoldable pub read_string : Json → String → M String
read_string payload key = read_optional_string payload key >>= require_text

-- Whom a message is for, and with which purpose.
pub record Recipient : Type 0 where
  pub workspace_id : String
  pub event_id : String
  pub lead_id : String
  pub purpose : Purpose

-- What the four queries find.
pub record Facts : Type 0 where
  pub consent : Bool
  pub suppression : Bool
  pub delivered_count : ℕ
  pub meeting : Bool

abbrev pub is_suppression : Recipient → Suppression → Bool
is_suppression r s =
    s.workspace_id =ₛ r.workspace_id
    && s.lead_id =ₛ r.lead_id
    && same_purpose s.purpose r.purpose
    && s.active

abbrev pub is_sent : EmailStatus → Bool
is_sent sent = true
is_sent delivered = true
is_sent _ = false

abbrev is_counted : Recipient → EmailMessage → Bool
is_counted r m =
    m.event_id =ₛ r.event_id
    && m.lead_id =ₛ r.lead_id
    && same_purpose m.purpose r.purpose
    && m.is_outbound
    && is_sent m.status

unfoldable pub read_facts : Recipient → (Meeting → Bool) → M Facts
read_facts r is_theirs = do
  consent ← access (λ db. (has_consent r.event_id r.lead_id r.purpose db.engagement.consents, db))
  suppression ← access (λ db. (any (is_suppression r) db.engagement.suppressions, db))
  delivered_count ← access (λ db. (length (filter (is_counted r) db.engagement.messages), db))
  meeting ← access (λ db. (any (λ m. is_theirs m && m.is_booked) db.engagement.meetings, db))
  pure (record {
    consent = consent;
    suppression = suppression;
    delivered_count = delivered_count;
    meeting = meeting;
  })

-- The call of `evaluateCommunicationPolicy`
unfoldable pub policy_for :
    (String → ℕ → ℕ) → ℕ → String → Purpose → RegistrationStatus → Lead → Facts → PolicyResult
policy_for local_hour now timezone purpose status lead facts =
    evaluate_communication_policy (local_hour timezone) (record {
      now = now;
      purpose = purpose;
      delivered_count = facts.delivered_count;
      registration_status = status;
      has_consent = facts.consent;
      is_suppressed = facts.suppression || is_some lead.suppressed_at;
      has_meeting = facts.meeting;
    })

-- The `reason` of a denial
unfoldable pub reason_text : Reason → String
reason_text missing_consent = "MISSING_CONSENT"
reason_text lead_suppressed = "LEAD_SUPPRESSED"
reason_text meeting_booked = "MEETING_BOOKED"
reason_text registration_declined = "REGISTRATION_DECLINED"
reason_text cadence_limit_reached = "CADENCE_LIMIT_REACHED"
