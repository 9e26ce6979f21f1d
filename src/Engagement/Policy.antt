-- ===== src/Engagement/Policy.antt =====
-- apps/execution-worker/src/engagement/communication-policy.ts. Times are milliseconds.
pub mod Window
use vigil_summit_agent.Prelude.{
  ℕ, ◌+◌, ◌-◌, ◌*◌, ◌%◌, ◌<◌, ◌≤◌, Bool, true, false, not, ◌||◌, ◌≡◌, ◌↔◌, refl, ltb, leb,
  if◌then◌else◌, arith,
}

pub data Purpose : Type 0 where
  event_communication commercial_follow_up : Purpose

pub data RegistrationStatus : Type 0 where
  registered waitlisted confirmed declined attended no_show : RegistrationStatus

-- `CommunicationPolicyInput`, without the timezone
pub record PolicyInput : Type 0 where
  pub now : ℕ
  pub purpose : Purpose
  pub delivered_count : ℕ
  pub registration_status : RegistrationStatus
  pub has_consent : Bool
  pub is_suppressed : Bool
  pub has_meeting : Bool

pub data Reason : Type 0 where
  missing_consent lead_suppressed meeting_booked registration_declined : Reason
  cadence_limit_reached : Reason

-- `CommunicationPolicyResult`; `quiet_hours` carries `retryAt`, and it is the only result that does.
pub data PolicyResult : Type 0 where
  allowed : PolicyResult
  denied : Reason → PolicyResult
  quiet_hours : ℕ → PolicyResult

abbrev pub is_declined : RegistrationStatus → Bool
is_declined declined = true
is_declined _ = false

abbrev pub message_limit : Purpose → ℕ
message_limit event_communication = 5
message_limit commercial_follow_up = 4

abbrev pub hour_ms : ℕ
hour_ms = 3600000

-- The hours that `nextLocalWindow` adds.
unfoldable pub hours_to_window : ℕ → ℕ
hours_to_window hour = if ltb hour 8 then 8 - hour else 24 - hour + 8

unfoldable pub next_local_window : ℕ → ℕ → ℕ
next_local_window now hour = now + hours_to_window hour * hour_ms

-- `localHour` asks `Intl.DateTimeFormat` for the hour in the event's timezone.
module _ (local_hour : ℕ → ℕ) where
  -- `evaluateCommunicationPolicy`
  unfoldable pub evaluate_communication_policy : PolicyInput → PolicyResult
  evaluate_communication_policy input =
      if not input.has_consent
      then denied missing_consent
      else if input.is_suppressed
      then denied lead_suppressed
      else if input.has_meeting
      then denied meeting_booked
      else if is_declined input.registration_status
      then denied registration_declined
      else if leb (message_limit input.purpose) input.delivered_count
      then denied cadence_limit_reached
      else if ltb (local_hour input.now) 8 || leb 18 (local_hour input.now)
      then quiet_hours (next_local_window input.now (local_hour input.now))
      else allowed
