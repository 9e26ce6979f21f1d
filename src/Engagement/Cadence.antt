-- ===== src/Engagement/Cadence.antt =====
-- apps/api/src/modules/engagement/cadence-schedule.ts. Times are milliseconds; a date before 1970 is
-- kept as 0, which like it is not after `now`.
pub mod Ascending
use vigil_summit_agent.Prelude.{
  ℕ, ◌+◌, ◌-◌, ◌*◌, ◌<◌, ◌≤◌, String, Bool, true, false, List, [], ◌∷◌, filter, ltb, if◌then◌else◌,
  All,
}
use vigil_summit_agent.Engagement.Policy.{
  Purpose, event_communication, commercial_follow_up, RegistrationStatus, attended, no_show,
  hour_ms,
}

pub data ActionType : Type 0 where
  agent_decision send_message follow_up request_confirmation request_feedback : ActionType
  propose_meeting : ActionType

-- `CadenceStep`
pub record CadenceStep : Type 0 where
  pub key : String
  pub due_at : ℕ
  pub type : ActionType
  pub purpose : Purpose

abbrev pub day_ms : ℕ
day_ms = 86400000

abbrev pub step : String → ℕ → ActionType → Purpose → CadenceStep
step key due_at type purpose = record { key = key; due_at = due_at; type = type; purpose = purpose }

-- The candidates after the first one.
unfoldable pub reminders : ℕ → List CadenceStep
reminders starts_at =
    step "d14" (starts_at - 14 * day_ms) request_confirmation event_communication
    ∷ step "d7" (starts_at - 7 * day_ms) request_confirmation event_communication
    ∷ step "d3" (starts_at - 3 * day_ms) follow_up event_communication
    ∷ step "d1" (starts_at - day_ms) follow_up event_communication
    ∷ []

-- `buildPreEventSchedule`: the first candidate stays, and those of the others that are still to come.
unfoldable pub build_pre_event_schedule : ℕ → ℕ → List CadenceStep
build_pre_event_schedule starts_at now =
    step "welcome" now agent_decision event_communication
    ∷ filter (λ s. ltb now s.due_at) (reminders starts_at)

-- `buildPostEventSchedule`
unfoldable pub build_post_event_schedule : RegistrationStatus → ℕ → List CadenceStep
build_post_event_schedule attended anchor =
    step "attendee-h2" (anchor + 2 * hour_ms) agent_decision commercial_follow_up
    ∷ step "attendee-d2" (anchor + 2 * day_ms) propose_meeting commercial_follow_up
    ∷ step "attendee-d7" (anchor + 7 * day_ms) follow_up commercial_follow_up
    ∷ []
build_post_event_schedule no_show anchor =
    step "no-show-d1" (anchor + day_ms) agent_decision commercial_follow_up
    ∷ step "no-show-d3" (anchor + 3 * day_ms) follow_up commercial_follow_up
    ∷ step "no-show-d7" (anchor + 7 * day_ms) follow_up commercial_follow_up
    ∷ []
build_post_event_schedule _ anchor = []
