-- ===== src/Engagement/Tests.antt =====
-- The policy and the schedules at concrete inputs.
use vigil_summit_agent.Prelude.{
  ◌+◌, none, some, [], ◌∷◌, ◌=ₛ◌, map, ℕ, ◌+◌, ◌-◌, ◌*◌, ◌/◌, ◌%◌, ◌<◌, ◌≤◌, true, false, ◌≡◌, ◌↔◌,
  refl, arith,
}
use vigil_summit_agent.Engagement.Tables.{Registration}
use vigil_summit_agent.Engagement.Enroll.{build_schedule, schedule_actions}
use vigil_summit_agent.Engagement.Enroll.Actions.{
  without_purpose, build_schedule-agrees, schedule_actions-again,
}
use vigil_summit_agent.Engagement.Policy.{
  event_communication, registered, confirmed, PolicyInput, allowed, quiet_hours, hour_ms,
  hours_to_window, next_local_window, evaluate_communication_policy,
}
use vigil_summit_agent.Engagement.Policy.Window.{evaluate-retry}
use vigil_summit_agent.Engagement.Cadence.{day_ms, build_pre_event_schedule}
use vigil_summit_agent.Engagement.Cadence.Ascending.{Upcoming, build_pre_event_schedule-Upcoming}
use vigil_summit_agent.Json.{end}
use vigil_summit_agent.Engagement.Qualification.{
  QualificationInput, qualified, disqualified, TextOps, seniority_part, role_part, size_part,
  industry_part, signal_part, total_score, status_of_score, qualify_lead,
}
use vigil_summit_agent.Engagement.Qualification.Score.{qualify_lead-score, qualify_lead-small}

-- The hour in UTC.
abbrev utc_hour : ℕ → ℕ
utc_hour t = t / 3600000 % 24

-- Half past seven in the evening.
abbrev evening : PolicyInput
evening = record {
  now = 70200000;
  purpose = event_communication;
  delivered_count = 1;
  registration_status = confirmed;
  has_consent = true;
  is_suppressed = false;
  has_meeting = false;
}

utc_hour-bound : (n : ℕ) → utc_hour n < 24
utc_hour-bound n = omega arith

utc_hour-turns : (n h : ℕ) → utc_hour (n + h * hour_ms) ≡ (utc_hour n + h) % 24
utc_hour-turns n h = omega arith

evening_waits : evaluate_communication_policy utc_hour evening ≡ quiet_hours 117000000
unfolding evaluate_communication_policy next_local_window hours_to_window
evening_waits = refl

evaluate-retry_example :
    (70200000 < 117000000)
    × (117000000 ≤ 70200000 + 14 * hour_ms)
    × (evaluate_communication_policy utc_hour (record evening { now = 117000000 }) ≡ allowed)
evaluate-retry_example =
    evaluate-retry utc_hour evening 117000000 utc_hour-bound utc_hour-turns evening_waits

build_pre_event_schedule-Upcoming_example :
    Upcoming 1000000000 (1700000000 - day_ms) (build_pre_event_schedule 1700000000 1000000000)
build_pre_event_schedule-Upcoming_example = build_pre_event_schedule-Upcoming 1700000000 1000000000

abbrev plain_ops : TextOps
plain_ops = record {
  normalize = λ s. s;
  contains = λ s t. s =ₛ t;
  first_number = λ s. none;
  is_target_industry = λ s. s =ₛ "industrial";
  is_positive = λ n. true;
  is_at_least = λ n x. true;
}

-- A security executive of an industrial company of unknown size.
abbrev security_executive : QualificationInput
security_executive = record {
  job_title = some "chief security officer";
  seniority = some "EXECUTIVE";
  role_category = some "SECURITY";
  company_industry = some "industrial";
  company_employee_range = none;
  security_signals = "zero trust" ∷ [];
  audience_profile = some end;
}

executive_qualifies : (qualify_lead plain_ops security_executive).status ≡ qualified
unfolding qualify_lead status_of_score total_score seniority_part role_part size_part industry_part
    signal_part
executive_qualifies = refl

size_is_unknown : (size_part plain_ops security_executive).0 ≡ 0
unfolding size_part
size_is_unknown = refl

qualify_lead-score_example :
    ((qualify_lead plain_ops security_executive).score
      ≡ (seniority_part security_executive).0
        + (role_part plain_ops security_executive).0
        + (size_part plain_ops security_executive).0
        + (industry_part plain_ops security_executive).0
        + (signal_part plain_ops security_executive).0)
    × ((seniority_part security_executive).0 ≤ 30)
    × ((role_part plain_ops security_executive).0 ≤ 25)
    × ((size_part plain_ops security_executive).0 ≤ 25)
    × ((industry_part plain_ops security_executive).0 ≤ 10)
    × ((signal_part plain_ops security_executive).0 ≤ 10)
    × (((qualify_lead plain_ops security_executive).status ≡ qualified)
        ↔ (70 ≤ (qualify_lead plain_ops security_executive).score))
    × (((qualify_lead plain_ops security_executive).status ≡ disqualified)
        ↔ ((qualify_lead plain_ops security_executive).score < 40))
qualify_lead-score_example = qualify_lead-score plain_ops security_executive

qualify_lead-small_example :
    (25 ≤ (seniority_part security_executive).0)
    × (20 ≤ (role_part plain_ops security_executive).0)
    × ((industry_part plain_ops security_executive).0 ≡ 10)
    × ((signal_part plain_ops security_executive).0 ≡ 10)
qualify_lead-small_example =
    qualify_lead-small plain_ops security_executive size_is_unknown executive_qualifies

abbrev registration : Registration
registration = record {
  id = "reg-1";
  workspace_id = "space-1";
  event_id = "summit-1";
  lead_id = "lead-1";
  status = registered;
  interest_topics = [];
}

build_schedule-agrees_example :
    build_schedule 2000000000 1500000000
    ≡ map without_purpose (build_pre_event_schedule 2000000000 1500000000)
build_schedule-agrees_example = build_schedule-agrees 2000000000 1500000000

schedule_actions-again_example :
    let first =
      schedule_actions registration "enrollment-1" "qualification-1"
        (λ key. key)
        (build_schedule 2000000000 1500000000)
        [] in
    schedule_actions registration "enrollment-1" "qualification-1"
      (λ key. key)
      (build_schedule 2000000000 1600000000)
      first
    ≡ first
schedule_actions-again_example =
    schedule_actions-again registration "enrollment-1" "qualification-1" "enrollment-1"
      "qualification-1" (λ key. key) (λ key. key) 2000000000 1500000000 1600000000 [] (omega arith)
