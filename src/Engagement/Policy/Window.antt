-- ===== src/Engagement/Policy/Window.antt =====
-- When `evaluateCommunicationPolicy` allows a message, and what its retry leads to.
use vigil_summit_agent.Prelude.{
  ℕ, ◌+◌, ◌*◌, ◌%◌, ◌<◌, ◌≤◌, true, false, ◌||◌, ◌≡◌, ◌↔◌, ltb, leb, arith, sym, ap, ◌∙◌,
}
use vigil_summit_agent.Engagement.Policy.{
  PolicyInput, allowed, quiet_hours, is_declined, message_limit, hour_ms, hours_to_window,
  next_local_window, evaluate_communication_policy,
}

pub evaluate-allowed :
    (local_hour : ℕ → ℕ) (input : PolicyInput)
    → (evaluate_communication_policy local_hour input ≡ allowed) ↔ (
        (input.has_consent ≡ true)
        × (input.is_suppressed ≡ false)
        × (input.has_meeting ≡ false)
        × (is_declined input.registration_status ≡ false)
        × (input.delivered_count < message_limit input.purpose)
        × (8 ≤ local_hour input.now)
        × (local_hour input.now < 18))
unfolding evaluate_communication_policy
evaluate-allowed local_hour input = (λ h. ground (arith, h), λ h. ground (arith, h))

-- The hour at the end of the wait.
window-hour :
    (hour : ℕ)
    → hour < 24
    → (ltb hour 8 || leb 18 hour) ≡ true
    → (hour + hours_to_window hour) % 24 ≡ 8
unfolding hours_to_window
window-hour hour h q = ground arith

window-wait :
    (hour : ℕ)
    → hour < 24
    → (ltb hour 8 || leb 18 hour) ≡ true
    → (0 < hours_to_window hour) × (hours_to_window hour ≤ 14)
unfolding hours_to_window
window-wait hour h q = ground arith

-- Everything but the hour allows the message.
record Otherwise (input : PolicyInput) : Type 0 where
  consent : input.has_consent ≡ true
  suppressed : input.is_suppressed ≡ false
  meeting : input.has_meeting ≡ false
  declines : is_declined input.registration_status ≡ false
  below : input.delivered_count < message_limit input.purpose

quiet-Otherwise :
    (local_hour : ℕ → ℕ) (input : PolicyInput) (at : ℕ)
    → evaluate_communication_policy local_hour input ≡ quiet_hours at
    → Otherwise input
      × ((ltb (local_hour input.now) 8 || leb 18 (local_hour input.now)) ≡ true)
      × (next_local_window input.now (local_hour input.now) ≡ at)
unfolding evaluate_communication_policy
quiet-Otherwise local_hour input at h = (
  record {
    consent = ground (arith, h);
    suppressed = ground (arith, h);
    meeting = ground (arith, h);
    declines = ground (arith, h);
    below = ground (arith, h);
  },
  ground (arith, h),
  ground (arith, h),
)

-- Suppose that the local hour goes around the clock with the time, as it does where no change of the
-- clocks comes between. If a message has to wait for quiet hours to end, then its retry is later than
-- now, by 14 hours at most, and the same message is allowed at the time of its retry.
pub evaluate-retry :
    (local_hour : ℕ → ℕ) (input : PolicyInput) (at : ℕ)
    → ((n : ℕ) → local_hour n < 24)
    → ((n h : ℕ) → local_hour (n + h * hour_ms) ≡ (local_hour n + h) % 24)
    → evaluate_communication_policy local_hour input ≡ quiet_hours at
    → (input.now < at)
      × (at ≤ input.now + 14 * hour_ms)
      × (evaluate_communication_policy local_hour (record input { now = at }) ≡ allowed)
unfolding next_local_window
evaluate-retry local_hour input at bound turns quiet =
    let hour = local_hour input.now in
    let (o, closed, same) = quiet-Otherwise local_hour input at quiet in
    let (some_wait, short) = window-wait hour (bound input.now) closed in
    let open_hour : local_hour at ≡ 8 =
      ap local_hour (sym same)
      ∙ turns input.now (hours_to_window hour)
      ∙ window-hour hour (bound input.now) closed in
    (
      omega (arith, same, some_wait),
      omega (arith, same, short),
      (evaluate-allowed local_hour (record input { now = at })).1 (
        o.consent,
        o.suppressed,
        o.meeting,
        o.declines,
        o.below,
        omega (arith, open_hour),
        omega (arith, open_hour),
      ),
    )
