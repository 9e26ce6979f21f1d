-- ===== src/Engagement/Cadence/Ascending.antt =====
-- The schedules of a registration go forward in time.
use vigil_summit_agent.Prelude.{
  ℕ, ◌-◌, ◌<◌, ◌≤◌, Bool, List, [], ◌∷◌, filter, ltb, All, arith, ◌≡◌, refl, Bool-cases, inl, inr,
  ltb→lt,
}
use vigil_summit_agent.Engagement.Cadence.{CadenceStep, day_ms, reminders, build_pre_event_schedule}

-- Each step comes after the one before it, and the first one after `from`.
abbrev pub Ascending : ℕ → List CadenceStep → Type 0
Ascending from [] = Unit
Ascending from (s ∷ ss) = (from < s.due_at) × Ascending s.due_at ss

-- Of two steps that are both after `now`, the later in the list is later in time.
abbrev Spread : ℕ → List CadenceStep → Type 0
Spread now [] = Unit
Spread now (s ∷ ss) =
    All (λ (s' : CadenceStep). now < s.due_at → now < s'.due_at → s.due_at < s'.due_at) ss
    × Spread now ss

use_first :
    (now : ℕ) (s : CadenceStep) (ss : List CadenceStep)
    → now < s.due_at
    → All (λ (s' : CadenceStep). now < s.due_at → now < s'.due_at → s.due_at < s'.due_at) ss
    → All (λ (s' : CadenceStep). now < s'.due_at → s.due_at < s'.due_at) ss
use_first now s [] h a = tt
use_first now s (x ∷ xs) h (p, a) = (p h, use_first now s xs h a)

filter-Ascending :
    (now from : ℕ) (ss : List CadenceStep)
    → All (λ (s : CadenceStep). now < s.due_at → from < s.due_at) ss
    → Spread now ss
    → Ascending from (filter (λ s. ltb now s.due_at) ss)
filter-Ascending now from [] a p = tt
filter-Ascending now from (s ∷ ss) (h, a) (b, p) = elim (Bool-cases (ltb now s.due_at)) [
  | inl later ↦
      let after : now < s.due_at = ltb→lt now s.due_at later in
      rw later (h after, filter-Ascending now s.due_at ss (use_first now s ss after b) p)
  | inr past ↦ rw past (filter-Ascending now from ss a p)
]

filter-All :
    (P : CadenceStep → Type 0) (test : CadenceStep → Bool) (ss : List CadenceStep)
    → All P ss
    → All P (filter test ss)
filter-All P test [] a = tt
filter-All P test (s ∷ ss) (h, a) = elim (Bool-cases (test s)) [
  | inl keep ↦ rw keep (h, filter-All P test ss a)
  | inr drop ↦ rw drop (filter-All P test ss a)
]

-- A first step at `from`, and the others one after the other, none of them after `until`.
abbrev pub Upcoming : ℕ → ℕ → List CadenceStep → Type 0
Upcoming from until [] = ⊥
Upcoming from until (s ∷ ss) =
    (s.due_at ≡ from) × Ascending from ss × All (λ (s' : CadenceStep). s'.due_at ≤ until) ss

-- For every start and every time of registration: the first step of the schedule before the event is
-- due at once, each other step is later than the one before it, and none of these others is due later
-- than one day before the start.
pub build_pre_event_schedule-Upcoming :
    (starts_at now : ℕ) → Upcoming now (starts_at - day_ms) (build_pre_event_schedule starts_at now)
unfolding build_pre_event_schedule reminders
build_pre_event_schedule-Upcoming starts_at now =
    let all_steps = reminders starts_at in
    (
      refl,
      filter-Ascending now now all_steps ((λ h. h), ((λ h. h), ((λ h. h), ((λ h. h), tt))))
          (
            (
              (λ h k. omega (arith, h, k)),
              ((λ h k. omega (arith, h, k)), ((λ h k. omega (arith, h, k)), tt)),
            ),
            (
              ((λ h k. omega (arith, h, k)), ((λ h k. omega (arith, h, k)), tt)),
              (((λ h k. omega (arith, h, k)), tt), (tt, tt)),
            ),
          ),
      filter-All (λ s. s.due_at ≤ starts_at - day_ms) (λ s. ltb now s.due_at) all_steps
          (omega arith, (omega arith, (omega arith, (omega arith, tt)))),
    )
