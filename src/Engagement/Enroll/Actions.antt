-- ===== src/Engagement/Enroll/Actions.antt =====
-- The scheduled actions of a cadence: the worker's schedule against the API's, and the loop that
-- stores it.
use vigil_summit_agent.Prelude.{
  any-last, ℕ, ◌≤◌, String, Bool, true, false, List, [], ◌∷◌, ◌++◌, ◌≡◌, refl, if◌then◌else◌, any,
  filter, map, ◌-◌, ◌*◌, ltb, All, arith, eq_refl, eq_iff, Bool-cases, inl, inr,
}
use vigil_summit_agent.Engagement.Cadence.{
  CadenceStep, request_confirmation, follow_up, day_ms, build_pre_event_schedule, reminders,
}
use vigil_summit_agent.Engagement.Tables.{Registration, Action}
use vigil_summit_agent.Engagement.Enroll.{
  Step, step, candidates, build_schedule, cadence_key, has_action_key, new_action, upsert_action,
  schedule_actions,
}

-- A step of the API without its purpose.
abbrev pub without_purpose : CadenceStep → Step
without_purpose s = record { key = s.key; due_at = s.due_at; type = s.type }

-- The execution worker and the API carry a copy each of `buildPreEventSchedule`. For every start of
-- the event and every time of registration both give the same steps in the same order; only the
-- API's carry a purpose.
pub build_schedule-agrees :
    (starts_at now : ℕ)
    → build_schedule starts_at now ≡ map without_purpose (build_pre_event_schedule starts_at now)
unfolding build_schedule candidates build_pre_event_schedule reminders
build_schedule-agrees starts_at now = ground arith

-- An action with this key is in the table.
abbrev pub Present : String → List Action → Type 0
Present key actions = any (has_action_key key) actions ≡ true

upsert-Present :
    (key : String) (a : Action) (actions : List Action)
    → Present key actions
    → Present key (upsert_action a actions)
upsert-Present key a actions h =
    elim (Bool-cases (any (has_action_key a.idempotency_key) actions)) [
      | inl there ↦ rw there h
      | inr new ↦ rw (new, any-last (has_action_key key) actions a, h) refl
    ]

upsert-own :
    (a : Action) (actions : List Action) → Present a.idempotency_key (upsert_action a actions)
upsert-own a actions = elim (Bool-cases (any (has_action_key a.idempotency_key) actions)) [
  | inl there ↦ rw there there
  | inr new ↦
      rw
        (new, any-last (has_action_key a.idempotency_key) actions a, new, eq_refl a.idempotency_key)
        refl
]

-- No two actions have the same idempotency key.
abbrev pub Unique : List Action → Type 0
Unique [] = Unit
Unique (a ∷ rest) = (any (has_action_key a.idempotency_key) rest ≡ false) × Unique rest

append-Unique :
    (actions : List Action) (a : Action)
    → any (has_action_key a.idempotency_key) actions ≡ false
    → Unique actions
    → Unique (actions ++ a ∷ [])
append-Unique [] a new u = (refl, tt)
append-Unique (x ∷ xs) a new (first, u) = (
  rw (any-last (has_action_key x.idempotency_key) xs a, first)
      (ground (
        arith,
        new,
        eq_iff x.idempotency_key a.idempotency_key,
        eq_iff a.idempotency_key x.idempotency_key,
      )),
  append-Unique xs a (ground (arith, new)) u,
)

upsert-Unique :
    (a : Action) (actions : List Action) → Unique actions → Unique (upsert_action a actions)
upsert-Unique a actions u = elim (Bool-cases (any (has_action_key a.idempotency_key) actions)) [
  | inl there ↦ rw there u
  | inr new ↦ rw new (append-Unique actions a new u)
]

module _ (r : Registration) (e q : String) (new_id : String → String) where
  -- The action of a step is in the table.
  abbrev Stored : List Action → Step → Type 0
  Stored actions s = Present (cadence_key r.id s.key) actions

  schedule_actions-keeps :
      (key : String) (ss : List Step) (actions : List Action)
      → Present key actions
      → Present key (schedule_actions r e q new_id ss actions)
  unfolding schedule_actions
  schedule_actions-keeps key [] actions h = h
  schedule_actions-keeps key (s ∷ ss) actions h =
      schedule_actions-keeps key ss _ (upsert-Present key _ actions h)

  schedule_actions-stores :
      (ss : List Step) (actions : List Action)
      → All (Stored (schedule_actions r e q new_id ss actions)) ss
  unfolding schedule_actions new_action
  schedule_actions-stores [] actions = tt
  schedule_actions-stores (s ∷ ss) actions = (
    schedule_actions-keeps (cadence_key r.id s.key) ss _
        (upsert-own (new_action r e q (new_id s.key) s) actions),
    schedule_actions-stores ss _,
  )

  -- Where all actions are there, the loop changes nothing.
  schedule_actions-same :
      (ss : List Step) (actions : List Action)
      → All (Stored actions) ss
      → schedule_actions r e q new_id ss actions ≡ actions
  unfolding schedule_actions new_action
  schedule_actions-same [] actions h = refl
  schedule_actions-same (s ∷ ss) actions (p, h) = rw p (schedule_actions-same ss actions h)

  pub schedule_actions-Unique :
      (ss : List Step) (actions : List Action)
      → Unique actions
      → Unique (schedule_actions r e q new_id ss actions)
  unfolding schedule_actions
  schedule_actions-Unique [] actions u = u
  schedule_actions-Unique (s ∷ ss) actions u =
      schedule_actions-Unique ss _ (upsert-Unique _ actions u)

filter-weaker :
    {A : Type 0} (P : A → Type 0) (p q : A → Bool) (xs : List A)
    → ((x : A) → q x ≡ true → p x ≡ true)
    → All P (filter p xs)
    → All P (filter q xs)
filter-weaker P p q [] h a = tt
filter-weaker P p q (x ∷ xs) h a = elim (Bool-cases (q x)) [
  | inl keep ↦
      let b : P x × All P (filter p xs) = rw (h x keep) at a in
      rw keep (b.0, filter-weaker P p q xs h b.1)
  | inr drop ↦ rw drop (filter-weaker P p q xs h (tail (p x) a))
]
  where
    tail : (b : Bool) → All P (if b then x ∷ filter p xs else filter p xs) → All P (filter p xs)
    tail true c = c.1
    tail false c = c

-- What holds of the keys of an earlier schedule holds of those of a later one.
schedule-later :
    (P : String → Type 0) (starts_at now later : ℕ)
    → now ≤ later
    → All (λ (s : Step). P s.key) (build_schedule starts_at now)
    → All (λ (s : Step). P s.key) (build_schedule starts_at later)
unfolding build_schedule candidates
schedule-later P starts_at now later h (welcome, rest) = (
  welcome,
  filter-weaker (λ s. P s.key) (λ s. ltb now s.due_at) (λ s. ltb later s.due_at)
      (step "d14" (starts_at - 14 * day_ms) request_confirmation
        ∷ step "d7" (starts_at - 7 * day_ms) request_confirmation
        ∷ step "d3" (starts_at - 3 * day_ms) follow_up
        ∷ step "d1" (starts_at - day_ms) follow_up
        ∷ [])
      (λ s after. ground (arith, h, after)) rest,
)

-- A registration that is enriched again, at the same time or later, while the event still has the start
-- that it had, gets no further scheduled action, whatever ids the enrollment, the qualification and the
-- rows have by then: the upserts of the loop find all the steps of the later schedule, since the
-- earlier one had them too. An event that is postponed in between is not covered.
pub schedule_actions-again :
    (r : Registration) (e q e' q' : String) (new_id new_id' : String → String)
    (starts_at now later : ℕ) (actions : List Action)
    → now ≤ later
    → let first = schedule_actions r e q new_id (build_schedule starts_at now) actions in
      schedule_actions r e' q' new_id' (build_schedule starts_at later) first ≡ first
schedule_actions-again r e q e' q' new_id new_id' starts_at now later actions h =
    let first = schedule_actions r e q new_id (build_schedule starts_at now) actions in
    schedule_actions-same r e' q' new_id' (build_schedule starts_at later) first (
      schedule-later (λ key. Present (cadence_key r.id key) first) starts_at now later h
        (schedule_actions-stores r e q new_id (build_schedule starts_at now) actions))
