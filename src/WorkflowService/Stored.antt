-- ===== src/WorkflowService/Stored.antt =====
-- The table of events of the workflow service.
use vigil_summit_agent.Prelude.{
  any-last, true, false, Option, none, some, List, [], ◌∷◌, ◌++◌, ◌≡◌, refl, any, arith, eq_iff,
  eq_refl, Bool-cases, inl, inr, ◌⊎◌,
}
use vigil_summit_agent.Json.{Json}
use vigil_summit_agent.WorkflowService.{
  Lifecycle, parse_lifecycle, has_event_id, store_event, Written, written, foreign_key_missing,
  write_failed, Settled, acknowledged, requeued, rejected, persist, handle_read, handle_event,
}

-- No two events have the same id.
abbrev pub Unique : List Lifecycle → Type 0
Unique [] = Unit
Unique (e ∷ rest) = (any (has_event_id e.event_id) rest ≡ false) × Unique rest

append-Unique :
    (stored : List Lifecycle) (e : Lifecycle)
    → any (has_event_id e.event_id) stored ≡ false
    → Unique stored
    → Unique (stored ++ e ∷ [])
append-Unique [] e new u = (refl, tt)
append-Unique (x ∷ xs) e new (first, u) = (
  rw (any-last (has_event_id x.event_id) xs e, first)
      (ground (arith, new, eq_iff x.event_id e.event_id, eq_iff e.event_id x.event_id)),
  append-Unique xs e (ground (arith, new)) u,
)

store_event-Unique :
    (e : Lifecycle) (stored : List Lifecycle) → Unique stored → Unique (store_event e stored)
unfolding store_event
store_event-Unique e stored u = elim (Bool-cases (any (has_event_id e.event_id) stored)) [
  | inl there ↦ rw there u
  | inr new ↦ rw new (append-Unique stored e new u)
]

store_event-has :
    (e : Lifecycle) (stored : List Lifecycle)
    → any (has_event_id e.event_id) (store_event e stored) ≡ true
unfolding store_event
store_event-has e stored = elim (Bool-cases (any (has_event_id e.event_id) stored)) [
  | inl there ↦ rw there there
  | inr new ↦ rw (new, any-last (has_event_id e.event_id) stored e, new, eq_refl e.event_id) refl
]

store_event-again :
    (e : Lifecycle) (stored : List Lifecycle)
    → store_event e (store_event e stored) ≡ store_event e stored
unfolding store_event
store_event-again e stored = there (store_event e stored) (store_event-has e stored)
  where
    there :
        (after : List Lifecycle)
        → any (has_event_id e.event_id) after ≡ true
        → store_event e after ≡ after
    there after h = rw h refl

-- What a delivery leaves behind, by how it is settled.
abbrev pub Outcome : Option Lifecycle → Written → List Lifecycle → Settled → List Lifecycle → Type 0
Outcome e answer before acknowledged after =
    (x : Lifecycle) × (e ≡ some x)
    × (any (has_event_id x.event_id) after ≡ true)
    × (store_event x after ≡ after)
Outcome e answer before requeued after = (answer ≡ write_failed) × (after ≡ before)
Outcome e answer before rejected after =
    ((e ≡ none) ⊎ (answer ≡ foreign_key_missing)) × (after ≡ before)

-- For every delivery and every answer of the database: the ids of the stored events stay unique. An
-- acknowledged delivery was readable and its event is stored, so that storing it again changes nothing;
-- one that is put back into the queue or rejected leaves the table as it was, and is rejected only
-- where it is not readable or refers to a row that does not exist.
pub handle_event-outcome :
    (value : Option Json) (answer : Written) (stored : List Lifecycle)
    → Unique stored
    → Unique (handle_event value answer stored).1
      × Outcome
          (parse_lifecycle value)
          answer
          stored
          (handle_event value answer stored).0
          (handle_event value answer stored).1
unfolding handle_event handle_read persist
handle_event-outcome value answer stored u = by_reading (parse_lifecycle value) answer
  where
    by_reading :
        (e : Option Lifecycle) (a : Written)
        → Unique (handle_read e a stored).1
          × Outcome e a stored (handle_read e a stored).0 (handle_read e a stored).1
    by_reading none a = (u, (inl refl, refl))
    by_reading (some e) written = (
      store_event-Unique e stored u,
      (e, refl, store_event-has e stored, store_event-again e stored),
    )
    by_reading (some e) foreign_key_missing = (u, (inr refl, refl))
    by_reading (some e) write_failed = (u, (refl, refl))
