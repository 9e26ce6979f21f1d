-- ===== src/Worker/Execution/Rows.antt =====
-- The rows of executions only move forward, and each status that the worker sets is on record in the
-- outbox.
use vigil_summit_agent.Prelude.{
  ℕ, String, Bool, true, Option, none, some, List, [], ◌∷◌, ◌++◌, ◌≡◌, refl, ◌∙◌, ◌=ₛ◌, ◌≤◌, any,
  arith, eq_iff, eq_refl, Bool-cases, inl, inr, find, subst, ap, sym,
}
use mathlib.Core.Option.{some-injective}
use vigil_summit_agent.Contracts.Message.{RoutingKey, Message}
use vigil_summit_agent.Worker.State.{
  ExecutionStatus, running, succeeded, failed, Execution, OutboxMessage, Db,
}
use vigil_summit_agent.Worker.Keeps.{Guarantee, about_db}
use vigil_summit_agent.Worker.Outbox.{
  has_key, upsert_row, new_row, key_of, persist_outbox_event, started_key, completed_key,
  failed_key,
}
use vigil_summit_agent.Worker.Outbox.Rows.{Extends, persist-Extends, Extends-refl}
use vigil_summit_agent.Worker.Execution.{is_terminal, put, change_and_record, transition}

abbrev pub rank : ExecutionStatus → ℕ
rank ExecutionStatus.pending = 0
rank running = 1
rank _ = 2

-- What may become of a row: the definition stays, the status does not go back, and a terminal row
-- is not touched.
pub record Later (a b : Execution) : Type 0 where
  pub definition : a.definition ≡ b.definition
  pub forward : rank a.status ≤ rank b.status
  pub frozen : is_terminal a.status ≡ true → a ≡ b

pub Later-refl : (a : Execution) → Later a a
Later-refl a = record { definition = refl; forward = omega arith; frozen = λ _. refl }

is_terminal-of-rank : (s : ExecutionStatus) → is_terminal s ≡ true → rank s ≡ 2
is_terminal-of-rank s h = ground arith

pub Later-trans : {a b c : Execution} → Later a b → Later b c → Later a c
Later-trans {a} p q = record {
  definition = p.definition ∙ q.definition;
  forward = omega (arith, p.forward, q.forward);
  frozen = λ h.
      p.frozen h ∙ q.frozen (subst (λ (x : Execution). is_terminal x.status ≡ true) (p.frozen h) h);
}

-- No row of an execution goes away, and each moves forward.
abbrev pub Advanced : Db → Db → Type 0
Advanced d d' =
    (id : String) (e : Execution)
    → d.executions id ≡ some e
    → (e' : Execution) × (d'.executions id ≡ some e') × Later e e'

abbrev pub Advance : Guarantee
Advance =
    about_db Advanced (λ d id e h. (e, h, Later-refl e))
      (λ a b c p q id e h.
        let (e', h', l) = p id e h in
        let (e'', h'', l') = q id e' h' in (e'', h'', Later-trans l l'))

pub persist-executions :
    (id : String) (key : RoutingKey) (m : Message) (d : Db)
    → (persist_outbox_event id key m d).1.executions ≡ d.executions
unfolding persist_outbox_event
persist-executions id key m d = ground arith

pub persist-Advanced :
    (id : String) (key : RoutingKey) (m : Message) (d : Db)
    → Advanced d (persist_outbox_event id key m d).1
persist-Advanced id key m d j e h = (e, rw (persist-executions id key m d) h, Later-refl e)

put-Advanced :
    (id j : String) (old e : Execution) (new : Execution) (d : Db)
    → d.executions id ≡ some old
    → Later old new
    → d.executions j ≡ some e
    → (e' : Execution) × (put d.executions id new j ≡ some e') × Later e e'
put-Advanced id j old e new d found l at = elim (Bool-cases (id =ₛ j)) [
  | inl same ↦
      let p : some old ≡ some e = sym found ∙ (ap d.executions ((eq_iff id j).0 same) ∙ at) in
      (new, rw same, subst (λ x. Later x new) (some-injective old e p) l)
  | inr other ↦ (e, rw other at, Later-refl e)
]

-- A transition moves an allowed row forward.
pub transition-Advanced :
    (id : String) (allowed : ExecutionStatus → Bool) (change : Execution → Execution)
    (row_id : String) (key : RoutingKey) (m : Message) (d : Db)
    → ((e : Execution) → allowed e.status ≡ true → Later e (change e))
    → Advanced d (transition id allowed change row_id key m d).1
unfolding transition
transition-Advanced id allowed change row_id key m d h j e at = by_row (d.executions id) refl
  where
    by_row :
        (o : Option Execution)
        → d.executions id ≡ o
        → (e' : Execution) × ((change_and_record o id allowed change
                (persist_outbox_event row_id key m)
                d).1.executions
              j
            ≡ some e')
          × Later e e'
    by_row none found = (e, at, Later-refl e)
    by_row (some old) found = elim (Bool-cases (allowed old.status)) [
      | inl allows ↦
          rw (allows, persist-executions)
            (put-Advanced id j old e (change old) d found (h old allows) at)
      | inr denies ↦ rw denies (e, at, Later-refl e)
    ]

-- The outbox has a row with the key.
abbrev pub Has : String → List OutboxMessage → Type 0
Has k rows = any (has_key k) rows ≡ true

Has-Extends : (k : String) (xs ys : List OutboxMessage) → Extends xs ys → Has k xs → Has k ys
Has-Extends k [] ys x h = cc
Has-Extends k (x ∷ xs) [] p h = absurd p
Has-Extends k (x ∷ xs) (y ∷ ys) (p, ps) h =
    ground (arith, p.idempotency_key, Has-Extends k xs ys ps)

Has-find :
    (k : String) (rows : List OutboxMessage) (row : OutboxMessage)
    → find (has_key k) rows ≡ some row
    → Has k rows
Has-find k [] row h = cc
Has-find k (x ∷ xs) row h = ground (arith, Has-find k xs row)

Has-last :
    (k : String) (rows : List OutboxMessage) (row : OutboxMessage)
    → row.idempotency_key ≡ k
    → Has k (rows ++ row ∷ [])
Has-last k [] row h = rw h (rw eq_refl)
Has-last k (x ∷ xs) row h = ground (arith, Has-last k xs row h)

-- After `persistOutboxEvent` the message's key is in the outbox.
pub persist-Has :
    (id : String) (key : RoutingKey) (m : Message) (d : Db)
    → Has (key_of m) (persist_outbox_event id key m d).1.outbox
unfolding persist_outbox_event
persist-Has id key m d = by_row (find (has_key (key_of m)) d.outbox) refl
  where
    by_row :
        (o : Option OutboxMessage)
        → find (has_key (key_of m)) d.outbox ≡ o
        → Has (key_of m) (upsert_row o (new_row id key m) d).1.outbox
    by_row none found = Has-last (key_of m) d.outbox (new_row id key m) (unfold new_row in refl)
    by_row (some row) found = Has-find (key_of m) d.outbox row found

-- What the outbox has to hold for an execution of this status.
abbrev pub Logged : String → ExecutionStatus → List OutboxMessage → Type 0
Logged id running rows = Has (started_key id) rows
Logged id succeeded rows = Has (completed_key id) rows
Logged id failed rows = Has (failed_key id) rows
Logged id _ rows = Unit

Logged-Extends :
    (id : String) (s : ExecutionStatus) (xs ys : List OutboxMessage)
    → Extends xs ys
    → Logged id s xs
    → Logged id s ys
Logged-Extends id running xs ys x h = Has-Extends (started_key id) xs ys x h
Logged-Extends id succeeded xs ys x h = Has-Extends (completed_key id) xs ys x h
Logged-Extends id failed xs ys x h = Has-Extends (failed_key id) xs ys x h
Logged-Extends id _ xs ys x h = tt

-- Every execution that is running, succeeded or failed has its event in the outbox.
abbrev pub Recorded : Db → Type 0
Recorded d = (id : String) (e : Execution) → d.executions id ≡ some e → Logged id e.status d.outbox

abbrev pub KeepsRecorded : Guarantee
KeepsRecorded = about_db (λ d d'. Recorded d → Recorded d') (λ d r. r) (λ a b c p q r. q (p r))

-- A change that leaves the executions alone and lets the outbox grow.
pub Recorded-Extends :
    (d d' : Db)
    → d'.executions ≡ d.executions
    → Extends d.outbox d'.outbox
    → Recorded d
    → Recorded d'
Recorded-Extends d d' same x r id e h =
    Logged-Extends id e.status d.outbox d'.outbox x (r id e (rw same at h))

Recorded-put :
    (id : String) (new : Execution) (d d' : Db)
    → d'.executions ≡ put d.executions id new
    → Extends d.outbox d'.outbox
    → Logged id new.status d'.outbox
    → Recorded d
    → Recorded d'
Recorded-put id new d d' moved x logged r j e h = elim (Bool-cases (id =ₛ j)) [
  | inl same ↦
      let p : new ≡ e = some-injective new e (rw (moved, same) at h) in
      subst (λ i. Logged i e.status d'.outbox) ((eq_iff id j).0 same)
        (subst (λ v. Logged id v.status d'.outbox) p logged)
  | inr other ↦ Logged-Extends j e.status d.outbox d'.outbox x (r j e (rw (moved, other) at h))
]

-- A transition that logs the event of the new status.
pub transition-Recorded :
    (id : String) (allowed : ExecutionStatus → Bool) (change : Execution → Execution)
    (row_id : String) (key : RoutingKey) (m : Message) (d : Db)
    → ((e : Execution) (rows : List OutboxMessage)
        → Has (key_of m) rows
        → Logged id (change e).status rows)
    → Recorded d
    → Recorded (transition id allowed change row_id key m d).1
unfolding transition
transition-Recorded id allowed change row_id key m d h r = by_row (d.executions id)
  where
    by_row :
        (o : Option Execution)
        → Recorded (change_and_record o id allowed change (persist_outbox_event row_id key m) d).1
    by_row none = r
    by_row (some old) = elim (Bool-cases (allowed old.status)) [
      | inl allows ↦
          let moved = record d { executions = put d.executions id (change old) } in
          let stored = (persist_outbox_event row_id key m moved).1 in
          rw allows (
            Recorded-put id (change old) d stored (persist-executions row_id key m moved)
              (persist-Extends row_id key m moved)
              (h old stored.outbox (persist-Has row_id key m moved)) r)
      | inr denies ↦ rw denies r
    ]

-- The outbox grows by a transition's event.
pub transition-Extends :
    (id : String) (allowed : ExecutionStatus → Bool) (change : Execution → Execution)
    (row_id : String) (key : RoutingKey) (m : Message) (d : Db)
    → Extends d.outbox (transition id allowed change row_id key m d).1.outbox
unfolding transition
transition-Extends id allowed change row_id key m d = by_row (d.executions id)
  where
    by_row :
        (o : Option Execution)
        → Extends d.outbox
            (change_and_record o id allowed change (persist_outbox_event row_id key m) d).1.outbox
    by_row none = Extends-refl d.outbox
    by_row (some old) = elim (Bool-cases (allowed old.status)) [
      | inl allows ↦ rw allows (
          persist-Extends row_id key m (record d { executions = put d.executions id (change old) }))
      | inr denies ↦ rw denies (Extends-refl d.outbox)
    ]
