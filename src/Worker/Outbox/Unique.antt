-- ===== src/Worker/Outbox/Unique.antt =====
-- No two rows of the outbox have the same idempotency key.
use vigil_summit_agent.Prelude.{
  any-last, String, false, ◌||◌, Option, none, some, List, [], ◌∷◌, ◌++◌, ◌≡◌, refl, sym, ap, ◌∙◌,
  any, find, arith, Bool-cases, inl, inr, ◌=ₛ◌, eq_iff,
}
use vigil_summit_agent.Contracts.Message.{RoutingKey, Message}
use vigil_summit_agent.Worker.State.{OutboxMessage, Db}
use vigil_summit_agent.Worker.Keeps.{Guarantee, about_db}
use vigil_summit_agent.Worker.Outbox.{
  update_rows, write_rows, mark_failed, mark_published, new_row, key_of, has_key, upsert_row,
  persist_outbox_event,
}
use vigil_summit_agent.Worker.Outbox.Rows.{
  OutboxSafe, Harmless, mark_failed-Harmless, mark_published-Harmless,
}

abbrev pub Unique : List OutboxMessage → Type 0
Unique [] = Unit
Unique (row ∷ rows) = (any (has_key row.idempotency_key) rows ≡ false) × Unique rows

abbrev pub KeepsUnique : Guarantee
KeepsUnique =
    about_db (λ d d'. Unique d.outbox → Unique d'.outbox) (λ d u. u) (λ a b c p q u. q (p u))

any-update_rows :
    (k id : String) (f : OutboxMessage → OutboxMessage) (rows : List OutboxMessage)
    → Harmless f
    → any (has_key k) (update_rows id f rows) ≡ any (has_key k) rows
any-update_rows k id f [] h = refl
any-update_rows k id f (row ∷ rows) h = elim (Bool-cases (row.id =ₛ id)) [
  | inl same ↦
      rw (same, any-update_rows k id f rows h)
        (ap (λ x. (x =ₛ k) || any (has_key k) rows) (sym (h row).idempotency_key))
  | inr other ↦ rw (other, any-update_rows k id f rows h) refl
]

update_rows-Unique :
    (id : String) (f : OutboxMessage → OutboxMessage) (rows : List OutboxMessage)
    → Harmless f
    → Unique rows
    → Unique (update_rows id f rows)
update_rows-Unique id f [] h u = tt
update_rows-Unique id f (row ∷ rows) h (new, u) = elim (Bool-cases (row.id =ₛ id)) [
  | inl same ↦ rw same (
    ap (λ x. any (has_key x) (update_rows id f rows)) (sym (h row).idempotency_key)
        ∙ any-update_rows row.idempotency_key id f rows h
        ∙ new,
    update_rows-Unique id f rows h u,
  )
  | inr other ↦
      rw other
        (any-update_rows row.idempotency_key id f rows h ∙ new, update_rows-Unique id f rows h u)
]

append-Unique :
    (rows : List OutboxMessage) (row : OutboxMessage)
    → find (has_key row.idempotency_key) rows ≡ none
    → Unique rows
    → Unique (rows ++ row ∷ [])
append-Unique [] row missing u = (refl, tt)
append-Unique (x ∷ xs) row missing (new, u) =
    elim (Bool-cases (x.idempotency_key =ₛ row.idempotency_key)) [
      | inl same ↦ cc (rw same at missing)
      | inr other ↦ (
        rw (any-last (has_key x.idempotency_key) xs row, new)
            (ground (
              arith,
              other,
              eq_iff x.idempotency_key row.idempotency_key,
              eq_iff row.idempotency_key x.idempotency_key,
            )),
        append-Unique xs row (rw other at missing) u,
      )
    ]

pub persist-Unique :
    (id : String) (key : RoutingKey) (m : Message) (d : Db)
    → Unique d.outbox
    → Unique (persist_outbox_event id key m d).1.outbox
unfolding persist_outbox_event
persist-Unique id key m d u = by_row (find (has_key (key_of m)) d.outbox) refl
  where
    by_row :
        (o : Option OutboxMessage)
        → find (has_key (key_of m)) d.outbox ≡ o
        → Unique (upsert_row o (new_row id key m) d).1.outbox
    by_row none missing = append-Unique d.outbox (new_row id key m) (unfold new_row in missing) u
    by_row (some old) found = u

pub Unique-safe : OutboxSafe KeepsUnique
unfolding write_rows
Unique-safe = record {
  failed = λ seen message d s u.
      update_rows-Unique seen.id (mark_failed seen message) d.outbox
        (mark_failed-Harmless seen message) u;
  published = λ id at d s u.
      update_rows-Unique id (mark_published at) d.outbox (mark_published-Harmless at) u;
}
