-- ===== src/Worker/Outbox/Live.antt =====
-- A row that waits in the outbox has attempts left.
use vigil_summit_agent.Prelude.{
  ℕ, ◌<◌, String, true, Option, none, some, List, [], ◌∷◌, ◌≡◌, find, All, All-append, arith,
  Bool-cases, inl, inr, ◌=ₛ◌,
}
use vigil_summit_agent.Contracts.Message.{RoutingKey, Message}
use vigil_summit_agent.Worker.State.{OutboxMessage, Db}
use vigil_summit_agent.Worker.Keeps.{Guarantee, about_db}
use vigil_summit_agent.Worker.Outbox.{
  is_pending, max_publish_attempts, update_rows, write_rows, mark_failed, mark_published, new_row,
  key_of, has_key, upsert_row, persist_outbox_event,
}
use vigil_summit_agent.Worker.Outbox.Rows.{OutboxSafe}

-- Pending only below the limit.
abbrev pub IsLive : OutboxMessage → Type 0
IsLive row = is_pending row.status ≡ true → row.attempts < max_publish_attempts

abbrev pub Live : Db → Type 0
Live d = All IsLive d.outbox

abbrev pub KeepsLive : Guarantee
KeepsLive = about_db (λ d d'. Live d → Live d') (λ d l. l) (λ a b c p q l. q (p l))

mark_failed-IsLive :
    (seen : OutboxMessage) (message : String) (row : OutboxMessage)
    → IsLive (mark_failed seen message row)
unfolding mark_failed
mark_failed-IsLive seen message row h = ground arith

mark_published-IsLive : (at : ℕ) (row : OutboxMessage) → IsLive (mark_published at row)
unfolding mark_published
mark_published-IsLive at row h = ground arith

update_rows-All :
    (id : String) (f : OutboxMessage → OutboxMessage) (rows : List OutboxMessage)
    → ((row : OutboxMessage) → IsLive (f row))
    → All IsLive rows
    → All IsLive (update_rows id f rows)
update_rows-All id f [] h l = tt
update_rows-All id f (row ∷ rows) h (p, l) = elim (Bool-cases (row.id =ₛ id)) [
  | inl same ↦ rw same (h row, update_rows-All id f rows h l)
  | inr other ↦ rw other (p, update_rows-All id f rows h l)
]

pub persist-Live :
    (id : String) (key : RoutingKey) (m : Message) (d : Db)
    → Live d
    → Live (persist_outbox_event id key m d).1
unfolding persist_outbox_event
persist-Live id key m d l = by_row (find (has_key (key_of m)) d.outbox)
  where
    by_row : (o : Option OutboxMessage) → Live (upsert_row o (new_row id key m) d).1
    by_row none = All-append IsLive d.outbox _ l (unfold new_row in (λ h. omega arith), tt)
    by_row (some old) = l

pub Live-safe : OutboxSafe KeepsLive
unfolding write_rows
Live-safe = record {
  failed = λ seen message d s l.
      update_rows-All seen.id (mark_failed seen message) d.outbox (mark_failed-IsLive seen message)
        l;
  published =
      λ id at d s l. update_rows-All id (mark_published at) d.outbox (mark_published-IsLive at) l;
}
