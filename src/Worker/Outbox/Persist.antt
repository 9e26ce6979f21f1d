-- ===== src/Worker/Outbox/Persist.antt =====
-- `persistOutboxEvent` is idempotent: one row for each idempotency key.
use vigil_summit_agent.Prelude.{
  String, Option, none, some, List, [], ◌∷◌, ◌++◌, ◌≡◌, refl, find, arith, eq_refl,
}
use vigil_summit_agent.Contracts.Message.{RoutingKey, Message}
use vigil_summit_agent.Worker.State.{OutboxMessage, Db}
use vigil_summit_agent.Worker.Outbox.{has_key, key_of, new_row, upsert_row, persist_outbox_event}

find-last :
    (k : String) (rows : List OutboxMessage) (row : OutboxMessage)
    → find (has_key k) rows ≡ none
    → row.idempotency_key ≡ k
    → find (has_key k) (rows ++ row ∷ []) ≡ some row
find-last k [] row missing h = rw h (rw eq_refl refl)
find-last k (x ∷ xs) row missing h = ground (arith, find-last k xs row)

-- Whatever the outbox holds: after an event is persisted, a second call with an event of the same
-- idempotency key gives the row that the first call gave and changes nothing, whatever its row id,
-- routing key and content are.
pub persist_outbox_event_idem :
    (id id' : String) (key key' : RoutingKey) (m m' : Message) (d : Db)
    → key_of m' ≡ key_of m
    → persist_outbox_event id' key' m' (persist_outbox_event id key m d).1
      ≡ persist_outbox_event id key m d
unfolding persist_outbox_event
persist_outbox_event_idem id id' key key' m m' d same =
    rw same (by_row (find (has_key (key_of m)) d.outbox) refl)
  where
    by_row :
        (o : Option OutboxMessage)
        → find (has_key (key_of m)) d.outbox ≡ o
        → upsert_row
            (find (has_key (key_of m)) (upsert_row o (new_row id key m) d).1.outbox)
            (new_row id' key' m')
            (upsert_row o (new_row id key m) d).1
          ≡ upsert_row o (new_row id key m) d
    by_row none missing =
        rw (find-last (key_of m) d.outbox (new_row id key m) missing (unfold new_row in refl)) refl
    by_row (some row) found = rw found refl
