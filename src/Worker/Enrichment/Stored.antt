-- ===== src/Worker/Enrichment/Stored.antt =====
-- The transaction that stores the result of an enrichment, and what it leaves in the outbox.
use vigil_summit_agent.Prelude.{
  find-cases, ap, Bool, not, ◌&&◌, Bool-cases, ℕ, String, true, Option, none, some, List, [], ◌∷◌,
  ◌++◌, ◌≡◌, refl, inl, inr, find, is_some, ◌=ₛ◌, ◌<>◌, arith, eq_refl,
}
use vigil_summit_agent.Contracts.Message.{Message}
use vigil_summit_agent.Engagement.Policy.{event_communication}
use vigil_summit_agent.Engagement.Qualification.{QualificationStatus, TextOps}
use vigil_summit_agent.Engagement.Enroll.{has_consent, is_disqualified, enroll, qualify_and_enroll}
use vigil_summit_agent.Engagement.Tables.{
  Registration, Event, Tables, Snapshot, Services, EnrichmentResult,
}
use vigil_summit_agent.Worker.State.{Db, OutboxMessage}
use vigil_summit_agent.Worker.Outbox.{has_key, key_of, new_row, upsert_row, persist_outbox_event}
use vigil_summit_agent.Worker.Enrichment.{
  update_where, EnrichmentCommand, Context, is_done, update_found, to_enriched, store_result,
  store_rest, completed_message,
}

find-appended :
    (k : String) (row : OutboxMessage) (rows : List OutboxMessage)
    → has_key k row ≡ true
    → is_some (find (has_key k) (rows ++ row ∷ [])) ≡ true
find-appended k row [] h = ground (arith, h)
find-appended k row (r ∷ rows) h = ground (arith, find-appended k row rows h)

-- After it there is a row of the outbox with the key of the message.
persist-present :
    (id : String) (m : Message) (d : Db)
    → is_some (find (has_key (key_of m)) (persist_outbox_event id m.event_name m d).1.outbox) ≡ true
unfolding persist_outbox_event new_row
persist-present id m d = by_row (find (has_key (key_of m)) d.outbox) refl
  where
    row : OutboxMessage
    row = new_row id m.event_name m

    by_row :
        (o : Option OutboxMessage)
        → find (has_key (key_of m)) d.outbox ≡ o
        → is_some (find (has_key (key_of m)) (upsert_row o row d).1.outbox) ≡ true
    by_row none h = find-appended (key_of m) row d.outbox (eq_refl (key_of m))
    by_row (some r) h = rw h refl

persist-engagement :
    (id : String) (m : Message) (d : Db)
    → (persist_outbox_event id m.event_name m d).1.engagement ≡ d.engagement
unfolding persist_outbox_event
persist-engagement id m d = by_row (find (has_key (key_of m)) d.outbox)
  where
    by_row :
        (o : Option OutboxMessage)
        → (upsert_row o (new_row id m.event_name m) d).1.engagement ≡ d.engagement
    by_row none = refl
    by_row (some row) = refl

enroll-snapshots :
    (r : Registration) (event : Event) (q : String) (new_id : String → String) (at : ℕ)
    (status : QualificationStatus) (t : Tables)
    → (enroll r event q new_id at status t).snapshots ≡ t.snapshots
unfolding enroll
enroll-snapshots r event q new_id at status t =
    elim (Bool-cases (
      has_consent r.event_id r.lead_id event_communication t.consents
      && not (is_disqualified status))) [
        | inl allowed ↦ rw allowed refl
        | inr denied ↦ rw denied refl
      ]

qualify_and_enroll-snapshots :
    (ops : TextOps) (r : Registration) (event : Event) (snapshot_id : String)
    (new_id : String → String) (at : ℕ) (result : EnrichmentResult) (t : Tables)
    → (qualify_and_enroll ops r event snapshot_id new_id at result t).snapshots ≡ t.snapshots
unfolding qualify_and_enroll
qualify_and_enroll-snapshots ops r event snapshot_id new_id at result t =
    enroll-snapshots r event _ new_id at _ _

abbrev by_id : String → Snapshot → Bool
by_id id s = s.id =ₛ id

-- The row that an update finds is found again, with the new columns.
find-update_where :
    (id : String) (result : EnrichmentResult) (at : ℕ) (s : Snapshot) (rows : List Snapshot)
    → find (by_id id) rows ≡ some s
    → find (by_id id) (update_where (by_id id) (to_enriched result at) rows)
      ≡ some (to_enriched result at s)
unfolding to_enriched
find-update_where id result at s [] h = ground (arith, h)
find-update_where id result at s (x ∷ rows) h = elim (find-cases (by_id id) x s rows h) [
  | inl (here, same) ↦
      rw here (rw here (ap (λ y. some (unfold to_enriched in to_enriched result at y)) same))
  | inr (other, rest) ↦ rw other (rw other (find-update_where id result at s rows rest))
]

-- What the transaction leaves, by the row that the snapshot has before it: nothing new without a row,
-- and otherwise the row with the result, and the event.
abbrev pub Stored :
    String → EnrichmentResult → String → Db → Option Snapshot × Db → Option Snapshot → Type 0
Stored id result key d stored none = stored ≡ (none, d)
Stored id result key d stored (some s) =
    (x : Snapshot) × (stored.0 ≡ some x)
    × (find (by_id id) stored.1.engagement.snapshots ≡ some x)
    × (is_done x.status ≡ true)
    × (x.result ≡ some result)
    × (x.registration_id ≡ s.registration_id)
    × (is_some (find (has_key key) stored.1.outbox) ≡ true)

-- The transaction of `processLeadEnrichment`. If the table has no row of the snapshot's id, it changes no
-- table. If it has one, then in the tables after it that row has SUCCEEDED with the provider's result,
-- for the same registration, it is the row that the transaction returns, and the outbox holds the event
-- `lead.enrichment.completed:<registration>` of the command.
pub store_result-stores :
    (services : Services) (c : Context) (snapshot : Snapshot) (new_id : String → String) (at : ℕ)
    (result : EnrichmentResult) (request : EnrichmentCommand) (event_id : String) (d : Db)
    → Stored snapshot.id result
        ("lead.enrichment.completed:" <> request.registration_id)
        d
        (store_result services c snapshot new_id at result
          (completed_message request snapshot.id result event_id at)
          d)
        (find (by_id snapshot.id) d.engagement.snapshots)
unfolding store_result to_enriched completed_message key_of
store_result-stores services c snapshot new_id at result request event_id d =
    by_row (find (by_id snapshot.id) d.engagement.snapshots) refl
  where
    message : Message
    message = completed_message request snapshot.id result event_id at

    by_row :
        (o : Option Snapshot)
        → find (by_id snapshot.id) d.engagement.snapshots ≡ o
        → Stored snapshot.id result
            ("lead.enrichment.completed:" <> request.registration_id)
            d
            (store_rest services c snapshot new_id at result message
              (update_found snapshot.id (to_enriched result at) o d))
            o
    by_row none h = refl
    by_row (some s) h = (
      _,
      refl,
      rw (persist-engagement (new_id "outbox") message _) (
          rw
            (qualify_and_enroll-snapshots services.text_ops c.registration c.event snapshot.id
              new_id at result _)
            (find-update_where snapshot.id result at s d.engagement.snapshots h)),
      refl,
      refl,
      refl,
      persist-present (new_id "outbox") message _,
    )
