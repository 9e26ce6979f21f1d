-- ===== src/Worker/Outbox/Rows.antt =====
-- The outbox is only appended to, and what a row says is never changed.
use vigil_summit_agent.Prelude.{
  ℕ, ◌+◌, String, Bool, true, false, Option, none, some, List, [], ◌∷◌, ◌++◌, ◌≡◌, refl, ◌∙◌, ◌=ₛ◌,
  find, arith, Bool-cases, inl, inr,
}
use vigil_summit_agent.Contracts.Message.{RoutingKey, Message}
use vigil_summit_agent.Worker.State.{Settlement, OutboxMessage, Db}
use vigil_summit_agent.Worker.Effects.{access}
use vigil_summit_agent.Worker.Keeps.{
  Guarantee, about_db, Keeps, Keeps-access, Keeps-bind, Keeps-pure, Keeps-try_then, Keeps-now,
  Keeps-for_each, keeps_rules,
}
use vigil_summit_agent.Worker.Outbox.{
  has_key, upsert_row, persist_outbox_event, new_row, key_of, update_rows, require_found,
  write_rows, update_outbox, mark_failed, mark_published, mark_outbox_publish_failure,
  after_publish, dispatch_outbox_event, dispatch_rows, dispatch_pending_outbox_messages,
  dispatch_pending_execution_outbox, due_rows, pending_of_execution,
}

-- Same identity and same content.
pub record SameMessage (a b : OutboxMessage) : Type 0 where
  pub id : a.id ≡ b.id
  pub exchange : a.exchange ≡ b.exchange
  pub routing_key : a.routing_key ≡ b.routing_key
  pub message_id : a.message_id ≡ b.message_id
  pub idempotency_key : a.idempotency_key ≡ b.idempotency_key
  pub payload : a.payload ≡ b.payload
  pub headers : a.headers ≡ b.headers

SameMessage-refl : (a : OutboxMessage) → SameMessage a a
SameMessage-refl a = record {
  id = refl;
  exchange = refl;
  routing_key = refl;
  message_id = refl;
  idempotency_key = refl;
  payload = refl;
  headers = refl;
}

SameMessage-trans : {a b c : OutboxMessage} → SameMessage a b → SameMessage b c → SameMessage a c
SameMessage-trans p q = record {
  id = p.id ∙ q.id;
  exchange = p.exchange ∙ q.exchange;
  routing_key = p.routing_key ∙ q.routing_key;
  message_id = p.message_id ∙ q.message_id;
  idempotency_key = p.idempotency_key ∙ q.idempotency_key;
  payload = p.payload ∙ q.payload;
  headers = p.headers ∙ q.headers;
}

-- The second outbox has the rows of the first, in place and with the same messages, and maybe more.
abbrev pub Extends : List OutboxMessage → List OutboxMessage → Type 0
Extends [] ys = Unit
Extends (x ∷ xs) [] = ⊥
Extends (x ∷ xs) (y ∷ ys) = SameMessage x y × Extends xs ys

pub Extends-refl : (xs : List OutboxMessage) → Extends xs xs
Extends-refl [] = tt
Extends-refl (x ∷ xs) = (SameMessage-refl x, Extends-refl xs)

pub Extends-trans : (xs ys zs : List OutboxMessage) → Extends xs ys → Extends ys zs → Extends xs zs
Extends-trans [] ys zs p q = tt
Extends-trans (x ∷ xs) [] zs p q = absurd p
Extends-trans (x ∷ xs) (y ∷ ys) [] p q = absurd q
Extends-trans (x ∷ xs) (y ∷ ys) (z ∷ zs) (p, ps) (q, qs) =
    (SameMessage-trans p q, Extends-trans xs ys zs ps qs)

pub Extends-append : (xs ys : List OutboxMessage) → Extends xs (xs ++ ys)
Extends-append [] ys = tt
Extends-append (x ∷ xs) ys = (SameMessage-refl x, Extends-append xs ys)

abbrev pub OutboxGrows : Guarantee
OutboxGrows =
    about_db (λ d e. Extends d.outbox e.outbox) (λ d. Extends-refl d.outbox)
      (λ a b c. Extends-trans a.outbox b.outbox c.outbox)

-- A change of a row that leaves its message alone.
abbrev pub Harmless : (OutboxMessage → OutboxMessage) → Type 0
Harmless f = (row : OutboxMessage) → SameMessage row (f row)

pub mark_failed-Harmless :
    (seen : OutboxMessage) (message : String) → Harmless (mark_failed seen message)
unfolding mark_failed
mark_failed-Harmless seen message row = ground arith

pub mark_published-Harmless : (at : ℕ) → Harmless (mark_published at)
unfolding mark_published
mark_published-Harmless at row = ground arith

update_rows-Extends :
    (id : String) (f : OutboxMessage → OutboxMessage) (rows : List OutboxMessage)
    → Harmless f
    → Extends rows (update_rows id f rows)
update_rows-Extends id f [] h = tt
update_rows-Extends id f (row ∷ rows) h = elim (Bool-cases (row.id =ₛ id)) [
  | inl same ↦ rw same (h row, update_rows-Extends id f rows h)
  | inr other ↦ rw other (SameMessage-refl row, update_rows-Extends id f rows h)
]

pub persist-Extends :
    (id : String) (key : RoutingKey) (m : Message) (d : Db)
    → Extends d.outbox (persist_outbox_event id key m d).1.outbox
unfolding persist_outbox_event
persist-Extends id key m d = step (find (has_key (key_of m)) d.outbox)
  where
    step :
        (o : Option OutboxMessage) → Extends d.outbox (upsert_row o (new_row id key m) d).1.outbox
    step none = Extends-append d.outbox _
    step (some old) = Extends-refl d.outbox

-- A guarantee that the two updates of a row keep.
pub record OutboxSafe (G : Guarantee) : Type 0 where
  pub failed :
      (seen : OutboxMessage) (message : String) (d : Db) (s : List Settlement)
      → G.rel (d, s) ((write_rows seen.id (mark_failed seen message) d).1, s)
  pub published :
      (id : String) (at : ℕ) (d : Db) (s : List Settlement)
      → G.rel (d, s) ((write_rows id (mark_published at) d).1, s)

module _ {G : Guarantee} (safe : OutboxSafe G) where
  Keeps-require_found : (o : Option OutboxMessage) → Keeps G (require_found o)
  unfolding require_found
  Keeps-require_found none = search keeps_rules
  Keeps-require_found (some row) = search keeps_rules

  Keeps-update_outbox :
      (id : String) (f : OutboxMessage → OutboxMessage)
      → ((d : Db) (s : List Settlement) → G.rel (d, s) ((write_rows id f d).1, s))
      → Keeps G (update_outbox id f)
  unfolding update_outbox
  Keeps-update_outbox id f h = Keeps-bind _ _ (Keeps-access (write_rows id f) h) Keeps-require_found

  Keeps-mark_outbox_publish_failure :
      (row : OutboxMessage) (message : String) → Keeps G (mark_outbox_publish_failure row message)
  unfolding mark_outbox_publish_failure
  Keeps-mark_outbox_publish_failure row message =
      Keeps-update_outbox row.id (mark_failed row message) (safe.failed row message)

  Keeps-after_publish : (row : OutboxMessage) (b : Bool) → Keeps G (after_publish row b)
  unfolding after_publish
  Keeps-after_publish row true =
      Keeps-bind _ _ Keeps-now
        (λ at. Keeps-update_outbox row.id (mark_published at) (safe.published row.id at))
  Keeps-after_publish row false = search (keeps_rules, Keeps-mark_outbox_publish_failure)

  pub Keeps-dispatch_outbox_event : (row : OutboxMessage) → Keeps G (dispatch_outbox_event row)
  unfolding dispatch_outbox_event
  Keeps-dispatch_outbox_event row =
      search (keeps_rules, Keeps-mark_outbox_publish_failure, Keeps-after_publish)

  Keeps-dispatch_rows :
      (rows : List OutboxMessage) (failed published : ℕ)
      → Keeps G (dispatch_rows rows failed published)
  unfolding dispatch_rows
  Keeps-dispatch_rows [] failed published = Keeps-pure _
  Keeps-dispatch_rows (row ∷ rows) failed published =
      Keeps-try_then _ _ _ (Keeps-dispatch_outbox_event row)
        (λ _. Keeps-dispatch_rows rows failed (published + 1))
        (λ _. Keeps-dispatch_rows rows (failed + 1) published)

  -- Reading changes nothing.
  pub Keeps-read : {A : Type 0} (f : Db → A) → Keeps G (access (λ d. (f d, d)))
  Keeps-read f = Keeps-access (λ d. (f d, d)) (λ d s. G.same (d, s))

  pub Keeps-dispatch_pending_outbox_messages :
      (batch_size : ℕ) → Keeps G (dispatch_pending_outbox_messages batch_size)
  unfolding dispatch_pending_outbox_messages
  Keeps-dispatch_pending_outbox_messages batch_size =
      Keeps-bind _ _ (Keeps-read (λ d. due_rows batch_size d.outbox))
        (λ rows. Keeps-bind _ _ (Keeps-dispatch_rows rows 0 0) (λ c. Keeps-pure _))

  pub Keeps-dispatch_pending_execution_outbox :
      (id : String) → Keeps G (dispatch_pending_execution_outbox id)
  unfolding dispatch_pending_execution_outbox
  Keeps-dispatch_pending_execution_outbox id =
      Keeps-bind _ _ (Keeps-read (λ d. pending_of_execution id d.outbox))
        (λ rows. Keeps-for_each rows dispatch_outbox_event Keeps-dispatch_outbox_event)

write-Extends :
    (id : String) (f : OutboxMessage → OutboxMessage) (d : Db)
    → Harmless f
    → Extends d.outbox (write_rows id f d).1.outbox
unfolding write_rows
write-Extends id f d h = update_rows-Extends id f d.outbox h

pub OutboxGrows-safe : OutboxSafe OutboxGrows
OutboxGrows-safe = record {
  failed = λ seen message d s. write-Extends seen.id _ d (mark_failed-Harmless seen message);
  published = λ id at d s. write-Extends id _ d (mark_published-Harmless at);
}
