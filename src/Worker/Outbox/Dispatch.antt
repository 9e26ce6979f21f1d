-- ===== src/Worker/Outbox/Dispatch.antt =====
-- `dispatchPendingOutboxMessages`: a row that cannot be published does not stop the others.
use vigil_summit_agent.Prelude.{
  ℕ, suc, ◌+◌, ◌≤◌, String, List, [], ◌∷◌, ◌≡◌, refl, length, length-take-le, arith,
}
use vigil_summit_agent.Worker.State.{
  OutboxMessage, World, Turn, Error, others, fault, other_error, Env,
}
use vigil_summit_agent.Worker.Effects.{Outcome, ok, thrown, tick, ◌>>=◌, access, pure}
use vigil_summit_agent.Worker.Triples.{
  Post, Ensures, Ensures-any, Ensures-try_then, Ensures-pure, Ensures-weaken,
}
use vigil_summit_agent.Worker.Outbox.{
  Dispatched, due_rows, dispatch_outbox_event, dispatch_rows, dispatch_pending_outbox_messages,
}

-- The loop does not throw, and counts every row once.
dispatch_rows-counts :
    (env : Env) (rows : List OutboxMessage) (failed published : ℕ)
    → Ensures env
        (λ w. Unit)
        (dispatch_rows rows failed published)
        (λ c w. c.0 + c.1 ≡ failed + published + length rows)
        (λ e w. ⊥)
unfolding dispatch_rows
dispatch_rows-counts env [] failed published = Ensures-pure _ (λ w p. omega arith)
dispatch_rows-counts env (row ∷ rows) failed published =
    Ensures-try_then _ _ _ (Ensures-any (dispatch_outbox_event row))
      (λ u.
        Ensures-weaken _ (λ w p. p) (λ c w q. omega (arith, q)) (λ e w q. q)
          (dispatch_rows-counts env rows failed (published + 1)))
      (λ e.
        Ensures-weaken _ (λ w p. p) (λ c w q. omega (arith, q)) (λ e' w q. q)
          (dispatch_rows-counts env rows (failed + 1) published))

due_rows-le :
    (batch_size : ℕ) (rows : List OutboxMessage) → length (due_rows batch_size rows) ≤ batch_size
unfolding due_rows
due_rows-le batch_size rows = length-take-le batch_size _

-- A cycle within the batch size that counts every row.
abbrev pub Counted : ℕ → Dispatched → World → Type 0
Counted batch_size r w' = (r.failed + r.published ≡ r.fetched) × (r.fetched ≤ batch_size)

-- The query, which is the first database call, fails.
abbrev pub QueryFailed : Env → World → Error → World → Type 0
QueryFailed env w e w' = (message : String) × (env.turn w.step ≡ fault message)

-- Whatever the broker and the database answer for a row: the dispatcher throws only where the query
-- for the pending rows itself fails. Else it returns, it has fetched no more rows than the batch size,
-- and each fetched row counts either as published or as failed.
pub dispatch_pending_outbox_messages-counts :
    (batch_size : ℕ) (env : Env) (w : World)
    → Post
        (Counted batch_size)
        (QueryFailed env w)
        (dispatch_pending_outbox_messages batch_size env w)
unfolding dispatch_pending_outbox_messages ◌>>=◌ access pure
dispatch_pending_outbox_messages-counts batch_size env w = by_turn (env.turn w.step) refl
  where
    counted :
        (rows : List OutboxMessage)
        → length rows ≤ batch_size
        → (o : Outcome (ℕ × ℕ)) → Post (λ c w'. c.0 + c.1 ≡ 0 + 0 + length rows) (λ e w'. ⊥) o
        → Post (Counted batch_size) (QueryFailed env w) (elim o [
          | ok c w' ↦ ok (record { fetched = length rows; failed = c.0; published = c.1 }) w'
          | thrown e w' ↦ thrown e w'
        ])
    counted rows bound (ok c w') q = (omega (arith, q), bound)
    counted rows bound (thrown e w') q = absurd q

    by_turn :
        (t : Turn)
        → env.turn w.step ≡ t
        → Post
            (Counted batch_size)
            (QueryFailed env w)
            (elim (elim t as (λ t'. Outcome (List OutboxMessage)) [
              | others g ↦
                  ok
                    (due_rows batch_size (g w.db).outbox)
                    (record w { db = g w.db; step = suc w.step })
              | fault message ↦ thrown (other_error message) (tick w)
            ]) [
              | ok rows w' ↦
                  (dispatch_rows rows 0 0 >>= λ c.
                  pure (record { fetched = length rows; failed = c.0; published = c.1 }))
                    env w'
              | thrown e w' ↦ thrown e w'
            ])
    by_turn (others g) at =
        let w' = record w { db = g w.db; step = suc w.step } in
        let rows = due_rows batch_size (g w.db).outbox in
        counted rows (due_rows-le batch_size (g w.db).outbox) (dispatch_rows rows 0 0 env w')
          ((dispatch_rows-counts env rows 0 0).at w' tt)
    by_turn (fault message) at = (message, at)
