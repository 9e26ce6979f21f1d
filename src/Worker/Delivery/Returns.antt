-- ===== src/Worker/Delivery/Returns.antt =====
-- The delivery handler throws only where the broker refuses a publication.
use vigil_summit_agent.Prelude.{
  and-second, ℕ, zero, suc, ◌+◌, ◌-◌, Option, none, some, ◌≡◌, refl, true, false, ltb, get_elem?,
  arith, [], ◌∷◌, ◌++◌,
}
use vigil_summit_agent.Contracts.Message.{Failure, Command, max_retry_attempts}
use vigil_summit_agent.Worker.State.{
  Settlement, Publication, World, Answer, accepted, backpressure, rejected, Env, acked, requeued,
  other_error,
}
use vigil_summit_agent.Worker.Effects.{
  M, Outcome, ok, thrown, tick, settle, publish, ask, ◌>>=◌, ◌>>◌,
}
use vigil_summit_agent.Worker.Triples.{
  Post, Ensures, Ensures-any, Ensures-bind, Ensures-if, Ensures-try_catch,
}
use vigil_summit_agent.Worker.Trace.{normalize_worker_failure}
use vigil_summit_agent.Worker.Execution.{process_workflow_execution}
use vigil_summit_agent.Worker.Command.{Delivery, parse_command, retry_attempt}
use vigil_summit_agent.Worker.Delivery.{
  RetryQueue, retry_queues, retry_publication, raw_dead_letter, publish_to, publish_retry_command,
  give_up, on_failure, handle_error, handle_parsed, handle_delivery,
}

abbrev Accepts : Answer → Type 0
Accepts accepted = Unit
Accepts backpressure = Unit
Accepts (rejected _) = ⊥

-- `channel.publish`, `ack` and `nack` never throw; a publication may meet backpressure.
abbrev pub Reachable : Env → Type 0
Reachable env = (n : ℕ) → Accepts (env.broker n)

-- There is a retry queue for each attempt below the limit.
pub retry_queue-defined :
    (attempt : ℕ)
    → ltb attempt max_retry_attempts ≡ true
    → (q : RetryQueue) × (get_elem? retry_queues (attempt + 1 - 1) ≡ some q)
retry_queue-defined zero h = (_, refl)
retry_queue-defined (suc zero) h = (_, refl)
retry_queue-defined (suc (suc zero)) h = (_, refl)
retry_queue-defined (suc (suc (suc n))) h = ground arith

module _ (env : Env) where
  -- It returns.
  abbrev Total : {A : Type 0} → M A → Type 0
  Total m = Ensures env (λ w. Unit) m (λ a w. Unit) (λ e w. ⊥)

  module _ (reachable : Reachable env) where
    settle-Total : (x : Settlement) → Total (settle x)
    unfolding settle
    settle-Total x = record { at = λ w u. answer w (env.broker w.step) (reachable w.step) }
      where
        answer :
            (w : World) (a : Answer)
            → Accepts a
            → Post {A = Unit {0}}
                (λ b w'. Unit)
                (λ e w'. ⊥)
                (elim a [
                  | accepted ↦ ok tt (record w { settled = w.settled ++ x ∷ []; step = suc w.step })
                  | backpressure ↦
                      ok tt (record w { settled = w.settled ++ x ∷ []; step = suc w.step })
                  | rejected message ↦ thrown (other_error message) (tick w)
                ])
        answer w accepted h = tt
        answer w backpressure h = tt
        answer w (rejected m) h = h

    publish-Total : (p : Publication) → Total (publish p)
    unfolding publish
    publish-Total p = record { at = λ w u. answer w (env.broker w.step) (reachable w.step) }
      where
        answer :
            (w : World) (a : Answer)
            → Accepts a
            → Post
                (λ b w'. Unit)
                (λ e w'. ⊥)
                (elim a [
                  | accepted ↦ ok true (record w { sent = w.sent ++ p ∷ []; step = suc w.step })
                  | backpressure ↦
                      ok false (record w { sent = w.sent ++ p ∷ []; step = suc w.step })
                  | rejected message ↦ thrown (other_error message) (tick w)
                ])
        answer w accepted h = tt
        answer w backpressure h = tt
        answer w (rejected m) h = h

    give_up-Total :
        (message : Command) (failure : Failure) (attempt : ℕ)
        → Total (give_up message failure attempt)
    unfolding give_up
    give_up-Total message failure attempt =
        Ensures-try_catch _ _ (Ensures-any _) (λ e. settle-Total requeued)

    publish_to-Total :
        (message : Command) (n : ℕ) (o : Option RetryQueue) (q : RetryQueue)
        → o ≡ some q
        → Total (publish_to message n o)
    unfolding publish_to
    publish_to-Total message n o q h = rw h (publish-Total (retry_publication message n q))

    on_failure-Total :
        (message : Command) (failure : Failure) (attempt : ℕ)
        → Total (on_failure message failure attempt)
    unfolding on_failure publish_retry_command
    on_failure-Total message failure attempt =
        Ensures-if _ _ _
          (λ t.
            let (q, h) = retry_queue-defined attempt (and-second _ _ t) in
            Ensures-bind _ _ (publish_to-Total message (attempt + 1) _ q h)
              (λ b. settle-Total acked))
          (λ f. give_up-Total message failure attempt)

    handle_parsed-Total :
        (delivery : Delivery) (o : Option Command) → Total (handle_parsed delivery o)
    unfolding handle_parsed handle_error on_failure ◌>>=◌ normalize_worker_failure ask
    handle_parsed-Total delivery none =
        Ensures-bind _ _ (publish-Total (raw_dead_letter delivery "invalid_payload"))
          (λ b. settle-Total acked)
    handle_parsed-Total delivery (some message) =
        Ensures-try_catch _ _ (Ensures-any (process_workflow_execution message >> settle acked))
          (λ e. record {
            at = λ w p.
                (on_failure-Total message (normalize_worker_failure e)
                    (retry_attempt env delivery)).at
                  w tt;
          })

returned : (o : Outcome (Unit {0})) → Post (λ u w. Unit) (λ e w. ⊥) o → (w : World) × (o ≡ ok tt w)
returned (ok tt w) p = (w, refl)
returned (thrown e w) p = absurd p

-- Whatever a delivery is, whatever the node executors, the orchestrator and the database answer or
-- however they fail: the handler returns, if no publication and no settlement is refused. In particular
-- a retry always finds its queue.
pub handle_delivery-returns :
    (delivery : Delivery) (env : Env) (w : World)
    → Reachable env
    → (w' : World) × (handle_delivery delivery env w ≡ ok tt w')
unfolding handle_delivery ask ◌>>=◌
handle_delivery-returns delivery env w reachable =
    returned _ ((handle_parsed-Total env reachable delivery (parse_command env delivery)).at w tt)
