-- ===== src/Worker/Delivery/Accounted.antt =====
-- What an acknowledged delivery has left behind, and that each delivery is settled once.
use vigil_summit_agent.Prelude.{
  ℕ, suc, ◌+◌, Option, none, some, List, [], ◌∷◌, ◌++◌, ◌≡◌, refl, ap, ◌⊎◌, inl, inr, get_elem?,
  ◌-◌, true, false, zero, String, arith, ltb, and-second,
}
use vigil_summit_agent.Json.{whole, num, get}
use vigil_summit_agent.Contracts.Message.{Failure, Command, max_retry_attempts, routing_key_text}
use vigil_summit_agent.Worker.Topology.{queue_of, bindings, enrichment_bindings}
use vigil_summit_agent.Worker.State.{
  Settlement, acked, requeued, Publication, World, Answer, accepted, backpressure, rejected,
  other_error, Env, command, raw,
}
use vigil_summit_agent.Worker.Effects.{ok, thrown, tick, settle, publish, ask, ◌>>=◌}
use vigil_summit_agent.Worker.Keeps.{view, Rely, Keeps-publish}
use vigil_summit_agent.Worker.Triples.{
  Post, Ensures, Ensures-weaken, Ensures-bind, Ensures-if, Ensures-throw, Ensures-try_catch,
  settle-Ensures,
}
use vigil_summit_agent.Worker.Trace.{normalize_worker_failure}
use vigil_summit_agent.Worker.Execution.Rows.{Advance}
use vigil_summit_agent.Worker.Execution.Advance.{Held, Held-Rely}
use vigil_summit_agent.Worker.Execution.Terminal.{
  Finished, process-Finished, fail-Finished, keep-Finished,
}
use vigil_summit_agent.Worker.Execution.Ended.{Ended}
use vigil_summit_agent.Worker.Command.{Delivery, parse_command, retry_attempt}
use vigil_summit_agent.Worker.Delivery.{
  RetryQueue, retry_queues, retry_publication, raw_dead_letter, publish_to, publish_retry_command,
  dead_letter, publish_command_dead_letter, give_up, on_failure, handle_error, handle_parsed,
  handle_delivery,
}

-- The last publication.
abbrev pub LastSent : Publication → World → Type 0
LastSent p w = (ps : List Publication) × (w.sent ≡ ps ++ p ∷ [])

-- The retry queue of an attempt: ten seconds, a minute, and then five.
abbrev pub retry_queue_of : ℕ → String
retry_queue_of (suc zero) = "flowpilot.retry.execution-worker.workflow-executions.10s"
retry_queue_of (suc (suc zero)) = "flowpilot.retry.execution-worker.workflow-executions.1m"
retry_queue_of _ = "flowpilot.retry.execution-worker.workflow-executions.5m"

-- A publication that waits in the retry queue of an attempt, with the body of the command and the number
-- of the attempt in the header that the worker reads.
abbrev pub Waits : Command → ℕ → Publication → Type 0
Waits message n p =
    (queue_of p.exchange p.routing_key ≡ some (retry_queue_of n))
    × (p.content ≡ command message.body)
    × (get p.headers "x-flowpilot-retry-attempt" ≡ some (num (whole n)))

-- A publication that goes to the dead letter queue, with the content of the delivery.
abbrev pub Buried : Delivery → Publication → Type 0
Buried delivery p =
    (queue_of p.exchange p.routing_key ≡ some "flowpilot.dlq.execution-worker.workflow-executions")
    × (p.content ≡ raw delivery.content)

-- What an acknowledgement stands for: an unreadable delivery is in the dead letter queue, and for a
-- command its execution is over or the next attempt is in its retry queue.
abbrev pub Done : ℕ → Delivery → Option Command → World → Type 0
Done attempt delivery none w = (p : Publication) × LastSent p w × Buried delivery p
Done attempt delivery (some message) w =
    Ended message.execution_id w.db
    ⊎ ((p : Publication) × LastSent p w × Waits message (attempt + 1) p)

abbrev IsWaiting : Command → ℕ → Option RetryQueue → Type 0
IsWaiting message attempt none = Unit
IsWaiting message attempt (some q) =
    Waits message (attempt + 1) (retry_publication message (attempt + 1) q)

retry_publication-Waits :
    (message : Command) (attempt : ℕ)
    → ltb attempt max_retry_attempts ≡ true
    → IsWaiting message attempt (get_elem? retry_queues (attempt + 1 - 1))
unfolding retry_publication queue_of bindings enrichment_bindings routing_key_text
retry_publication-Waits message zero h = (refl, refl, refl)
retry_publication-Waits message (suc zero) h = (refl, refl, refl)
retry_publication-Waits message (suc (suc zero)) h = (refl, refl, refl)
retry_publication-Waits message (suc (suc (suc n))) h = ground arith

raw_dead_letter-Buried :
    (delivery : Delivery)
    → delivery.routing_key ≡ "workflow.execution.requested"
    → Buried delivery (raw_dead_letter delivery "invalid_payload")
unfolding raw_dead_letter queue_of bindings enrichment_bindings routing_key_text
raw_dead_letter-Buried delivery h = (rw h refl, refl)

pub publish-LastSent :
    (env : Env) (s : List Settlement) (p : Publication)
    → Ensures env
        (λ w. w.settled ≡ s)
        (publish p)
        (λ b w. (w.settled ≡ s) × LastSent p w)
        (λ e w. w.settled ≡ s)
unfolding publish
publish-LastSent env s p = record { at = λ w q. answer w q (env.broker w.step) }
  where
    answer :
        (w : World)
        → w.settled ≡ s
        → (a : Answer)
        → Post
            (λ b w'. (w'.settled ≡ s) × LastSent p w')
            (λ e w'. w'.settled ≡ s)
            (elim a [
              | accepted ↦ ok true (record w { sent = w.sent ++ p ∷ []; step = suc w.step })
              | backpressure ↦ ok false (record w { sent = w.sent ++ p ∷ []; step = suc w.step })
              | rejected message ↦ thrown (other_error message) (tick w)
            ])
    answer w q accepted = (q, (w.sent, refl))
    answer w q backpressure = (q, (w.sent, refl))
    answer w q (rejected m) = q

module _ (env : Env) (r : Rely Held env) (s : List Settlement) where
  -- Settled once: put back into the queue, or acknowledged with `P`.
  abbrev Settled : (World → Type 0) → World → Type 0
  Settled P w = (w.settled ≡ s ++ requeued ∷ []) ⊎ ((w.settled ≡ s ++ acked ∷ []) × P w)

  acked-Settled :
      (P : World → Type 0)
      → ((w : World) (x : List Settlement) (n : ℕ) → P w → P (record w { settled = x; step = n }))
      → Ensures env
          (λ w. (w.settled ≡ s) × P w)
          (settle acked)
          (λ u w. Settled P w)
          (λ e w. w.settled ≡ s)
  acked-Settled P h =
      settle-Ensures env acked _ _ _ (λ w (q, p). inr (ap (λ x. x ++ acked ∷ []) q, h w _ _ p))
        (λ w (q, p). q)

  requeued-Settled :
      (P : World → Type 0)
      → Ensures env
          (λ w. w.settled ≡ s)
          (settle requeued)
          (λ u w. Settled P w)
          (λ e w. w.settled ≡ s)
  requeued-Settled P =
      settle-Ensures env requeued _ _ _ (λ w q. inl (ap (λ x. x ++ requeued ∷ []) q)) (λ w q. q)

  module _ (delivery : Delivery) (message : Command) (attempt : ℕ) where
    abbrev Handled : World → Type 0
    Handled w = Done attempt delivery (some message) w

    ended-acked :
        Ensures env
          (λ w. Finished env r s message (view w))
          (settle acked)
          (λ u w. Settled Handled w)
          (λ e w. w.settled ≡ s)
    ended-acked =
        Ensures-weaken _ (λ w (q, e). (q, inl e)) (λ a w q. q) (λ e w q. q)
          (acked-Settled Handled (λ w x n p. p))

    give_up-Settled :
        (failure : Failure)
        → Ensures env
            (λ w. w.settled ≡ s)
            (give_up message failure attempt)
            (λ u w. Settled Handled w)
            (λ e w. w.settled ≡ s)
    unfolding give_up publish_command_dead_letter
    give_up-Settled failure =
        Ensures-try_catch _ _
          (Ensures-bind _ _ (fail-Finished env r s message failure) (λ u.
            Ensures-bind _ _
              (keep-Finished env r s message _
                (Keeps-publish (dead_letter message failure attempt)))
              (λ b. ended-acked)))
          (λ e. requeued-Settled Handled)

    publish_to-LastSent :
        (o : Option RetryQueue)
        → IsWaiting message attempt o
        → Ensures env
            (λ w. w.settled ≡ s)
            (publish_to message (attempt + 1) o)
            (λ b w. (w.settled ≡ s) × Handled w)
            (λ e w. w.settled ≡ s)
    unfolding publish_to
    publish_to-LastSent none h = Ensures-throw _ (λ w q. q)
    publish_to-LastSent (some q) h =
        Ensures-weaken _ (λ w h'. h') (λ b w (t, l). (t, inr (_, l, h))) (λ e w h'. h')
          (publish-LastSent env s (retry_publication message (attempt + 1) q))

    on_failure-Settled :
        (failure : Failure)
        → Ensures env
            (λ w. w.settled ≡ s)
            (on_failure message failure attempt)
            (λ u w. Settled Handled w)
            (λ e w. w.settled ≡ s)
    unfolding on_failure publish_retry_command
    on_failure-Settled failure =
        Ensures-if _ _ _
          (λ t.
            Ensures-bind _ _
              (publish_to-LastSent _ (retry_publication-Waits message attempt (and-second _ _ t)))
              (λ b. acked-Settled Handled (λ w x n p. p)))
          (λ f. give_up-Settled failure)

  handle_parsed-Settled :
      (delivery : Delivery) (o : Option Command)
      → delivery.routing_key ≡ "workflow.execution.requested"
      → Ensures env
          (λ w. w.settled ≡ s)
          (handle_parsed delivery o)
          (λ u w. Settled (Done (retry_attempt env delivery) delivery o) w)
          (λ e w. w.settled ≡ s)
  unfolding handle_parsed handle_error on_failure ◌>>=◌ normalize_worker_failure ask
  handle_parsed-Settled delivery none h =
      Ensures-bind _ _
        (Ensures-weaken _ (λ w p. p) (λ b w (t, l). (t, (_, l, raw_dead_letter-Buried delivery h)))
          (λ e w p. p) (publish-LastSent env s (raw_dead_letter delivery "invalid_payload")))
        (λ b. acked-Settled (Done (retry_attempt env delivery) delivery none) (λ w x n p. p))
  handle_parsed-Settled delivery (some message) h =
      let attempt = retry_attempt env delivery in
      Ensures-try_catch _ _
        (Ensures-bind _ _ (process-Finished env r s message)
          (λ u. ended-acked delivery message attempt))
        (λ e. record {
          at = λ w q.
              (on_failure-Settled delivery message attempt (normalize_worker_failure e)).at w q;
        })

-- If the other processes only move executions forward, and the delivery has the routing key that the
-- worker's queue is bound with: where the handler returns, the delivery was settled exactly once, by
-- requeueing it or by acknowledging it; and if it was acknowledged, then a delivery that is no command was
-- sent last to the dead letter queue, with its content, and for a command its execution is in a
-- terminal status, or the command was sent last to the retry queue of the next attempt, with that number
-- in its header. Where the handler throws, the delivery was not settled.
pub handle_delivery-accounted :
    (delivery : Delivery) (env : Env) (w : World)
    → Rely Advance env
    → delivery.routing_key ≡ "workflow.execution.requested"
    → Post
        (λ u w'.
          (w'.settled ≡ w.settled ++ requeued ∷ [])
          ⊎ ((w'.settled ≡ w.settled ++ acked ∷ [])
              × Done (retry_attempt env delivery) delivery (parse_command env delivery) w'))
        (λ e w'. w'.settled ≡ w.settled)
        (handle_delivery delivery env w)
unfolding handle_delivery ask ◌>>=◌
handle_delivery-accounted delivery env w r key =
    (handle_parsed-Settled env (Held-Rely env r) w.settled delivery (parse_command env delivery)
        key).at
      w refl
