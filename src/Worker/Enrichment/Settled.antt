-- ===== src/Worker/Enrichment/Settled.antt =====
-- How a delivery of the lead enrichment queue is settled.
use vigil_summit_agent.Prelude.{
  and-second, ◌+◌, true, Option, none, some, List, [], ◌∷◌, ◌++◌, ◌≡◌, refl, ap, ◌∙◌, sym, ◌⊎◌, inl,
  inr, ltb, ◌&&◌,
}
use vigil_summit_agent.Contracts.Message.{max_retry_attempts}
use vigil_summit_agent.Engagement.Tables.{Snapshot}
use vigil_summit_agent.Worker.State.{Settlement, acked, requeued, World, Env, Error}
use vigil_summit_agent.Worker.Effects.{Outcome, ok, thrown, final, settle, ask, ◌>>=◌, ◌>>◌}
use vigil_summit_agent.Worker.Triples.{
  Post, Ensures, Ensures-weaken, Ensures-bind, Ensures-if, Ensures-throw, Ensures-try_catch,
  settle-Ensures,
}
use vigil_summit_agent.Worker.Command.{Delivery}
use vigil_summit_agent.Worker.Delivery.Accounted.{publish-LastSent}
use vigil_summit_agent.Worker.Enrichment.{EnrichmentCommand, is_done, process_lead_enrichment}
use vigil_summit_agent.Worker.Enrichment.Safe.{Keeps-process, Unsettled-safe, Unsettled-Rely}
use vigil_summit_agent.Worker.Enrichment.Reading.{parse_enrichment, enrichment_attempt}
use vigil_summit_agent.Worker.Enrichment.Consumer.{
  EnrichmentQueue, publish_to_queue, publish_retry, enrichment_failure, route_failure,
  catch_failure, handle_enrichment_parsed, handle_lead_enrichment_delivery,
}
use vigil_summit_agent.Worker.Enrichment.Routes.{
  Failed, Routed, IsWaiting, enrichment_retry-Waits, enrichment_dead_letter-Buried,
}
use vigil_summit_agent.Worker.Enrichment.Completes.{process-Done}

module _ (env : Env) (s : List Settlement) (before : World) (delivery : Delivery)
    (message : EnrichmentCommand) where
  abbrev Open : World → Type 0
  Open w = w.settled ≡ s

  abbrev Own : World → Type 0
  Own w = Routed env before delivery message w

  abbrev pub Settled : World → Type 0
  Settled w = (w.settled ≡ s ++ requeued ∷ []) ⊎ ((w.settled ≡ s ++ acked ∷ []) × Own w)

  acked-Settled :
      Ensures env (λ w. Open w × Own w) (settle acked) (λ u w. Settled w) (λ e w. Open w)
  acked-Settled =
      settle-Ensures env acked _ _ _ (λ w (q, p). inr (ap (λ x. x ++ acked ∷ []) q, p))
        (λ w (q, p). q)

  requeued-Settled : Ensures env Open (settle requeued) (λ u w. Settled w) (λ e w. Open w)
  requeued-Settled =
      settle-Ensures env requeued _ _ _ (λ w q. inl (ap (λ x. x ++ requeued ∷ []) q)) (λ w q. q)

  module _ (e : Error) (failed : Failed env before message e) where
    publish_to_queue-Settled :
        (q : Option EnrichmentQueue)
        → IsWaiting message (enrichment_attempt env delivery) q
        → (enrichment_failure e).retryable && ltb (enrichment_attempt env delivery) 3 ≡ true
        → Ensures env Open
            (publish_to_queue message (enrichment_attempt env delivery + 1) q)
            (λ b w. Open w × Own w)
            (λ e' w. Open w)
    unfolding publish_to_queue
    publish_to_queue-Settled none h t = Ensures-throw _ (λ w o. o)
    publish_to_queue-Settled (some q) h t =
        Ensures-weaken _ (λ w o. o) (λ b w (o, l). (o, inr (e, _, failed, l, inl (t, h))))
          (λ e' w o. o) (publish-LastSent env s _)

    route_failure-Settled :
        Ensures env Open
          (route_failure delivery message (enrichment_failure e) (enrichment_attempt env delivery))
          (λ u w. Settled w)
          (λ e' w. Open w)
    unfolding route_failure publish_retry
    route_failure-Settled =
        let f = enrichment_failure e in
        Ensures-if (f.retryable && ltb (enrichment_attempt env delivery) max_retry_attempts)
          (publish_retry message (enrichment_attempt env delivery + 1) >> settle acked) _
          (λ t.
            Ensures-bind _ _
              (publish_to_queue-Settled _
                (enrichment_retry-Waits message (enrichment_attempt env delivery)
                  (and-second _ _ t))
                t)
              (λ b. acked-Settled))
          (λ t.
            Ensures-bind _ _
              (Ensures-weaken _ (λ w o. o)
                (λ b w (o, l).
                  (o, inr (e, _, failed, l, inr (t, enrichment_dead_letter-Buried delivery _ _ _))))
                (λ e' w o. o) (publish-LastSent env s _))
              (λ b. acked-Settled))

    catch_failure-Settled :
        Ensures env Open (catch_failure delivery message e) (λ u w. Settled w) (λ e' w. Open w)
    unfolding catch_failure ◌>>=◌ ask
    catch_failure-Settled = record {
      at = (Ensures-try_catch _ _ route_failure-Settled (λ e'. requeued-Settled)).at;
    }

  process-Completed :
      Ensures env
        (λ w. Open w × (w ≡ before))
        (process_lead_enrichment message)
        (λ x w. Open w × Own w)
        (λ e w. Open w)
  process-Completed = record {
    at = λ w (o, same).
        after (process_lead_enrichment message env w)
          (ap (process_lead_enrichment message env) (sym same)) ((process-Done env message).at w tt)
          (sym ((Keeps-process Unsettled-safe message).at env w (Unsettled-Rely env)) ∙ o);
  }
    where
      after :
          (r : Outcome Snapshot)
          → process_lead_enrichment message env before ≡ r
          → Post (λ x w'. is_done x.status ≡ true) (λ e w'. Unit) r
          → Open (final r)
          → Post (λ x w'. Open w' × Own w') (λ e w'. Open w') r
      after (ok x w') h d o = (o, inl (x, w', h, d, refl))
      after (thrown e w') h d o = o

  body-Settled :
      Ensures env
        (λ w. Open w × (w ≡ before))
        (process_lead_enrichment message >> settle acked)
        (λ u w. Settled w)
        (λ e w. Open w × Failed env before message e)
  body-Settled = record {
    at = λ w (o, same).
        after ((process_lead_enrichment message >> settle acked) env w)
          (ap ((process_lead_enrichment message >> settle acked) env) (sym same))
          ((Ensures-bind _ _ process-Completed (λ x. acked-Settled)).at w (o, same));
  }
    where
      after :
          (r : Outcome (Unit {0}))
          → (process_lead_enrichment message >> settle acked) env before ≡ r
          → Post (λ u w'. Settled w') (λ e w'. Open w') r
          → Post (λ u w'. Settled w') (λ e w'. Open w' × Failed env before message e) r
      after (ok u w') h p = p
      after (thrown e w') h p = (p, (w', h))

  handle-Settled :
      Ensures env
        (λ w. Open w × (w ≡ before))
        (handle_enrichment_parsed delivery (some message))
        (λ u w. Settled w)
        (λ e w. Open w)
  unfolding handle_enrichment_parsed
  handle-Settled =
      Ensures-try_catch _ _ body-Settled
        (λ e. record { at = λ w (o, failed). (catch_failure-Settled e failed).at w o })

-- A readable delivery of the lead enrichment queue, whatever the provider answers and however the
-- database and the broker fail. Where the handler returns, the delivery was settled once: it was put
-- back into the queue, or it was acknowledged. If it was acknowledged, then either this run of the
-- enrichment returned a snapshot that has SUCCEEDED, and the tables are those that it left; or it threw,
-- and as the failure is retryable and one of three attempts is left or not, the command was sent last to
-- the retry queue of the next attempt, with that number in its header, or the content of the
-- delivery was sent last to the dead letter queue. Where the handler throws, the delivery was not settled.
pub handle_lead_enrichment_delivery-settles :
    (delivery : Delivery) (message : EnrichmentCommand) (env : Env) (w : World)
    → parse_enrichment env delivery ≡ some message
    → Post
        (λ u w'. Settled env w.settled w delivery message w')
        (λ e w'. w'.settled ≡ w.settled)
        (handle_lead_enrichment_delivery delivery env w)
unfolding handle_lead_enrichment_delivery ask ◌>>=◌
handle_lead_enrichment_delivery-settles delivery message env w h =
    rw h ((handle-Settled env w.settled w delivery message).at w (refl, refl))
