-- ===== src/Worker/Enrichment/Routes.antt =====
-- Where a delivery of the lead enrichment queue can end, and the queues of what is published for it.
use vigil_summit_agent.Prelude.{
  zero, suc, false, ◌-◌, get_elem?, arith, ℕ, ◌+◌, true, Option, none, some, ◌≡◌, refl, String, ◌⊎◌,
  ltb, ◌&&◌,
}
use vigil_summit_agent.Json.{whole, num, get}
use vigil_summit_agent.Worker.Topology.{queue_of, bindings, enrichment_bindings}
use vigil_summit_agent.Contracts.Message.{routing_key_text, max_retry_attempts}
use vigil_summit_agent.Engagement.Tables.{Snapshot}
use vigil_summit_agent.Worker.State.{acked, World, Env, Error, Publication, command, raw}
use vigil_summit_agent.Worker.Effects.{ok, thrown, settle, ◌>>◌}
use vigil_summit_agent.Worker.Command.{Delivery}
use vigil_summit_agent.Worker.Delivery.Accounted.{LastSent}
use vigil_summit_agent.Worker.Enrichment.{EnrichmentCommand, is_done, process_lead_enrichment}
use vigil_summit_agent.Worker.Enrichment.Reading.{enrichment_attempt}
use vigil_summit_agent.Worker.Enrichment.Consumer.{
  EnrichmentQueue, enrichment_queues, enrichment_retry, enrichment_dead_letter, EnrichmentFailure,
  enrichment_failure,
}

-- The retry queue of an attempt: ten seconds, a minute, and then five.
abbrev pub retry_queue_of : ℕ → String
retry_queue_of (suc zero) = "flowpilot.retry.engagement-worker.lead-enrichment.10s"
retry_queue_of (suc (suc zero)) = "flowpilot.retry.engagement-worker.lead-enrichment.1m"
retry_queue_of _ = "flowpilot.retry.engagement-worker.lead-enrichment.5m"

-- The command waits in the retry queue of an attempt, with that number in its header.
abbrev pub Waits : EnrichmentCommand → ℕ → Publication → Type 0
Waits message n p =
    (queue_of p.exchange p.routing_key ≡ some (retry_queue_of n))
    × (p.content ≡ command message.body)
    × (get p.headers "x-flowpilot-retry-attempt" ≡ some (num (whole n)))

-- The content of the delivery is in the dead letter queue.
abbrev pub Buried : Delivery → Publication → Type 0
Buried delivery p =
    (queue_of p.exchange p.routing_key ≡ some "flowpilot.dlq.engagement-worker.lead-enrichment")
    × (p.content ≡ raw delivery.content)

-- Where a failure leads: to the next of three attempts if it is retryable, or to the dead letters.
abbrev pub Followed : ℕ → Delivery → EnrichmentCommand → EnrichmentFailure → Publication → Type 0
Followed attempt delivery message f p =
    ((f.retryable && ltb attempt 3 ≡ true) × Waits message (attempt + 1) p)
    ⊎ ((f.retryable && ltb attempt 3 ≡ false) × Buried delivery p)

-- The run of `processLeadEnrichment` from the world `before` returned a snapshot that has SUCCEEDED, and
-- the tables are those that it left.
abbrev pub Completed : Env → World → EnrichmentCommand → World → Type 0
Completed env before message w =
    (x : Snapshot) × (after : World) × (process_lead_enrichment message env before ≡ ok x after)
    × (is_done x.status ≡ true)
    × (w.db ≡ after.db)

-- The body of the handler's `try`, run from the world `before`, threw this.
abbrev pub Failed : Env → World → EnrichmentCommand → Error → Type 0
Failed env before message e =
    (after : World) × ((process_lead_enrichment message >> settle acked) env before
      ≡ thrown e after)

-- What an acknowledgement stands for: the enrichment is completed, or it failed and the last
-- publication follows from the failure.
abbrev pub Routed : Env → World → Delivery → EnrichmentCommand → World → Type 0
Routed env before delivery message w =
    Completed env before message w
    ⊎ ((e : Error) × (p : Publication) × Failed env before message e
        × LastSent p w
        × Followed (enrichment_attempt env delivery) delivery message (enrichment_failure e) p)

abbrev pub IsWaiting : EnrichmentCommand → ℕ → Option EnrichmentQueue → Type 0
IsWaiting message attempt none = Unit
IsWaiting message attempt (some q) =
    Waits message (attempt + 1) (enrichment_retry message (attempt + 1) q)

pub enrichment_retry-Waits :
    (message : EnrichmentCommand) (attempt : ℕ)
    → ltb attempt max_retry_attempts ≡ true
    → IsWaiting message attempt (get_elem? enrichment_queues (attempt + 1 - 1))
unfolding enrichment_retry queue_of bindings enrichment_bindings routing_key_text
enrichment_retry-Waits message zero h = (refl, refl, refl)
enrichment_retry-Waits message (suc zero) h = (refl, refl, refl)
enrichment_retry-Waits message (suc (suc zero)) h = (refl, refl, refl)
enrichment_retry-Waits message (suc (suc (suc n))) h = ground arith

pub enrichment_dead_letter-Buried :
    (delivery : Delivery) (code reason : String) (attempt : ℕ)
    → Buried delivery (enrichment_dead_letter delivery code reason attempt)
unfolding enrichment_dead_letter queue_of bindings enrichment_bindings routing_key_text
enrichment_dead_letter-Buried delivery code reason attempt = (refl, refl)
