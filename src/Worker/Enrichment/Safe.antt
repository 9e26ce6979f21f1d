-- ===== src/Worker/Enrichment/Safe.antt =====
-- What the processing of a lead enrichment keeps: it is enough to look at its three writes.
use vigil_summit_agent.Prelude.{ℕ, String, Option, none, some, List, ◌≡◌, refl, ◌∙◌}
use vigil_summit_agent.Contracts.Message.{Message}
use vigil_summit_agent.Engagement.Tables.{
  EnrichmentResult, Enriched, enriched_as, enrichment_refused, enrichment_broken, Snapshot,
  Services,
}
use vigil_summit_agent.Worker.State.{Db, Settlement, Env, Turn, others, fault, Error}
use vigil_summit_agent.Worker.Effects.{access}
use vigil_summit_agent.Worker.Keeps.{
  Guarantee, TurnKeeps, Rely, Keeps, Keeps-access, keeps_rules, Keeps-bind, Keeps-if, Keeps-pure,
}
use vigil_summit_agent.Worker.Enrichment.{
  EnrichmentCommand, Context, snapshot_of, update_snapshot, to_failed_snapshot, start_snapshot,
  store_result, require_snapshot, give_result, enrich_and_store, record_failure, run_enrichment,
  unless_done, with_context, process_lead_enrichment,
}

pub record EnrichmentSafe (G : Guarantee) : Type 0 where
  pub start :
      (services : Services) (message : EnrichmentCommand) (id : String) (at : ℕ)
      (old : Option Snapshot) (d : Db) (s : List Settlement)
      → G.rel (d, s) ((start_snapshot services message id at old d).1, s)
  pub store :
      (services : Services) (c : Context) (snapshot : Snapshot) (new_id : String → String) (at : ℕ)
      (result : EnrichmentResult) (message : Message) (d : Db) (s : List Settlement)
      → G.rel (d, s) ((store_result services c snapshot new_id at result message d).1, s)
  pub fail :
      (id code message : String) (at : ℕ) (d : Db) (s : List Settlement)
      → G.rel (d, s) ((update_snapshot id (to_failed_snapshot code message at) d).1, s)

module _ {G : Guarantee} (safe : EnrichmentSafe G) where
  Keeps-give_result : (reply : Enriched) → Keeps G (give_result reply)
  unfolding give_result
  Keeps-give_result (enriched_as result) = search keeps_rules
  Keeps-give_result (enrichment_refused code message retryable) = search keeps_rules
  Keeps-give_result (enrichment_broken message) = search keeps_rules

  Keeps-require_snapshot : (o : Option Snapshot) → Keeps G (require_snapshot o)
  unfolding require_snapshot
  Keeps-require_snapshot none = search keeps_rules
  Keeps-require_snapshot (some s) = search keeps_rules

  Keeps-store :
      (services : Services) (c : Context) (snapshot : Snapshot) (new_id : String → String) (at : ℕ)
      (result : EnrichmentResult) (message : Message)
      → Keeps G (access (store_result services c snapshot new_id at result message))
  Keeps-store services c snapshot new_id at result message =
      Keeps-access _ (safe.store services c snapshot new_id at result message)

  Keeps-fail :
      (id code message : String) (at : ℕ)
      → Keeps G (access (update_snapshot id (to_failed_snapshot code message at)))
  Keeps-fail id code message at = Keeps-access _ (safe.fail id code message at)

  Keeps-enrich_and_store :
      (message : EnrichmentCommand) (c : Context) (snapshot : Snapshot)
      → Keeps G (enrich_and_store message c snapshot)
  unfolding enrich_and_store
  Keeps-enrich_and_store message c snapshot =
      search (keeps_rules, Keeps-give_result, Keeps-require_snapshot, Keeps-store) depth 12

  Keeps-record_failure : (snapshot : Snapshot) (e : Error) → Keeps G (record_failure snapshot e)
  unfolding record_failure
  Keeps-record_failure snapshot e = search (keeps_rules, Keeps-require_snapshot, Keeps-fail)

  Keeps-start :
      (services : Services) (message : EnrichmentCommand) (id : String) (at : ℕ)
      → Keeps G (
          access
            (λ d. start_snapshot services message id at (snapshot_of message.registration_id d) d))
  Keeps-start services message id at =
      Keeps-access _ (λ d s. safe.start services message id at _ d s)

  Keeps-run : (message : EnrichmentCommand) (c : Context) → Keeps G (run_enrichment message c)
  unfolding run_enrichment
  Keeps-run message c =
      search (keeps_rules, Keeps-enrich_and_store, Keeps-record_failure, Keeps-start) depth 10

  Keeps-unless_done :
      (message : EnrichmentCommand) (c : Context) (o : Option Snapshot)
      → Keeps G (unless_done message c o)
  unfolding unless_done
  Keeps-unless_done message c none = Keeps-run message c
  Keeps-unless_done message c (some s) =
      Keeps-if _ _ _ (λ t. Keeps-pure s) (λ f. Keeps-run message c)

  Keeps-with_context :
      (message : EnrichmentCommand) (o : Option Context) → Keeps G (with_context message o)
  unfolding with_context
  Keeps-with_context message none = search keeps_rules
  Keeps-with_context message (some c) =
      Keeps-bind _ _ (Keeps-access _ (λ d s. G.same (d, s))) (λ o. Keeps-unless_done message c o)

  pub Keeps-process : (message : EnrichmentCommand) → Keeps G (process_lead_enrichment message)
  unfolding process_lead_enrichment
  Keeps-process message =
      Keeps-bind _ _ (Keeps-access _ (λ d s. G.same (d, s))) (λ o. Keeps-with_context message o)

-- It settles no delivery.
abbrev pub Unsettled : Guarantee
Unsettled = record { rel = λ v v'. v.1 ≡ v'.1; same = λ v. refl; chain = λ a b c p q. p ∙ q }

pub Unsettled-safe : EnrichmentSafe Unsettled
Unsettled-safe = record {
  start = λ services message id at old d s. refl;
  store = λ services c snapshot new_id at result message d s. refl;
  fail = λ id code message at d s. refl;
}

pub Unsettled-Rely : (env : Env) → Rely Unsettled env
Unsettled-Rely env = record { at = λ n. by_turn (env.turn n) }
  where
    by_turn : (t : Turn) → TurnKeeps Unsettled t
    by_turn (others g) = λ d s. refl
    by_turn (fault message) = tt
