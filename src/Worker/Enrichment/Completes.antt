-- ===== src/Worker/Enrichment/Completes.antt =====
-- The snapshot that processLeadEnrichment returns.
use vigil_summit_agent.Prelude.{ℕ, true, Option, none, some, ◌≡◌, refl, String, find, ◌=ₛ◌}
use vigil_summit_agent.Contracts.Message.{Message}
use vigil_summit_agent.Engagement.Tables.{Snapshot, Services, EnrichmentResult}
use vigil_summit_agent.Worker.State.{Db, Env, Error}
use vigil_summit_agent.Worker.Effects.{M, pure, ◌>>=◌}
use vigil_summit_agent.Worker.Triples.{
  Ensures, Ensures-any, Ensures-bind, Ensures-if, Ensures-throw, Ensures-try_catch, Ensures-pure,
  Ensures-result,
}
use vigil_summit_agent.Worker.Enrichment.{
  EnrichmentCommand, Context, is_done, update_found, to_enriched, store_result, store_rest,
  require_snapshot, enrich_and_store, record_failure, run_enrichment, unless_done, with_context,
  process_lead_enrichment,
}

module _ (env : Env) where
  -- It returns a snapshot that has SUCCEEDED, or throws.
  abbrev Done : M Snapshot → Type 0
  Done m = Ensures env (λ w. Unit) m (λ x w. is_done x.status ≡ true) (λ e w. Unit)

  -- Past an action of which nothing is asked.
  past : {A : Type 0} (m : M A) (f : A → M Snapshot) → ((a : A) → Done (f a)) → Done (m >>= f)
  past m f h = Ensures-bind m f (Ensures-any m) h

  abbrev IsDone? : Option Snapshot → Type 0
  IsDone? none = Unit
  IsDone? (some x) = is_done x.status ≡ true

  store_result-Done :
      (services : Services) (c : Context) (snapshot : Snapshot) (new_id : String → String) (at : ℕ)
      (result : EnrichmentResult) (m : Message) (d : Db)
      → IsDone? (store_result services c snapshot new_id at result m d).0
  unfolding store_result to_enriched
  store_result-Done services c snapshot new_id at result m d =
      by_row (find (λ s. s.id =ₛ snapshot.id) d.engagement.snapshots)
    where
      by_row :
          (o : Option Snapshot)
          → IsDone?
              (store_rest services c snapshot new_id at result m
                (update_found snapshot.id (to_enriched result at) o d)).0
      by_row none = tt
      by_row (some s) = refl

  require_snapshot-Done :
      (o : Option Snapshot)
      → Ensures env
          (λ w. IsDone? o)
          (require_snapshot o)
          (λ x w. is_done x.status ≡ true)
          (λ e w. Unit)
  unfolding require_snapshot
  require_snapshot-Done none = Ensures-throw _ (λ w h. tt)
  require_snapshot-Done (some x) = Ensures-pure x (λ w h. h)

  enrich_and_store-Done :
      (message : EnrichmentCommand) (c : Context) (snapshot : Snapshot)
      → Done (enrich_and_store message c snapshot)
  unfolding enrich_and_store
  enrich_and_store-Done message c snapshot = past _ _ (λ reply. past _ _ (λ result. past _ _ (λ at.
      past _ _ (λ event_id. past _ _ (λ now'. past _ _ (λ new_id. past _ _ (λ services.
        Ensures-bind _ _
          (Ensures-result IsDone? _ (store_result-Done services c snapshot new_id at result _))
          require_snapshot-Done)))))))

  record_failure-Done : (snapshot : Snapshot) (e : Error) → Done (record_failure snapshot e)
  unfolding record_failure
  record_failure-Done snapshot e =
      past _ _ (λ at. past _ _ (λ row. past _ _ (λ x. Ensures-throw e (λ w p. tt))))

  run_enrichment-Done :
      (message : EnrichmentCommand) (c : Context) → Done (run_enrichment message c)
  unfolding run_enrichment
  run_enrichment-Done message c = past _ _ (λ at. past _ _ (λ id. past _ _ (λ services.
      past _ _ (λ snapshot.
        Ensures-try_catch _ _ (enrich_and_store-Done message c snapshot)
          (λ e. record_failure-Done snapshot _)))))

  unless_done-Done :
      (message : EnrichmentCommand) (c : Context) (o : Option Snapshot)
      → Done (unless_done message c o)
  unfolding unless_done
  unless_done-Done message c none = run_enrichment-Done message c
  unless_done-Done message c (some x) =
      Ensures-if (is_done x.status) (pure x) _ (λ t. Ensures-pure x (λ w p. t))
        (λ f. run_enrichment-Done message c)

  with_context-Done :
      (message : EnrichmentCommand) (o : Option Context) → Done (with_context message o)
  unfolding with_context
  with_context-Done message none = Ensures-throw _ (λ w p. tt)
  with_context-Done message (some c) = past _ _ (unless_done-Done message c)

  pub process-Done : (message : EnrichmentCommand) → Done (process_lead_enrichment message)
  unfolding process_lead_enrichment
  process-Done message = past _ _ (with_context-Done message)
