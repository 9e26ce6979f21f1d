-- ===== src/Worker/Enrichment/Again.antt =====
-- An enrichment command that is delivered again.
use vigil_summit_agent.Prelude.{suc, true, some, [], ◌∷◌, ◌++◌, ◌≡◌, refl, ap, ◌∙◌}
use vigil_summit_agent.Engagement.Tables.{Snapshot}
use vigil_summit_agent.Worker.State.{
  accepted, Settlement, Db, World, Env, Error, other_error, others, fault, acked,
}
use vigil_summit_agent.Worker.Effects.{
  M, Outcome, ok, thrown, tick, access, pure, settle, ask, try_then, try_catch, ◌>>=◌, ◌>>◌,
}
use vigil_summit_agent.Worker.Command.{Delivery}
use vigil_summit_agent.Worker.Enrichment.{
  EnrichmentCommand, Context, is_done, snapshot_of, find_context, unless_done, with_context,
  process_lead_enrichment,
}
use vigil_summit_agent.Worker.Enrichment.Reading.{parse_enrichment}
use vigil_summit_agent.Worker.Enrichment.Consumer.{
  handle_enrichment_parsed, handle_lead_enrichment_delivery,
}

access-quiet :
    {A : Type 0} (f : Db → A × Db) (g : Db → Db) (env : Env) (w : World)
    → env.turn w.step ≡ others g
    → access f env w ≡ ok (f (g w.db)).0 (record w { db = (f (g w.db)).1; step = suc w.step })
unfolding access
access-quiet {A} f g env w t =
    ap
      (λ u. elim u as (λ u'. Outcome A) [
        | others k ↦ let r = f (k w.db) in ok r.0 (record w { db = r.1; step = suc w.step })
        | fault message ↦ thrown (other_error message) (tick w)
      ])
      t

-- Past an action that returns.
bind-ok :
    {A B : Type 0} (m : M A) (f : A → M B) (env : Env) (w w' : World) (a : A)
    → m env w ≡ ok a w'
    → (m >>= f) env w ≡ f a env w'
unfolding ◌>>=◌
bind-ok {A} {B} m f env w w' a h =
    ap (λ o. elim o as (λ o'. Outcome B) [ ok b v ↦ f b env v | thrown e v ↦ thrown e v ]) h

try-ok :
    {A : Type 0} (m : M A) (handler : Error → M A) (env : Env) (w w' : World) (a : A)
    → m env w ≡ ok a w'
    → try_catch m handler env w ≡ ok a w'
unfolding try_catch try_then pure
try-ok {A} m handler env w w' a h =
    ap (λ o. elim o as (λ o'. Outcome A) [ ok b v ↦ ok b v | thrown e v ↦ handler e env v ]) h

process-idempotent :
    (message : EnrichmentCommand) (c : Context) (x : Snapshot) (g h : Db → Db) (env : Env)
    (w : World)
    → env.turn w.step ≡ others g
    → env.turn (suc w.step) ≡ others h
    → find_context message (g w.db) ≡ some c
    → snapshot_of message.registration_id (h (g w.db)) ≡ some x
    → is_done x.status ≡ true
    → process_lead_enrichment message env w
      ≡ ok x (record w { db = h (g w.db); step = suc (suc w.step) })
unfolding process_lead_enrichment with_context unless_done pure
process-idempotent message c x g h env w t u find old done =
    bind-ok _ (with_context message) env w _ _ (access-quiet _ g env w t)
    ∙ (rw find (
        bind-ok _ (unless_done message c) env _ _ _
          (access-quiet _ h env (record w { db = g w.db; step = suc w.step }) u)
        ∙ (rw (old, done) refl)))

settle-accepted :
    (x : Settlement) (env : Env) (w : World)
    → env.broker w.step ≡ accepted
    → settle x env w ≡ ok tt (record w { settled = w.settled ++ x ∷ []; step = suc w.step })
unfolding settle
settle-accepted x env w h = rw (h, settle) refl

-- A command whose registration has a snapshot that has SUCCEEDED is acknowledged, and nothing else
-- happens: no table is written, no provider is asked, nothing is published. The other processes may
-- change the database, by `g` and then by `h`, before the two reads, and the channel takes the
-- acknowledgement.
pub handle_lead_enrichment_delivery-idempotent :
    (delivery : Delivery) (message : EnrichmentCommand) (c : Context) (x : Snapshot) (g h : Db → Db)
    (env : Env) (w : World)
    → parse_enrichment env delivery ≡ some message
    → env.turn w.step ≡ others g
    → env.turn (suc w.step) ≡ others h
    → find_context message (g w.db) ≡ some c
    → snapshot_of message.registration_id (h (g w.db)) ≡ some x
    → is_done x.status ≡ true
    → env.broker (suc (suc w.step)) ≡ accepted
    → handle_lead_enrichment_delivery delivery env w
      ≡ ok tt (record w {
        db = h (g w.db);
        settled = w.settled ++ acked ∷ [];
        step = suc (suc (suc w.step));
      })
unfolding handle_lead_enrichment_delivery handle_enrichment_parsed ◌>>=◌ ask settle
handle_lead_enrichment_delivery-idempotent delivery message c x g h env w p t u find old done
      open_channel =
    rw p (
      try-ok (process_lead_enrichment message >> settle acked) _ env w _ tt (
        bind-ok (process_lead_enrichment message) (λ _. settle acked) env w _ x
          (process-idempotent message c x g h env w t u find old done)
        ∙ settle-accepted acked env _ open_channel))
