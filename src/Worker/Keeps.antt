-- ===== src/Worker/Keeps.antt =====
-- Rely and guarantee: relations between the world before and the world after, kept by an action
-- whether it returns or throws, as long as the other processes keep them too.
use vigil_summit_agent.Prelude.{
  ℕ, suc, Bool, true, false, List, [], ◌∷◌, ◌++◌, if◌then◌else◌, ◌≡◌, refl, arith,
}
use vigil_summit_agent.Engagement.Tables.{Email}
use vigil_summit_agent.Worker.State.{
  Db, Error, other_error, Publication, Settlement, World, Turn, others, fault, Env, Answer,
  accepted, backpressure, rejected,
}
use vigil_summit_agent.Worker.Effects.{
  Outcome, ok, thrown, M, final, tick, pure, throw, ◌>>=◌, try_then, try_catch, access, publish,
  settle, now, fresh_id, ask, call, hand_over, for_each,
}

-- What a guarantee looks at: the database, and how deliveries were settled.
abbrev pub View : Type 0
View = Db × List Settlement

abbrev pub view : World → View
view w = (w.db, w.settled)

-- A relation on views that holds along any run of steps that it holds of.
pub record Guarantee : Type 1 where
  pub rel : View → View → Type 0
  pub same : (v : View) → rel v v
  pub chain : (a b c : View) → rel a b → rel b c → rel a c

-- A guarantee about the database alone.
abbrev pub about_db :
    (R : Db → Db → Type 0) → ((d : Db) → R d d) → ((a b c : Db) → R a b → R b c → R a c) → Guarantee
about_db R same chain = record {
  rel = λ v v'. R v.0 v'.0;
  same = λ v. same v.0;
  chain = λ a b c. chain a.0 b.0 c.0;
}

abbrev pub TurnKeeps : Guarantee → Turn → Type 0
TurnKeeps G (others g) = (d : Db) (s : List Settlement) → G.rel (d, s) (g d, s)
TurnKeeps G (fault _) = Unit

-- The other processes keep the relation.
pub record Rely (G : Guarantee) (env : Env) : Type 0 where
  pub at : (n : ℕ) → TurnKeeps G (env.turn n)

pub record Keeps (G : Guarantee) {A : Type 0} (m : M A) : Type 0 where
  pub at : (env : Env) (w : World) → Rely G env → G.rel (view w) (view (final (m env w)))

publish-view : (p : Publication) (env : Env) (w : World) → view (final (publish p env w)) ≡ view w
unfolding publish
publish-view p env w = ground arith

module _ {G : Guarantee} where
  pub Keeps-pure : {A : Type 0} (a : A) → Keeps G (pure a)
  unfolding pure
  Keeps-pure a = record { at = λ env w r. G.same (view w) }

  pub Keeps-throw : {A : Type 0} (e : Error) → Keeps G (throw {A = A} e)
  unfolding throw
  Keeps-throw e = record { at = λ env w r. G.same (view w) }

  pub Keeps-try_then :
      {A B : Type 0} (m : M A) (f : A → M B) (h : Error → M B)
      → Keeps G m
      → ((a : A) → Keeps G (f a))
      → ((e : Error) → Keeps G (h e))
      → Keeps G (try_then m f h)
  unfolding try_then
  Keeps-try_then {A} {B} m f h km kf kh = record {
    at = λ env w r. after env w r (m env w) (km.at env w r);
  }
    where
      after :
          (env : Env) (w : World)
          → Rely G env
          → (o : Outcome A) → G.rel (view w) (view (final o))
          → G.rel
              (view w)
              (view (final (elim o [ ok a w' ↦ f a env w' | thrown e w' ↦ h e env w' ])))
      after env w r (ok a w') p =
          G.chain (view w) (view w') (view (final (f a env w'))) p ((kf a).at env w' r)
      after env w r (thrown e w') p =
          G.chain (view w) (view w') (view (final (h e env w'))) p ((kh e).at env w' r)

  pub Keeps-bind :
      {A B : Type 0} (m : M A) (f : A → M B)
      → Keeps G m
      → ((a : A) → Keeps G (f a))
      → Keeps G (m >>= f)
  unfolding ◌>>=◌ try_then throw
  Keeps-bind m f km kf = Keeps-try_then m f throw km kf Keeps-throw

  pub Keeps-try_catch :
      {A : Type 0} (m : M A) (h : Error → M A)
      → Keeps G m
      → ((e : Error) → Keeps G (h e))
      → Keeps G (try_catch m h)
  unfolding try_catch
  Keeps-try_catch m h km kh = Keeps-try_then m pure h km Keeps-pure kh

  pub Keeps-access :
      {A : Type 0} (f : Db → A × Db)
      → ((d : Db) (s : List Settlement) → G.rel (d, s) ((f d).1, s))
      → Keeps G (access f)
  unfolding access
  Keeps-access {A} f h = record { at = λ env w r. step env w (env.turn w.step) (r.at w.step) }
    where
      step :
          (env : Env) (w : World) (t : Turn)
          → TurnKeeps G t
          → G.rel (view w) (
              view (
                final {A = A} (elim t [
                  | others g ↦
                      let r = f (g w.db) in ok r.0 (record w { db = r.1; step = suc w.step })
                  | fault message ↦ thrown (other_error message) (tick w)
                ])))
      step env w (others g) k =
          G.chain (view w) (g w.db, w.settled) ((f (g w.db)).1, w.settled) (k w.db w.settled)
            (h (g w.db) w.settled)
      step env w (fault message) k = G.same (view w)

  pub Keeps-publish : (p : Publication) → Keeps G (publish p)
  Keeps-publish p = record { at = λ env w r. rw (publish-view p env w) (G.same (view w)) }

  pub Keeps-settle :
      (x : Settlement)
      → ((d : Db) (s : List Settlement) → G.rel (d, s) (d, s ++ x ∷ []))
      → Keeps G (settle x)
  unfolding settle
  Keeps-settle x h = record { at = λ env w r. answer w (env.broker w.step) }
    where
      answer :
          (w : World) (a : Answer)
          → G.rel (view w) (
              view (
                final {A = Unit {0}} (elim a [
                  | accepted ↦ ok tt (record w { settled = w.settled ++ x ∷ []; step = suc w.step })
                  | backpressure ↦
                      ok tt (record w { settled = w.settled ++ x ∷ []; step = suc w.step })
                  | rejected message ↦ thrown (other_error message) (tick w)
                ])))
      answer w accepted = h w.db w.settled
      answer w backpressure = h w.db w.settled
      answer w (rejected m) = G.same (view w)

  pub Keeps-now : Keeps G now
  unfolding now
  Keeps-now = record { at = λ env w r. G.same (view w) }

  pub Keeps-fresh_id : Keeps G fresh_id
  unfolding fresh_id
  Keeps-fresh_id = record { at = λ env w r. G.same (view w) }

  pub Keeps-ask : {A : Type 0} (f : Env → A) → Keeps G (ask f)
  unfolding ask
  Keeps-ask f = record { at = λ env w r. G.same (view w) }

  pub Keeps-call : {A : Type 0} (f : Env → ℕ → A) → Keeps G (call f)
  unfolding call
  Keeps-call f = record { at = λ env w r. G.same (view w) }

  pub Keeps-hand_over : (e : Email) → Keeps G (hand_over e)
  unfolding hand_over
  Keeps-hand_over e = record { at = λ env w r. G.same (view w) }

  pub Keeps-for_each :
      {A : Type 0} (xs : List A) (body : A → M (Unit {0}))
      → ((x : A) → Keeps G (body x))
      → Keeps G (for_each xs body)
  unfolding for_each
  Keeps-for_each [] body h = Keeps-pure tt
  Keeps-for_each (x ∷ xs) body h =
      Keeps-bind (body x) (λ _. for_each xs body) (h x) (λ _. Keeps-for_each xs body h)

  pub Keeps-if :
      {A : Type 0} (b : Bool) (m n : M A)
      → (b ≡ true → Keeps G m)
      → (b ≡ false → Keeps G n)
      → Keeps G (if b then m else n)
  Keeps-if true m n km kn = km refl
  Keeps-if false m n km kn = kn refl

pub ruleset keeps_rules = (
  Keeps-pure, Keeps-throw, Keeps-try_then, Keeps-try_catch, Keeps-bind, Keeps-publish, Keeps-now,
  Keeps-fresh_id, Keeps-ask, Keeps-call, Keeps-hand_over, Keeps-for_each, Keeps-if,
)
