-- ===== src/Worker/Triples.antt =====
-- What holds after an action returns and after it throws, from what holds before it.
use vigil_summit_agent.Prelude.{
  [], ◌∷◌, ◌++◌, suc, List, Bool, true, false, if◌then◌else◌, ◌≡◌, refl,
}
use vigil_summit_agent.Worker.State.{
  Db, Error, other_error, Settlement, World, Turn, others, fault, Env, Answer, accepted,
  backpressure, rejected,
}
use vigil_summit_agent.Worker.Effects.{
  Outcome, ok, thrown, M, final, pure, throw, ◌>>=◌, try_then, try_catch, ask, access, tick, settle,
}
use vigil_summit_agent.Worker.Keeps.{View, view, Guarantee, TurnKeeps, Rely, Keeps}

-- `Q` of the value and the world of a return, `R` of the error and the world of a throw.
abbrev pub Post :
    {A : Type 0} → (A → World → Type 0) → (Error → World → Type 0) → Outcome A → Type 0
Post Q R (ok a w) = Q a w
Post Q R (thrown e w) = R e w

module _ (env : Env) where
  pub record Ensures (P : World → Type 0) {A : Type 0} (m : M A) (Q : A → World → Type 0)
      (R : Error → World → Type 0) : Type 0 where
    pub at : (w : World) → P w → Post Q R (m env w)

module _ {env : Env} {P : World → Type 0} where
  pub Ensures-pure :
      {A : Type 0} {Q : A → World → Type 0} {R : Error → World → Type 0} (a : A)
      → ((w : World) → P w → Q a w)
      → Ensures env P (pure a) Q R
  unfolding pure
  Ensures-pure a h = record { at = λ w p. h w p }

  pub Ensures-throw :
      {A : Type 0} {Q : A → World → Type 0} {R : Error → World → Type 0} (e : Error)
      → ((w : World) → P w → R e w)
      → Ensures env P (throw {A = A} e) Q R
  unfolding throw
  Ensures-throw e h = record { at = λ w p. h w p }

  pub Ensures-ask :
      {A : Type 0} {Q : A → World → Type 0} {R : Error → World → Type 0} (f : Env → A)
      → ((w : World) → P w → Q (f env) w)
      → Ensures env P (ask f) Q R
  unfolding ask
  Ensures-ask f h = record { at = λ w p. h w p }

  pub Ensures-try_then :
      {A B : Type 0} {Q : A → World → Type 0} {R : Error → World → Type 0} {S : B → World → Type 0}
      {T : Error → World → Type 0} (m : M A) (f : A → M B) (h : Error → M B)
      → Ensures env P m Q R
      → ((a : A) → Ensures env (Q a) (f a) S T)
      → ((e : Error) → Ensures env (R e) (h e) S T)
      → Ensures env P (try_then m f h) S T
  unfolding try_then
  Ensures-try_then {A} {B} {Q} {R} {S} {T} m f h em ef eh = record {
    at = λ w p. after (m env w) (em.at w p);
  }
    where
      after :
          (o : Outcome A)
          → Post Q R o
          → Post S T (elim o [ ok a w' ↦ f a env w' | thrown e w' ↦ h e env w' ])
      after (ok a w') q = (ef a).at w' q
      after (thrown e w') r = (eh e).at w' r

  pub Ensures-try_catch :
      {A : Type 0} {Q : A → World → Type 0} {R T : Error → World → Type 0} (m : M A)
      (h : Error → M A)
      → Ensures env P m Q R
      → ((e : Error) → Ensures env (R e) (h e) Q T)
      → Ensures env P (try_catch m h) Q T
  unfolding try_catch try_then pure
  Ensures-try_catch {A} {Q} {R} {T} m h em eh = record {
    at = (Ensures-try_then m pure h em (λ a. record { at = λ w q. q }) eh).at;
  }

  -- Past an action that may throw, to the same `R`.
  pub Ensures-bind :
      {A B : Type 0} {Q : A → World → Type 0} {R : Error → World → Type 0} {S : B → World → Type 0}
      (m : M A) (f : A → M B)
      → Ensures env P m Q R
      → ((a : A) → Ensures env (Q a) (f a) S R)
      → Ensures env P (m >>= f) S R
  unfolding ◌>>=◌ try_then throw
  Ensures-bind m f em ef = record {
    at = (Ensures-try_then m f throw em ef (λ e. record { at = λ w r. r })).at;
  }

  pub Ensures-if :
      {A : Type 0} {Q : A → World → Type 0} {R : Error → World → Type 0} (b : Bool) (m n : M A)
      → (b ≡ true → Ensures env P m Q R)
      → (b ≡ false → Ensures env P n Q R)
      → Ensures env P (if b then m else n) Q R
  Ensures-if true m n em en = em refl
  Ensures-if false m n em en = en refl

  -- A weaker precondition and stronger postconditions serve as well.
  pub Ensures-weaken :
      {P' : World → Type 0} {A : Type 0} {Q Q' : A → World → Type 0} {R R' : Error → World → Type 0}
      (m : M A)
      → ((w : World) → P w → P' w)
      → ((a : A) (w : World) → Q' a w → Q a w)
      → ((e : Error) (w : World) → R' e w → R e w)
      → Ensures env P' m Q' R'
      → Ensures env P m Q R
  Ensures-weaken {P'} {A} {Q} {Q'} {R} {R'} m p q r em = record {
    at = λ w h. after (m env w) (em.at w (p w h));
  }
    where
      after : (o : Outcome A) → Post Q' R' o → Post Q R o
      after (ok a w) h = q a w h
      after (thrown e w) h = r e w h

-- Either end of an action, where nothing is claimed.
pub Ensures-any :
    {env : Env} {P : World → Type 0} {A : Type 0} (m : M A)
    → Ensures env P m (λ a w. Unit) (λ e w. Unit)
Ensures-any {env} {P} {A} m = record { at = λ w p. either (m env w) }
  where
    either : (o : Outcome A) → Post (λ a w. Unit) (λ e w. Unit) o
    either (ok a w) = tt
    either (thrown e w) = tt

-- What a guarantee does not disturb.
abbrev pub Stable : Guarantee → (View → Type 0) → Type 0
Stable G P = (v v' : View) → G.rel v v' → P v → P v'

pub Ensures-keeps :
    {G : Guarantee} {env : Env} {P : View → Type 0} {A : Type 0} (m : M A)
    → Keeps G m
    → Stable G P
    → Rely G env
    → Ensures env (λ w. P (view w)) m (λ a w. P (view w)) (λ e w. P (view w))
Ensures-keeps {G} {env} {P} {A} m k stable r = record {
  at = λ w p. after (m env w) (stable (view w) (view (final (m env w))) (k.at env w r) p);
}
  where
    after : (o : Outcome A) → P (view (final o)) → Post (λ a w. P (view w)) (λ e w. P (view w)) o
    after (ok a w) p = p
    after (thrown e w) p = p

-- A database call: the other processes come first, and then the call's own step.
pub Ensures-access :
    {G : Guarantee} {env : Env} {P : View → Type 0} {A : Type 0} (Q : A → View → Type 0)
    (f : Db → A × Db)
    → Stable G P
    → Rely G env
    → ((d : Db) (s : List Settlement) → P (d, s) → Q (f d).0 ((f d).1, s))
    → Ensures env (λ w. P (view w)) (access f) (λ a w. Q a (view w)) (λ e w. P (view w))
unfolding access
Ensures-access {G} {env} {P} {A} Q f stable r h = record {
  at = λ w p. step w (env.turn w.step) (r.at w.step) p;
}
  where
    step :
        (w : World) (t : Turn)
        → TurnKeeps G t
        → P (view w)
        → Post {A = A}
            (λ a w'. Q a (view w'))
            (λ e w'. P (view w'))
            (elim t [
              | others g ↦ let r = f (g w.db) in ok r.0 (record w { db = r.1; step = suc w.step })
              | fault message ↦ thrown (other_error message) (tick w)
            ])
    step w (others g) k p =
        h (g w.db) w.settled (stable (view w) (g w.db, w.settled) (k w.db w.settled) p)
    step w (fault message) k p = p

-- What a database call gives, whatever the database is.
pub Ensures-result :
    {env : Env} {P : World → Type 0} {A : Type 0} (Q : A → Type 0) (f : Db → A × Db)
    → ((d : Db) → Q (f d).0)
    → Ensures env P (access f) (λ a w. Q a) (λ e w. Unit)
unfolding access
Ensures-result {env} {P} {A} Q f h = record { at = λ w p. step w (env.turn w.step) }
  where
    step :
        (w : World) (t : Turn)
        → Post {A = A}
            (λ a w'. Q a)
            (λ e w'. Unit)
            (elim t [
              | others g ↦ let r = f (g w.db) in ok r.0 (record w { db = r.1; step = suc w.step })
              | fault message ↦ thrown (other_error message) (tick w)
            ])
    step w (others g) = h (g w.db)
    step w (fault message) = tt

-- A settlement is counted once, or the call throws and it is not counted.
pub settle-Ensures :
    (env : Env) (x : Settlement) (P : World → Type 0) (Q : World → Type 0) (R : World → Type 0)
    → ((w : World) → P w → Q (record w { settled = w.settled ++ x ∷ []; step = suc w.step }))
    → ((w : World) → P w → R (tick w))
    → Ensures env P (settle x) (λ u w. Q w) (λ e w. R w)
unfolding settle
settle-Ensures env x P Q R done refused = record { at = λ w p. answer w p (env.broker w.step) }
  where
    answer :
        (w : World)
        → P w
        → (a : Answer)
        → Post {A = Unit {0}}
            (λ u w'. Q w')
            (λ e w'. R w')
            (elim a [
              | accepted ↦ ok tt (record w { settled = w.settled ++ x ∷ []; step = suc w.step })
              | backpressure ↦ ok tt (record w { settled = w.settled ++ x ∷ []; step = suc w.step })
              | rejected message ↦ thrown (other_error message) (tick w)
            ])
    answer w p accepted = done w p
    answer w p backpressure = done w p
    answer w p (rejected m) = refused w p
