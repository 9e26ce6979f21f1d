-- ===== src/Worker/Effects.antt =====
-- The effects of the worker's code: `await` of a database call, `channel.publish`, `ack`, the clock,
-- fresh identifiers, `throw` and `try`. What was written before a throw stays written.
use vigil_summit_agent.Prelude.{ℕ, suc, String, Bool, true, false, List, [], ◌∷◌, ◌++◌}
use vigil_summit_agent.Engagement.Tables.{Email}
use vigil_summit_agent.Worker.State.{
  Db, Error, other_error, Publication, Settlement, World, others, fault, accepted, backpressure,
  rejected, Env,
}

pub data Outcome (A : Type 0) : Type 0 where
  ok : A → World → Outcome A
  thrown : Error → World → Outcome A

abbrev pub M : Type 0 → Type 0
M A = Env → World → Outcome A

-- The world at the end, after a return or a throw.
abbrev pub final : {A : Type 0} → Outcome A → World
final (ok _ w) = w
final (thrown _ w) = w

abbrev pub tick : World → World
tick w = record w { step = suc w.step }

unfoldable pub pure : {A : Type 0} → A → M A
pure a env w = ok a w

unfoldable pub throw : {A : Type 0} → Error → M A
throw e env w = thrown e w

infixl 5 ◌>>=◌ ◌>>◌
unfoldable pub ◌>>=◌ : {A B : Type 0} → M A → (A → M B) → M B
◌>>=◌ m f env w = elim (m env w) [ ok a w' ↦ f a env w' | thrown e w' ↦ thrown e w' ]

abbrev pub ◌>>◌ : {A B : Type 0} → M A → M B → M B
m >> k = m >>= λ _. k

-- `try { m } catch (error) { handler(error) }`, and what follows a normal end.
unfoldable pub try_then : {A B : Type 0} → M A → (A → M B) → (Error → M B) → M B
try_then m f handler env w = elim (m env w) [
  | ok a w' ↦ f a env w'
  | thrown e w' ↦ handler e env w'
]

unfoldable pub try_catch : {A : Type 0} → M A → (Error → M A) → M A
unfolding try_then pure
try_catch m handler = try_then m pure handler

-- One database call, or one transaction.
unfoldable pub access : {A : Type 0} → (Db → A × Db) → M A
access f env w = elim (env.turn w.step) [
  | others g ↦ let r = f (g w.db) in ok r.0 (record w { db = r.1; step = suc w.step })
  | fault message ↦ thrown (other_error message) (tick w)
]

-- `channel.publish(...)`; on backpressure the broker's client holds the message and returns false.
unfoldable pub publish : Publication → M Bool
publish p env w = elim (env.broker w.step) [
  | accepted ↦ ok true (record w { sent = w.sent ++ p ∷ []; step = suc w.step })
  | backpressure ↦ ok false (record w { sent = w.sent ++ p ∷ []; step = suc w.step })
  | rejected message ↦ thrown (other_error message) (tick w)
]

-- `channel.ack(message)`, `channel.nack(message, false, requeue)`: like a publication, it throws on a
-- channel that is closed.
unfoldable pub settle : Settlement → M (Unit {0})
settle s env w = elim (env.broker w.step) [
  | accepted ↦ ok tt (record w { settled = w.settled ++ s ∷ []; step = suc w.step })
  | backpressure ↦ ok tt (record w { settled = w.settled ++ s ∷ []; step = suc w.step })
  | rejected message ↦ thrown (other_error message) (tick w)
]

-- `new Date()`
unfoldable pub now : M ℕ
now env w = ok (env.clock w.step) (tick w)

-- `randomUUID()`, and the default id of a row
unfoldable pub fresh_id : M String
fresh_id env w = ok (env.uuid w.step) (tick w)

unfoldable pub ask : {A : Type 0} → (Env → A) → M A
ask f env w = ok (f env) w

-- A call over the network.
unfoldable pub call : {A : Type 0} → (Env → ℕ → A) → M A
call f env w = ok (f env w.step) (tick w)

-- The handover of an email to the provider, before its answer is known.
unfoldable pub hand_over : Email → M (Unit {0})
hand_over email env w = ok tt (record w { emails = w.emails ++ email ∷ [] })

-- `for (const x of xs) await body(x)`
unfoldable pub for_each : {A : Type 0} → List A → (A → M (Unit {0})) → M (Unit {0})
for_each [] body = pure tt
for_each (x ∷ xs) body = body x >> for_each xs body

-- Everything above, for runs at concrete inputs.
unfoldable pub effects : Unit {0}
unfolding pure throw ◌>>=◌ try_then try_catch access publish settle now fresh_id ask call hand_over
    for_each
effects = tt
