-- ===== src/Worker/Dispatcher.antt =====
-- `dispatchDueScheduledActions` of
-- apps/execution-worker/src/engagement/scheduled-action-dispatcher.ts: claims, retries and the loop.
pub mod Reads
pub mod Send
pub mod Draft
pub mod Decide
pub mod Claims
pub mod Consent
use vigil_summit_agent.Prelude.{
  ℕ, zero, suc, ◌+◌, ◌-◌, ◌*◌, ◌^◌, min, String, Bool, true, false, Option, none, some, List, [],
  ◌∷◌, ◌&&◌, ◌||◌, ◌=ₛ◌, ◌==◌, leb, if◌then◌else◌, length, take, filter, map,
}
use vigil_summit_agent.Engagement.Cadence.{ActionType, send_message}
use vigil_summit_agent.Engagement.Tables.{
  ActionStatus, action_pending, dispatching, action_failed, Action,
}
use vigil_summit_agent.Worker.State.{Db, Error}
use vigil_summit_agent.Worker.Effects.{M, pure, ◌>>=◌, ◌>>◌, try_then, access}
use vigil_summit_agent.Worker.Outbox.{error_message}
use vigil_summit_agent.Worker.Dispatcher.Reads.{with_actions, update_action}
use vigil_summit_agent.Worker.Dispatcher.Send.{process_message_send}
use vigil_summit_agent.Worker.Dispatcher.Decide.{process_agent_decision}

abbrev pub batch_size : ℕ
batch_size = 25

abbrev pub lease_ms : ℕ
lease_ms = 60000

abbrev pub max_attempts : ℕ
max_attempts = 5

abbrev is_pending : ActionStatus → Bool
is_pending action_pending = true
is_pending _ = false

abbrev is_dispatching : ActionStatus → Bool
is_dispatching dispatching = true
is_dispatching _ = false

-- `x: { lte: now }`, which no row without an `x` fulfils
abbrev is_over : ℕ → Option ℕ → Bool
is_over now none = false
is_over now (some t) = leb t now

abbrev is_due : ℕ → Action → Bool
is_due now a =
    is_pending a.status && leb a.due_at now || is_dispatching a.status && is_over now a.lease_until

-- `orderBy: { dueAt: "asc" }`
abbrev by_due : Action → List Action → List Action
by_due a [] = a ∷ []
by_due a (b ∷ bs) = if leb a.due_at b.due_at then a ∷ b ∷ bs else b ∷ by_due a bs

abbrev sort_by_due : List Action → List Action
sort_by_due [] = []
sort_by_due (a ∷ as') = by_due a (sort_by_due as')

-- The `findMany`
unfoldable pub due_actions : ℕ → List Action → List Action
due_actions now actions = take batch_size (sort_by_due (filter (is_due now) actions))

abbrev pub is_claimable : String → ℕ → Action → Bool
is_claimable id now a =
    a.id =ₛ id && (is_pending a.status || is_dispatching a.status && is_over now a.lease_until)

unfoldable pub lease : ℕ → Action → Action
lease now a = record a {
  status = dispatching;
  lease_until = some (now + lease_ms);
  attempts = a.attempts + 1;
}

abbrev claim_rows : String → ℕ → List Action → List Action
claim_rows id now actions = map (λ a. if is_claimable id now a then lease now a else a) actions

-- The `updateMany`, with its count
unfoldable pub claim : String → ℕ → Db → ℕ × Db
claim id now db = (
  length (filter (is_claimable id now) db.engagement.actions),
  with_actions (claim_rows id now db.engagement.actions) db,
)

-- The delay before the next attempt, after the given number of attempts.
unfoldable pub backoff : ℕ → ℕ
backoff attempts = min 300000 (10000 * 2 ^ (attempts - 1))

-- The `update` in the `catch`, after the given number of attempts.
unfoldable pub retry_or_fail : ℕ → ℕ → String → Action → Action
retry_or_fail now attempts message a = record a {
  status = if leb max_attempts attempts then action_failed else action_pending;
  due_at = now + backoff attempts;
  lease_until = none;
  last_error = some message;
}

abbrev is_send : ActionType → Bool
is_send send_message = true
is_send _ = false

-- `processScheduledAction`
unfoldable pub process_scheduled_action : Action → ℕ → M (Unit {0})
process_scheduled_action a now =
    if is_send a.type
    then process_message_send a.id a.payload now
    else process_agent_decision a.id a.type a.payload now

-- What the function returns.
pub record Dispatched : Type 0 where
  pub fetched : ℕ
  pub completed : ℕ
  pub failed : ℕ

unfoldable pub process_claimed : ℕ → Dispatched → Action → M Dispatched
process_claimed now c a =
    try_then (process_scheduled_action a now) (λ _. pure (record c { completed = c.completed + 1 }))
      (λ e. do
        update_action a.id (retry_or_fail now (a.attempts + 1) (error_message e))
        pure (record c { failed = c.failed + 1 }))

unfoldable pub dispatch_one : ℕ → Dispatched → Action → M Dispatched
dispatch_one now c a = do
  count ← access (claim a.id now)
  if count == 0 then pure c else process_claimed now c a

unfoldable pub dispatch_each : ℕ → Dispatched → List Action → M Dispatched
dispatch_each now c [] = pure c
dispatch_each now c (a ∷ rest) = dispatch_one now c a >>= λ c'. dispatch_each now c' rest

-- `dispatchDueScheduledActions`
unfoldable pub dispatch_due_scheduled_actions : ℕ → M Dispatched
dispatch_due_scheduled_actions now = do
  candidates ← access (λ db. (due_actions now db.engagement.actions, db))
  dispatch_each now (record { fetched = length candidates; completed = 0; failed = 0 }) candidates
