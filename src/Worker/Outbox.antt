-- ===== src/Worker/Outbox.antt =====
-- The transactional outbox of apps/execution-worker/src/index.ts: `persistOutboxEvent`,
-- `dispatchOutboxEvent`, `markOutboxPublishFailure` and the two loops over pending rows.
-- The content type, the delivery mode and the timestamp of a publication are left out.
pub mod Rows
pub mod Persist
pub mod Dispatch
pub mod Live
pub mod Unique
use vigil_summit_agent.Prelude.{
  ℕ, ◌+◌, String, Bool, true, false, Option, none, some, List, [], ◌∷◌, ◌++◌, ◌&&◌, leb, ltb,
  if◌then◌else◌, get_or_else, length, take, filter, find, includes, ◌<>◌, ◌=ₛ◌,
}
use vigil_summit_agent.Json.{whole, num, str, Fields, end, field}
use vigil_summit_agent.Contracts.Message.{RoutingKey, routing_key_text, exchange_events, Message}
use vigil_summit_agent.Worker.State.{
  OutboxStatus, OutboxMessage, lifecycle, Db, Error, other_error, worker_error, client_error,
  enrichment_error, Publication,
}
use vigil_summit_agent.Worker.Effects.{
  M, pure, throw, ◌>>=◌, ◌>>◌, try_then, access, publish, now, for_each, effects,
}

abbrev pub dispatcher_batch_size : ℕ
dispatcher_batch_size = 25

abbrev pub max_publish_attempts : ℕ
max_publish_attempts = 5

-- `error.message`
unfoldable pub error_message : Error → String
error_message (worker_error _ message _) = message
error_message (client_error _ message _ _) = message
error_message (enrichment_error _ message _) = message
error_message (other_error message) = message

unfoldable pub outbox_headers : Message → Fields
outbox_headers m = field "correlationId" (str m.correlation_id) (
    field "producer" (str m.producer) (
      field "schemaVersion" (num (whole m.schema_version))
        (field "workspaceId" (str m.workspace_id) end)))

-- `message.idempotencyKey ?? message.eventId`
unfoldable pub key_of : Message → String
key_of m = get_or_else m.idempotency_key m.event_id

abbrev pub has_key : String → OutboxMessage → Bool
has_key k row = row.idempotency_key =ₛ k

-- The row that `create` inserts, with the id that the database gives it.
unfoldable pub new_row : String → RoutingKey → Message → OutboxMessage
new_row id routing_key m = record {
  id = id;
  exchange = exchange_events;
  routing_key = routing_key_text routing_key;
  event_name = routing_key_text m.event_name;
  message_id = m.event_id;
  idempotency_key = key_of m;
  payload = lifecycle m;
  headers = outbox_headers m;
  status = OutboxStatus.pending;
  attempts = 0;
  last_error = none;
  published_at = none;
}

abbrev pub upsert_row : Option OutboxMessage → OutboxMessage → Db → OutboxMessage × Db
upsert_row (some old) row db = (old, db)
upsert_row none row db = (row, record db { outbox = db.outbox ++ row ∷ [] })

-- `persistOutboxEvent`: an upsert by the idempotency key that updates nothing.
unfoldable pub persist_outbox_event : String → RoutingKey → Message → Db → OutboxMessage × Db
persist_outbox_event id routing_key m db =
    upsert_row (find (has_key (key_of m)) db.outbox) (new_row id routing_key m) db

abbrev pub update_rows :
    String → (OutboxMessage → OutboxMessage) → List OutboxMessage → List OutboxMessage
update_rows id f [] = []
update_rows id f (row ∷ rows) =
    if row.id =ₛ id then f row ∷ update_rows id f rows else row ∷ update_rows id f rows

unfoldable pub require_found : Option OutboxMessage → M (Unit {0})
require_found none = throw (other_error "Record to update not found")
require_found (some _) = pure tt

unfoldable pub write_rows :
    String → (OutboxMessage → OutboxMessage) → Db → Option OutboxMessage × Db
write_rows id f db =
    (find (λ r. r.id =ₛ id) db.outbox, record db { outbox = update_rows id f db.outbox })

-- `prisma.outboxMessage.update({ where: { id }, data })`, which throws where no row has the id.
unfoldable pub update_outbox : String → (OutboxMessage → OutboxMessage) → M (Unit {0})
update_outbox id f = do row ← access (write_rows id f); require_found row

-- What `markOutboxPublishFailure` writes into the row, from the row that the caller has read.
unfoldable pub mark_failed : OutboxMessage → String → OutboxMessage → OutboxMessage
mark_failed seen message row = record row {
  attempts = seen.attempts + 1;
  last_error = some message;
  status =
      if leb max_publish_attempts (seen.attempts + 1) then OutboxStatus.failed else seen.status;
}

unfoldable pub mark_outbox_publish_failure : OutboxMessage → String → M (Unit {0})
mark_outbox_publish_failure seen message = update_outbox seen.id (mark_failed seen message)

unfoldable pub mark_published : ℕ → OutboxMessage → OutboxMessage
mark_published at row = record row {
  status = OutboxStatus.published;
  attempts = row.attempts + 1;
  last_error = none;
  published_at = some at;
}

unfoldable pub publication : OutboxMessage → Publication
publication row = record {
  exchange = row.exchange;
  routing_key = row.routing_key;
  content = row.payload;
  message_id = some row.message_id;
  type = some row.event_name;
  headers = row.headers;
}

abbrev pub is_published : OutboxStatus → Bool
is_published OutboxStatus.published = true
is_published _ = false

abbrev pub is_pending : OutboxStatus → Bool
is_pending OutboxStatus.pending = true
is_pending _ = false

-- The part of `dispatchOutboxEvent` after the publication.
unfoldable pub after_publish : OutboxMessage → Bool → M (Unit {0})
after_publish row true = do at ← now; update_outbox row.id (mark_published at)
after_publish row false = do
  mark_outbox_publish_failure row "RabbitMQ channel backpressure while publishing outbox message"
  throw (other_error "RabbitMQ channel backpressure while publishing outbox message")

unfoldable pub dispatch_outbox_event : OutboxMessage → M (Unit {0})
dispatch_outbox_event row =
    if is_published row.status
    then pure tt
    else try_then (publish (publication row)) (after_publish row)
        (λ e. mark_outbox_publish_failure row (error_message e) >> throw e)

pub record Dispatched : Type 0 where
  pub fetched : ℕ
  pub failed : ℕ
  pub published : ℕ

-- The rows that `dispatchPendingOutboxMessages` fetches.
unfoldable pub due_rows : ℕ → List OutboxMessage → List OutboxMessage
due_rows batch_size rows =
    take batch_size (filter (λ r. is_pending r.status && ltb r.attempts max_publish_attempts) rows)

-- The loop over the fetched rows, with its two counters.
unfoldable pub dispatch_rows : List OutboxMessage → ℕ → ℕ → M (ℕ × ℕ)
dispatch_rows [] failed published = pure (failed, published)
dispatch_rows (row ∷ rows) failed published =
    try_then (dispatch_outbox_event row) (λ _. dispatch_rows rows failed (published + 1))
      (λ _. dispatch_rows rows (failed + 1) published)

unfoldable pub dispatch_pending_outbox_messages : ℕ → M Dispatched
dispatch_pending_outbox_messages batch_size = do
  rows ← access (λ db. (due_rows batch_size db.outbox, db))
  counts ← dispatch_rows rows 0 0
  pure (record { fetched = length rows; failed = counts.0; published = counts.1 })

abbrev pub started_key : String → String
started_key execution_id = "workflow.execution.started:" <> execution_id

abbrev pub completed_key : String → String
completed_key execution_id = "workflow.execution.completed:" <> execution_id

abbrev pub failed_key : String → String
failed_key execution_id = "workflow.execution.failed:" <> execution_id

unfoldable pub execution_keys : String → List String
execution_keys id = started_key id ∷ completed_key id ∷ failed_key id ∷ []

unfoldable pub pending_of_execution : String → List OutboxMessage → List OutboxMessage
pending_of_execution id rows =
    filter (λ r. is_pending r.status && includes (execution_keys id) r.idempotency_key) rows

-- `dispatchPendingWorkflowExecutionOutboxMessages`
unfoldable pub dispatch_pending_execution_outbox : String → M (Unit {0})
dispatch_pending_execution_outbox id = do
  rows ← access (λ db. (pending_of_execution id db.outbox, db))
  for_each rows dispatch_outbox_event

-- Everything above, for runs at concrete inputs.
unfoldable pub outbox_code : Unit {0}
unfolding error_message outbox_headers key_of new_row persist_outbox_event require_found write_rows
    update_outbox mark_failed mark_outbox_publish_failure mark_published publication after_publish
    dispatch_outbox_event due_rows dispatch_rows dispatch_pending_outbox_messages execution_keys
    pending_of_execution dispatch_pending_execution_outbox effects routing_key_text
outbox_code = tt
