-- ===== src/Worker/Enrichment.antt =====
-- `processLeadEnrichment` of apps/execution-worker/src/enrichment/process-lead-enrichment.ts.
pub mod Reading
pub mod Consumer
pub mod Safe
pub mod Routes
pub mod Completes
pub mod Settled
pub mod Again
pub mod Stored
use vigil_summit_agent.Prelude.{
  String, Bool, true, false, Option, none, some, List, [], ◌∷◌, ◌++◌, ◌&&◌, ◌=ₛ◌, ◌<>◌,
  if◌then◌else◌, find, ℕ,
}
use vigil_summit_agent.Contracts.Message.{
  lead_enrichment_completed, producer_engagement_worker, message_schema_version, lead_enriched,
  Message,
}
use vigil_summit_agent.Json.{Fields}
use vigil_summit_agent.Engagement.Tables.{
  Lead, Event, Registration, EnrichmentInput, EnrichmentResult, SnapshotStatus, enrichment_pending,
  enrichment_succeeded, enrichment_failed, Snapshot, Tables, Enriched, enriched_as,
  enrichment_refused, enrichment_broken, Services,
}
use vigil_summit_agent.Engagement.Enroll.{qualify_and_enroll}
use vigil_summit_agent.Worker.State.{
  Db, Error, enrichment_error, other_error, worker_error, client_error, Env,
}
use vigil_summit_agent.Worker.Effects.{
  M, pure, throw, ◌>>=◌, ◌>>◌, try_catch, access, now, fresh_id, ask, call,
}
use vigil_summit_agent.Worker.Outbox.{error_message, persist_outbox_event}

-- `LeadEnrichmentRequestedMessage`, read out of the JSON object `body`.
pub record EnrichmentCommand : Type 0 where
  pub body : Fields
  pub message_id : String
  pub workspace_id : String
  pub correlation_id : String
  pub event_id : String
  pub lead_id : String
  pub registration_id : String

-- The registration with its lead and its event, which the foreign keys of the schema guarantee.
pub record Context : Type 0 where
  pub registration : Registration
  pub lead : Lead
  pub event : Event

abbrev is_asked_for : EnrichmentCommand → Registration → Bool
is_asked_for message r =
    r.id =ₛ message.registration_id
    && r.workspace_id =ₛ message.workspace_id
    && r.event_id =ₛ message.event_id
    && r.lead_id =ₛ message.lead_id

abbrev joined : Option Registration → Tables → Option Context
joined none t = none
joined (some r) t = elim (find (λ l. l.id =ₛ r.lead_id) t.leads) [
  | none ↦ none
  | some lead ↦ elim (find (λ e. e.id =ₛ r.event_id) t.events) [
    | none ↦ none
    | some event ↦ some (record { registration = r; lead = lead; event = event })
  ]
]

-- The `findFirst` of the registration, with what it includes
unfoldable pub find_context : EnrichmentCommand → Db → Option Context
find_context message db =
    joined (find (is_asked_for message) db.engagement.registrations) db.engagement

abbrev pub is_of : String → Snapshot → Bool
is_of registration_id s = s.registration_id =ₛ registration_id

-- `enrichmentSnapshot.findUnique({ where: { registrationId } })`
abbrev pub snapshot_of : String → Db → Option Snapshot
snapshot_of registration_id db = find (is_of registration_id) db.engagement.snapshots

abbrev pub is_done : SnapshotStatus → Bool
is_done enrichment_succeeded = true
is_done _ = false

abbrev pub update_where : (Snapshot → Bool) → (Snapshot → Snapshot) → List Snapshot → List Snapshot
update_where p f [] = []
update_where p f (s ∷ ss) = if p s then f s ∷ ss else s ∷ update_where p f ss

abbrev with_snapshots : List Snapshot → Db → Db
with_snapshots ss db = record db { engagement = record db.engagement { snapshots = ss } }

unfoldable pub restart : Services → ℕ → Snapshot → Snapshot
restart services started_at s = record s {
  provider = services.provider_name;
  provider_version = services.provider_version;
  status = enrichment_pending;
  error_code = none;
  error_message = none;
  started_at = some started_at;
  completed_at = none;
}

unfoldable pub new_snapshot : Services → EnrichmentCommand → String → ℕ → Snapshot
new_snapshot services message id started_at = record {
  id = id;
  workspace_id = message.workspace_id;
  event_id = message.event_id;
  lead_id = message.lead_id;
  registration_id = message.registration_id;
  provider = services.provider_name;
  provider_version = services.provider_version;
  status = enrichment_pending;
  result = none;
  error_code = none;
  error_message = none;
  started_at = some started_at;
  completed_at = none;
}

-- `enrichmentSnapshot.upsert` by the registration
unfoldable pub start_snapshot :
    Services → EnrichmentCommand → String → ℕ → Option Snapshot → Db → Snapshot × Db
start_snapshot services message id started_at none db =
    let s = new_snapshot services message id started_at in
    (s, with_snapshots (db.engagement.snapshots ++ s ∷ []) db)
start_snapshot services message id started_at (some old) db = (
  restart services started_at old,
  with_snapshots
      (update_where (is_of message.registration_id) (restart services started_at)
        db.engagement.snapshots)
      db,
)

unfoldable pub to_enriched : EnrichmentResult → ℕ → Snapshot → Snapshot
to_enriched result completed_at s = record s {
  provider = result.provider;
  provider_version = result.provider_version;
  status = enrichment_succeeded;
  result = some result;
  completed_at = some completed_at;
}

unfoldable pub to_failed_snapshot : String → String → ℕ → Snapshot → Snapshot
to_failed_snapshot code message completed_at s = record s {
  status = enrichment_failed;
  error_code = some code;
  error_message = some message;
  completed_at = some completed_at;
}

-- `enrichmentSnapshot.update({ where: { id }, data })`: the row after it, or `none` without such a
-- row, where it throws.
abbrev pub update_found :
    String → (Snapshot → Snapshot) → Option Snapshot → Db → Option Snapshot × Db
update_found id f none db = (none, db)
update_found id f (some s) db =
    (some (f s), with_snapshots (update_where (λ s. s.id =ₛ id) f db.engagement.snapshots) db)

abbrev pub update_snapshot : String → (Snapshot → Snapshot) → Db → Option Snapshot × Db
update_snapshot id f db = update_found id f (find (λ s. s.id =ₛ id) db.engagement.snapshots) db

unfoldable pub require_snapshot : Option Snapshot → M Snapshot
require_snapshot none = throw (other_error "Record to update not found")
require_snapshot (some s) = pure s

-- `createCompletedMessage`
unfoldable pub completed_message :
    EnrichmentCommand → String → EnrichmentResult → String → ℕ → Message
completed_message request snapshot_id result event_id occurred_at = record {
  event_name = lead_enrichment_completed;
  event_id = event_id;
  schema_version = message_schema_version;
  occurred_at = occurred_at;
  workspace_id = request.workspace_id;
  correlation_id = request.correlation_id;
  causation_id = request.message_id;
  producer = producer_engagement_worker;
  idempotency_key = some ("lead.enrichment.completed:" <> request.registration_id);
  payload =
      lead_enriched request.event_id request.lead_id request.registration_id snapshot_id
        result.provider result.confidence;
}

unfoldable pub enrichment_input : Context → EnrichmentInput
enrichment_input c = record {
  full_name = c.lead.full_name;
  work_email = c.lead.work_email;
  job_title = c.lead.job_title;
  company_name = c.lead.company_name;
  company_domain = c.lead.company_domain;
  interest_topics = c.registration.interest_topics;
}

-- `provider.enrich(...)`
unfoldable pub give_result : Enriched → M EnrichmentResult
give_result (enriched_as result) = pure result
give_result (enrichment_refused code message retryable) =
    throw (enrichment_error code message retryable)
give_result (enrichment_broken message) = throw (other_error message)

-- The transaction, for the snapshot's row after its update, which is the first statement: where it
-- throws, nothing is written yet. The statements after it create rows or insert them by upserts, and
-- an error of the database in any of them is a fault of the whole call, which leaves the tables.
abbrev pub store_rest :
    Services
    → Context
    → Snapshot
    → (String → String)
    → ℕ
    → EnrichmentResult
    → Message
    → Option Snapshot × Db
    → Option Snapshot × Db
store_rest services c snapshot new_id completed_at result message (none, db) = (none, db)
store_rest services c snapshot new_id completed_at result message (some s, db) =
    let enrolled = record db {
      engagement =
          qualify_and_enroll services.text_ops c.registration c.event snapshot.id new_id
            completed_at result db.engagement;
    } in
    (some s, (persist_outbox_event (new_id "outbox") message.event_name message enrolled).1)

-- The transaction; where the snapshot's row is gone, it throws.
unfoldable pub store_result :
    Services
    → Context
    → Snapshot
    → (String → String)
    → ℕ
    → EnrichmentResult
    → Message
    → Db
    → Option Snapshot × Db
store_result services c snapshot new_id completed_at result message db =
    store_rest services c snapshot new_id completed_at result message
      (update_snapshot snapshot.id (to_enriched result completed_at) db)

-- The `try`
unfoldable pub enrich_and_store : EnrichmentCommand → Context → Snapshot → M Snapshot
enrich_and_store message c snapshot = do
  reply ← call (λ env n. env.services.enrich n (enrichment_input c))
  result ← give_result reply
  completed_at ← now
  event_id ← fresh_id
  occurred_at ← now
  new_id ← call (λ env n. env.services.row_id n)
  services ← ask (λ env. env.services)
  stored ← access (
      store_result services c snapshot new_id completed_at result
        (completed_message message snapshot.id result event_id occurred_at))
  require_snapshot stored

-- `normalizeFailure` of process-lead-enrichment.ts
unfoldable pub normalize_failure : Error → Error
normalize_failure (enrichment_error code message retryable) =
    enrichment_error code message retryable
normalize_failure (other_error message) =
    enrichment_error "lead_enrichment_provider_failed" message true
normalize_failure (worker_error code message retryable) =
    enrichment_error "lead_enrichment_provider_failed" message true
normalize_failure (client_error code message retryable body) =
    enrichment_error "lead_enrichment_provider_failed" message true

abbrev code_of : Error → String
code_of (enrichment_error code _ _) = code
code_of (worker_error code _ _) = code
code_of (client_error code _ _ _) = code
code_of (other_error _) = ""

-- The `catch`
unfoldable pub record_failure : Snapshot → Error → M Snapshot
record_failure snapshot failure = do
  completed_at ← now
  row ← access (
      update_snapshot snapshot.id
        (to_failed_snapshot (code_of failure) (error_message failure) completed_at))
  require_snapshot row
  throw failure

unfoldable pub run_enrichment : EnrichmentCommand → Context → M Snapshot
run_enrichment message c = do
  started_at ← now
  id ← fresh_id
  services ← ask (λ env. env.services)
  snapshot ← access (λ db.
      start_snapshot services message id started_at (snapshot_of message.registration_id db) db)
  try_catch (enrich_and_store message c snapshot)
      (λ e. record_failure snapshot (normalize_failure e))

unfoldable pub unless_done : EnrichmentCommand → Context → Option Snapshot → M Snapshot
unless_done message c none = run_enrichment message c
unless_done message c (some s) = if is_done s.status then pure s else run_enrichment message c

unfoldable pub with_context : EnrichmentCommand → Option Context → M Snapshot
with_context message none = throw (
    enrichment_error "lead_enrichment_context_not_found"
      "Registration and lead context do not match the enrichment command" false)
with_context message (some c) = do
  existing ← access (λ db. (snapshot_of message.registration_id db, db))
  unless_done message c existing

unfoldable pub process_lead_enrichment : EnrichmentCommand → M Snapshot
process_lead_enrichment message = do
  context ← access (λ db. (find_context message db, db))
  with_context message context
