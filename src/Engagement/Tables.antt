-- ===== src/Engagement/Tables.antt =====
-- The tables of apps/api/prisma/schema.prisma that the engagement part of the execution worker reads
-- and writes, with the columns that it uses, and the services that it calls. The only communication
-- channel of the schema is EMAIL, and it is left out. Times are milliseconds.
use vigil_summit_agent.Prelude.{ℕ, String, Bool, Option, List}
use vigil_summit_agent.Json.{Number, Json, Fields}
use vigil_summit_agent.Engagement.Policy.{Purpose, RegistrationStatus}
use vigil_summit_agent.Engagement.Cadence.{ActionType}
use vigil_summit_agent.Engagement.Qualification.{QualificationResult, TextOps}

pub record Lead : Type 0 where
  pub id : String
  pub workspace_id : String
  pub normalized_work_email : String
  pub full_name : String
  pub work_email : String
  pub job_title : Option String
  pub company_name : String
  pub company_domain : Option String
  pub suppressed_at : Option ℕ

pub data EventStatus : Type 0 where
  event_draft event_published event_live event_completed event_cancelled : EventStatus

pub record Event : Type 0 where
  pub id : String
  pub workspace_id : String
  pub status : EventStatus
  pub capacity : ℕ
  pub ends_at : Option ℕ
  pub name : String
  pub timezone : String
  pub starts_at : ℕ
  pub audience_profile : Json

pub record Registration : Type 0 where
  pub id : String
  pub workspace_id : String
  pub event_id : String
  pub lead_id : String
  pub status : RegistrationStatus
  pub interest_topics : List String

-- `EnrichmentLeadInput`
pub record EnrichmentInput : Type 0 where
  pub full_name : String
  pub work_email : String
  pub job_title : Option String
  pub company_name : String
  pub company_domain : Option String
  pub interest_topics : List String

-- `EnrichmentResult`
pub record EnrichmentResult : Type 0 where
  pub provider : String
  pub provider_version : String
  pub job_title : Option String
  pub seniority : Option String
  pub role_category : Option String
  pub company_name : String
  pub company_domain : Option String
  pub company_industry : Option String
  pub company_employee_range : Option String
  pub professional_profile_url : Option String
  pub security_signals : List String
  pub confidence : Number
  pub evidence : Json
  pub provider_payload : Fields

pub data SnapshotStatus : Type 0 where
  enrichment_pending enrichment_succeeded enrichment_failed : SnapshotStatus

-- `EnrichmentSnapshot`; `result` holds the columns that the provider's result fills.
pub record Snapshot : Type 0 where
  pub id : String
  pub workspace_id : String
  pub event_id : String
  pub lead_id : String
  pub registration_id : String
  pub provider : String
  pub provider_version : String
  pub status : SnapshotStatus
  pub result : Option EnrichmentResult
  pub error_code : Option String
  pub error_message : Option String
  pub started_at : Option ℕ
  pub completed_at : Option ℕ

-- `LeadQualification`, without the time of its evaluation
pub record LeadQualification : Type 0 where
  pub id : String
  pub workspace_id : String
  pub event_id : String
  pub lead_id : String
  pub registration_id : String
  pub snapshot_id : String
  pub result : QualificationResult

pub record Consent : Type 0 where
  pub workspace_id : String
  pub event_id : String
  pub lead_id : String
  pub purpose : Purpose
  pub withdrawn_at : Option ℕ

pub record Suppression : Type 0 where
  pub workspace_id : String
  pub lead_id : String
  pub purpose : Purpose
  pub active : Bool

pub record Meeting : Type 0 where
  pub registration_id : String
  pub event_id : String
  pub lead_id : String
  pub is_booked : Bool

pub data ConversationStatus : Type 0 where
  conversation_open qualified_conversation conversation_handoff : ConversationStatus
  conversation_closed conversation_suppressed : ConversationStatus

pub record Conversation : Type 0 where
  pub id : String
  pub workspace_id : String
  pub event_id : String
  pub lead_id : String
  pub registration_id : String
  pub status : ConversationStatus

pub data Phase : Type 0 where
  pre_event post_event : Phase

pub data EnrollmentStatus : Type 0 where
  enrollment_active enrollment_paused : EnrollmentStatus
  enrollment_completed enrollment_cancelled : EnrollmentStatus

pub record Enrollment : Type 0 where
  pub id : String
  pub workspace_id : String
  pub event_id : String
  pub lead_id : String
  pub registration_id : String
  pub phase : Phase
  pub status : EnrollmentStatus
  pub current_step : ℕ
  pub next_action_at : Option ℕ

pub data ActionStatus : Type 0 where
  action_pending dispatching dispatched completed action_failed action_cancelled : ActionStatus

-- `ScheduledAction`
pub record Action : Type 0 where
  pub id : String
  pub workspace_id : String
  pub enrollment_id : String
  pub type : ActionType
  pub status : ActionStatus
  pub due_at : ℕ
  pub payload : Json
  pub idempotency_key : String
  pub attempts : ℕ
  pub lease_until : Option ℕ
  pub last_error : Option String
  pub completed_at : Option ℕ

pub data SignalSource : Type 0 where
  declared enriched observed : SignalSource

-- `InterestSignal`
pub record Signal : Type 0 where
  pub id : String
  pub workspace_id : String
  pub event_id : String
  pub lead_id : String
  pub registration_id : String
  pub snapshot_id : Option String
  pub source : SignalSource
  pub kind : String
  pub value : String
  pub confidence : Number
  pub evidence : Fields

pub data EmailStatus : Type 0 where
  draft scheduled sent delivered send_failed bounced suppressed : EmailStatus

-- A `Message` of a conversation
pub record EmailMessage : Type 0 where
  pub id : String
  pub workspace_id : String
  pub event_id : String
  pub lead_id : String
  pub conversation_id : String
  pub is_outbound : Bool
  pub purpose : Purpose
  pub status : EmailStatus
  pub subject : Option String
  pub body : String
  pub provider_message_id : Option String
  pub sent_at : Option ℕ
  pub delivered_at : Option ℕ
  pub failure_code : Option String

-- `AgentDecision`: what was decided on a registration, and why
pub record AgentDecision : Type 0 where
  pub id : String
  pub registration_id : String
  pub action : String
  pub is_approved : Bool
  pub reason_codes : List String
  pub rationale : String
  pub message_id : Option String
  pub model : Option String

pub data PublicAction : Type 0 where
  confirm decline unsubscribe : PublicAction

-- `PublicActionToken`
pub record ActionToken : Type 0 where
  pub registration_id : String
  pub token_hash : String
  pub action : PublicAction
  pub purpose : Purpose
  pub expires_at : ℕ
  pub consumed_at : Option ℕ

pub record Tables : Type 0 where
  pub leads : List Lead
  pub events : List Event
  pub registrations : List Registration
  pub snapshots : List Snapshot
  pub qualifications : List LeadQualification
  pub consents : List Consent
  pub suppressions : List Suppression
  pub meetings : List Meeting
  pub conversations : List Conversation
  pub enrollments : List Enrollment
  pub actions : List Action
  pub signals : List Signal
  pub messages : List EmailMessage
  pub decisions : List AgentDecision
  pub tokens : List ActionToken

-- What `EmailProvider.send` gets and gives.
pub record Email : Type 0 where
  pub message_id : String
  pub to : String
  pub subject : String
  pub body : String

pub record EmailDelivery : Type 0 where
  pub provider_message_id : String
  pub accepted_at : ℕ
  pub delivered_at : Option ℕ

-- What a provider answers, or what it throws: a `LeadEnrichmentError`, or the message of another
-- error.
pub data Enriched : Type 0 where
  enriched_as : EnrichmentResult → Enriched
  enrichment_refused : String → String → Bool → Enriched
  enrichment_broken : String → Enriched

pub data EmailReply : Type 0 where
  email_taken : EmailDelivery → EmailReply
  email_refused : String → EmailReply

-- The part of `buildContext` that the drafts below are made of.
pub record DraftContext : Type 0 where
  pub action : String
  pub purpose : Purpose
  pub first_name : String
  pub event_name : String
  pub interest : Option String
  pub confirm_link : String
  pub decline_link : String
  pub unsubscribe_link : String

-- The orchestrator's answer to a draft's prompt: its summary and its model where these are texts.
pub data DraftReply : Type 0 where
  drafted : Option String → Option String → DraftReply
  draft_refused : String → DraftReply

-- The providers, what the code asks of JavaScript and of `Intl.DateTimeFormat`, and the ids of the rows
-- that a transaction creates.
pub record Services : Type 0 where
  pub provider_name : String
  pub provider_version : String
  pub enrich : ℕ → EnrichmentInput → Enriched
  pub send_email : ℕ → Email → EmailReply
  pub text_ops : TextOps
  pub local_hour : String → ℕ → ℕ
  pub row_id : ℕ → String → String
  pub random_token : ℕ → String
  pub sha256 : String → String
  pub first_word : String → String
  pub slice : ℕ → String → String
  pub public_url : String
  pub ai_provider : String
  pub ask_draft : ℕ → DraftContext → DraftReply
