-- ===== src/Worker/Dispatcher/Decide.antt =====
-- `processAgentDecision` of apps/execution-worker/src/engagement/scheduled-action-dispatcher.ts.
use vigil_summit_agent.Prelude.{
  ℕ, ◌+◌, String, true, false, Option, none, some, List, [], ◌∷◌, ◌++◌, ◌&&◌, ◌=ₛ◌, ◌<>◌,
  if◌then◌else◌, find, any, map, get_or_else,
}
use vigil_summit_agent.Json.{Json, str, obj, end, field}
use vigil_summit_agent.Engagement.Policy.{
  Purpose, event_communication, commercial_follow_up, PolicyResult, allowed, denied, quiet_hours,
}
use vigil_summit_agent.Engagement.Cadence.{
  ActionType, agent_decision, send_message, follow_up, request_confirmation, request_feedback,
  propose_meeting,
}
use vigil_summit_agent.Engagement.Tables.{
  conversation_open, Lead, Event, Registration, Enrollment, Conversation, Meeting, action_pending,
  Action, scheduled, EmailMessage, Signal, AgentDecision, confirm, decline, unsubscribe, Tables,
}
use vigil_summit_agent.Engagement.Enroll.{upsert_action, upsert_conversation}
use vigil_summit_agent.Worker.State.{Db, other_error}
use vigil_summit_agent.Worker.Effects.{M, pure, throw, ◌>>=◌, access, ask, call}
use vigil_summit_agent.Worker.Dispatcher.Reads.{
  update_action_row, require_row, update_action, complete, postpone, cancel, read_optional_string,
  read_string, Recipient, read_facts, policy_for, reason_text,
}
use vigil_summit_agent.Worker.Dispatcher.Draft.{create_token, build_context, Draft, draft_message}

pub record Enrolled : Type 0 where
  pub enrollment : Enrollment
  pub registration : Registration
  pub lead : Lead
  pub event : Event
  pub signals : List Signal

abbrev with_event : Enrollment → Registration → Lead → Option Event → Tables → Option Enrolled
with_event e r lead none t = none
with_event e r lead (some event) t =
    some
      (record { enrollment = e; registration = r; lead = lead; event = event; signals = t.signals })

abbrev with_lead : Enrollment → Registration → Option Lead → Tables → Option Enrolled
with_lead e r none t = none
with_lead e r (some lead) t =
    with_event e r lead (find (λ (x : Event). x.id =ₛ r.event_id) t.events) t

abbrev with_registration : Enrollment → Option Registration → Tables → Option Enrolled
with_registration e none t = none
with_registration e (some r) t = with_lead e r (find (λ (l : Lead). l.id =ₛ r.lead_id) t.leads) t

abbrev with_enrollment : Option Enrollment → Tables → Option Enrolled
with_enrollment none t = none
with_enrollment (some e) t =
    with_registration e (find (λ (r : Registration). r.id =ₛ e.registration_id) t.registrations) t

-- The `findUnique` with what it includes, which the foreign keys of the schema guarantee
unfoldable pub find_enrolled : String → Db → Option Enrolled
find_enrolled registration_id db =
    with_enrollment (find (λ e. e.registration_id =ₛ registration_id) db.engagement.enrollments)
      db.engagement

unfoldable pub require_enrolled : Option Enrolled → M Enrolled
require_enrolled none = throw (other_error "Cadence enrollment not found")
require_enrolled (some e) = pure e

abbrev purpose_of : Option String → Purpose
purpose_of none = event_communication
purpose_of (some s) =
    if s =ₛ "COMMERCIAL_FOLLOW_UP" then commercial_follow_up else event_communication

abbrev type_text : ActionType → String
type_text agent_decision = "AGENT_DECISION"
type_text send_message = "SEND_MESSAGE"
type_text follow_up = "FOLLOW_UP"
type_text request_confirmation = "REQUEST_CONFIRMATION"
type_text request_feedback = "REQUEST_FEEDBACK"
type_text propose_meeting = "PROPOSE_MEETING"

-- `type.toLowerCase()`
abbrev lower_type_text : ActionType → String
lower_type_text agent_decision = "agent_decision"
lower_type_text send_message = "send_message"
lower_type_text follow_up = "follow_up"
lower_type_text request_confirmation = "request_confirmation"
lower_type_text request_feedback = "request_feedback"
lower_type_text propose_meeting = "propose_meeting"

abbrev with_decision : AgentDecision → Db → Db
with_decision decision db = record db {
  engagement = record db.engagement { decisions = db.engagement.decisions ++ decision ∷ [] };
}

-- The transaction after a denial
unfoldable pub reject : AgentDecision → String → (Action → Action) → Db → Option (Unit {0}) × Db
reject decision action_id f db =
    if any (λ a. a.id =ₛ action_id) db.engagement.actions
    then (some tt, (update_action_row action_id f (with_decision decision db)).1)
    else (none, db)

abbrev rejected_decision : String → String → String → String → AgentDecision
rejected_decision id registration_id action reason = record {
  id = id;
  registration_id = registration_id;
  action = action;
  is_approved = false;
  reason_codes = reason ∷ [];
  rationale = "Communication policy rejected the action.";
  message_id = none;
  model = none;
}

abbrev approved_decision : String → String → String → String → Draft → AgentDecision
approved_decision id registration_id action message_id draft = record {
  id = id;
  registration_id = registration_id;
  action = action;
  is_approved = true;
  reason_codes =
      "POLICY_APPROVED"
      ∷ (if draft.provider =ₛ "deterministic" then "SAFE_FALLBACK" else "LLM_STRUCTURED_DRAFT")
      ∷ [];
  rationale = draft.rationale;
  message_id = some message_id;
  model = some draft.model;
}

abbrev conversation_id : String → String → List Conversation → String
conversation_id new_id registration_id [] = new_id
conversation_id new_id registration_id (c ∷ cs) =
    if c.registration_id =ₛ registration_id then c.id else conversation_id new_id registration_id cs

abbrev scheduled_message : String → String → Registration → Purpose → Draft → EmailMessage
scheduled_message id conversation r purpose draft = record {
  id = id;
  workspace_id = r.workspace_id;
  event_id = r.event_id;
  lead_id = r.lead_id;
  conversation_id = conversation;
  is_outbound = true;
  purpose = purpose;
  status = scheduled;
  subject = some draft.subject;
  body = draft.body;
  provider_message_id = none;
  sent_at = none;
  delivered_at = none;
  failure_code = none;
}

abbrev send_action : String → String → Registration → String → ℕ → Action
send_action id message_id r enrollment_id now = record {
  id = id;
  workspace_id = r.workspace_id;
  enrollment_id = enrollment_id;
  type = send_message;
  status = action_pending;
  due_at = now;
  payload = obj (field "messageId" (str message_id) (field "registrationId" (str r.id) end));
  idempotency_key = "send-message:" <> message_id;
  attempts = 0;
  lease_until = none;
  last_error = none;
  completed_at = none;
}

-- The transaction after an approval; where the action or the enrollment is gone, nothing changes.
unfoldable pub approve :
    String
    → Enrolled
    → Purpose
    → String
    → Draft
    → (String → String)
    → ℕ
    → Db
    → Option (Unit {0}) × Db
approve action_id x purpose action draft new_id now db =
    let t = db.engagement in
    let r = x.registration in
    let message_id = new_id "message" in
    let conversation : Conversation = record {
      id = new_id "conversation";
      workspace_id = r.workspace_id;
      event_id = r.event_id;
      lead_id = r.lead_id;
      registration_id = r.id;
      status = conversation_open;
    } in
    let message =
      scheduled_message message_id (conversation_id conversation.id r.id t.conversations) r purpose
        draft in
    let decision = approved_decision (new_id "decision") r.id action message_id draft in
    let completed =
      map (λ (a : Action). if a.id =ₛ action_id then complete now a else a) t.actions in
    if any (λ (a : Action). a.id =ₛ action_id) t.actions
      && any (λ (e : Enrollment). e.id =ₛ x.enrollment.id) t.enrollments
    then (
      some tt,
      record db {
        engagement = record t {
          conversations = upsert_conversation conversation t.conversations;
          messages = t.messages ++ message ∷ [];
          decisions = t.decisions ++ decision ∷ [];
          actions =
              upsert_action (send_action (new_id "send") message_id r x.enrollment.id now)
                completed;
          enrollments =
              map
                (λ (e : Enrollment).
                  if e.id =ₛ x.enrollment.id
                  then record e { current_step = e.current_step + 1 }
                  else e)
                t.enrollments;
        };
      },
    )
    else (none, db)

-- The part after the policy
unfoldable pub decide_on_policy :
    String → ActionType → Option String → ℕ → Enrolled → Purpose → PolicyResult → M (Unit {0})
decide_on_policy action_id type action now x purpose (quiet_hours retry_at) =
    update_action action_id (postpone retry_at "QUIET_HOURS")
decide_on_policy action_id type action now x purpose (denied reason) = do
  new_id ← call (λ env n. env.services.row_id n)
  row ← access (
      reject
        (rejected_decision (new_id "decision") x.registration.id
          (get_or_else action (type_text type)) (reason_text reason))
        action_id (cancel now (reason_text reason)))
  require_row row
decide_on_policy action_id type action now x purpose allowed = do
  t_confirm ← create_token x.registration purpose now confirm
  t_decline ← create_token x.registration purpose now decline
  t_unsubscribe ← create_token x.registration purpose now unsubscribe
  services ← ask (λ env. env.services)
  draft ← draft_message (
      build_context services x.registration x.lead x.event x.signals
        (get_or_else action (lower_type_text type)) purpose t_confirm t_decline t_unsubscribe)
  new_id ← call (λ env n. env.services.row_id n)
  row ←
      access
        (approve action_id x purpose (get_or_else action (lower_type_text type)) draft new_id now)
  require_row row

abbrev pub enrolled_recipient : Registration → Purpose → Recipient
enrolled_recipient r purpose = record {
  workspace_id = r.workspace_id;
  event_id = r.event_id;
  lead_id = r.lead_id;
  purpose = purpose;
}

-- `processAgentDecision`
unfoldable pub process_agent_decision : String → ActionType → Json → ℕ → M (Unit {0})
process_agent_decision action_id type payload now = do
  registration_id ← read_string payload "registrationId"
  found ← access (λ db. (find_enrolled registration_id db, db))
  x ← require_enrolled found
  purpose ← read_optional_string payload "purpose"
  facts ←
      read_facts (enrolled_recipient x.registration (purpose_of purpose))
        (λ (m : Meeting). m.registration_id =ₛ registration_id)
  services ← ask (λ env. env.services)
  action ← read_optional_string payload "action"
  decide_on_policy action_id type action now x (purpose_of purpose) (
      policy_for services.local_hour now x.event.timezone (purpose_of purpose) x.registration.status
        x.lead facts)
