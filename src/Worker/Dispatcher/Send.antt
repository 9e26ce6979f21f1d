-- ===== src/Worker/Dispatcher/Send.antt =====
-- `processMessageSend` of apps/execution-worker/src/engagement/scheduled-action-dispatcher.ts.
use vigil_summit_agent.Prelude.{
  ℕ, String, Bool, Option, none, some, List, ◌&&◌, ◌=ₛ◌, if◌then◌else◌, find, any, map, get_or_else,
  is_some,
}
use vigil_summit_agent.Json.{Json}
use vigil_summit_agent.Engagement.Policy.{
  RegistrationStatus, PolicyResult, allowed, denied, quiet_hours,
}
use vigil_summit_agent.Engagement.Tables.{
  Lead, Event, Registration, Conversation, Meeting, Action, sent, delivered, suppressed,
  EmailMessage, Tables, Email, EmailDelivery, EmailReply, email_taken, email_refused,
}
use vigil_summit_agent.Worker.State.{Db, other_error}
use vigil_summit_agent.Worker.Effects.{M, pure, throw, ◌>>=◌, ◌>>◌, access, ask, call, hand_over}
use vigil_summit_agent.Worker.Dispatcher.Reads.{
  update_action_row, require_row, update_action, complete, postpone, cancel, read_string, Recipient,
  is_sent, read_facts, policy_for, reason_text,
}

-- A message with the columns of other tables that the function reads with it.
pub record MessageContext : Type 0 where
  pub message : EmailMessage
  pub lead : Lead
  pub event : Event
  pub status : RegistrationStatus

abbrev with_registration : EmailMessage → Lead → Event → Option Registration → Option MessageContext
with_registration m lead event none = none
with_registration m lead event (some r) =
    some (record { message = m; lead = lead; event = event; status = r.status })

abbrev with_conversation :
    EmailMessage → Lead → Event → Option Conversation → Tables → Option MessageContext
with_conversation m lead event none t = none
with_conversation m lead event (some c) t =
    with_registration m lead event (find (λ r. r.id =ₛ c.registration_id) t.registrations)

abbrev with_event : EmailMessage → Lead → Option Event → Tables → Option MessageContext
with_event m lead none t = none
with_event m lead (some event) t =
    with_conversation m lead event
      (find (λ (c : Conversation). c.id =ₛ m.conversation_id) t.conversations) t

abbrev with_lead : EmailMessage → Option Lead → Tables → Option MessageContext
with_lead m none t = none
with_lead m (some lead) t = with_event m lead (find (λ (e : Event). e.id =ₛ m.event_id) t.events) t

abbrev pub with_message : Option EmailMessage → Tables → Option MessageContext
with_message none t = none
with_message (some m) t = with_lead m (find (λ (l : Lead). l.id =ₛ m.lead_id) t.leads) t

-- The `findUnique` with what it includes, which the foreign keys of the schema guarantee
unfoldable pub find_message : String → Db → Option MessageContext
find_message id db = with_message (find (λ m. m.id =ₛ id) db.engagement.messages) db.engagement

abbrev with_messages : List EmailMessage → Db → Db
with_messages rows db = record db { engagement = record db.engagement { messages = rows } }

abbrev update_message : String → (EmailMessage → EmailMessage) → Db → Db
update_message id f db =
    with_messages (map (λ m. if m.id =ₛ id then f m else m) db.engagement.messages) db

-- The two updates of one transaction: where one of the rows is gone, none of them.
unfoldable pub update_both :
    String
    → (EmailMessage → EmailMessage)
    → String
    → (Action → Action)
    → Db
    → Option (Unit {0}) × Db
update_both message_id f action_id g db =
    if any (λ m. m.id =ₛ message_id) db.engagement.messages
      && any (λ a. a.id =ₛ action_id) db.engagement.actions
    then (some tt, (update_action_row action_id g (update_message message_id f db)).1)
    else (none, db)

unfoldable pub suppress : String → EmailMessage → EmailMessage
suppress reason m = record m { status = suppressed; failure_code = some reason }

unfoldable pub to_sent : EmailDelivery → EmailMessage → EmailMessage
to_sent d m = record m {
  status = if is_some d.delivered_at then delivered else sent;
  provider_message_id = some d.provider_message_id;
  sent_at = some d.accepted_at;
  delivered_at = d.delivered_at;
}

unfoldable pub give_delivery : EmailReply → M EmailDelivery
give_delivery (email_taken d) = pure d
give_delivery (email_refused message) = throw (other_error message)

unfoldable pub email_of : MessageContext → Email
email_of c = record {
  message_id = c.message.id;
  to = c.lead.work_email;
  subject = get_or_else c.message.subject "Vigil Summit";
  body = c.message.body;
}

-- The part after the policy
unfoldable pub act_on_policy : String → ℕ → MessageContext → PolicyResult → M (Unit {0})
act_on_policy action_id now c allowed = do
  hand_over (email_of c)
  reply ← call (λ env n. env.services.send_email n (email_of c))
  delivery ← give_delivery reply
  row ←
      access (update_both c.message.id (to_sent delivery) action_id (complete delivery.accepted_at))
  require_row row
act_on_policy action_id now c (denied reason) = do
  row ← access (
      update_both c.message.id (suppress (reason_text reason)) action_id
        (cancel now (reason_text reason)))
  require_row row
act_on_policy action_id now c (quiet_hours retry_at) =
    update_action action_id (postpone retry_at "QUIET_HOURS")

abbrev pub recipient_of : EmailMessage → Recipient
recipient_of m = record {
  workspace_id = m.workspace_id;
  event_id = m.event_id;
  lead_id = m.lead_id;
  purpose = m.purpose;
}

abbrev pub meeting_of : EmailMessage → Meeting → Bool
meeting_of m meeting = meeting.lead_id =ₛ m.lead_id && meeting.event_id =ₛ m.event_id

unfoldable pub send_if_allowed : String → ℕ → MessageContext → M (Unit {0})
send_if_allowed action_id now c = do
  facts ← read_facts (recipient_of c.message) (meeting_of c.message)
  local_hour ← ask (λ env. env.services.local_hour)
  act_on_policy action_id now c
      (policy_for local_hour now c.event.timezone c.message.purpose c.status c.lead facts)

unfoldable pub with_found : String → ℕ → Option MessageContext → M (Unit {0})
with_found action_id now none = throw (other_error "Scheduled message not found")
with_found action_id now (some c) =
    if is_sent c.message.status
    then update_action action_id (complete now)
    else send_if_allowed action_id now c

-- `processMessageSend`
unfoldable pub process_message_send : String → Json → ℕ → M (Unit {0})
process_message_send action_id payload now = do
  message_id ← read_string payload "messageId"
  found ← access (λ db. (find_message message_id db, db))
  with_found action_id now found
