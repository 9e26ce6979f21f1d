-- ===== src/Api/Engagement/Inbound.antt =====
-- The replies of leads: recordInbound in apps/api/src/modules/engagement/engagement.service.ts. The five
-- regular expressions, which stand for tests of the body, and the texts' methods are arguments. The times
-- of the conversation and of the status are left out, and so is the table's own refusal of a second
-- message with one provider id, which the service looks up before.
use vigil_summit_agent.Prelude.{
  ℕ, String, Bool, false, Option, none, some, List, [], ◌∷◌, ◌++◌, ◌&&◌, ◌||◌, ◌=ₛ◌, if◌then◌else◌,
  find, any,
}
use vigil_summit_agent.Json.{whole, str, end, field}
use vigil_summit_agent.Engagement.Policy.{commercial_follow_up, confirmed, declined}
use vigil_summit_agent.Engagement.Tables.{
  Registration, ConversationStatus, conversation_open, qualified_conversation, conversation_handoff,
  conversation_suppressed, Conversation, observed, Signal, delivered, EmailMessage, Tables,
}
use vigil_summit_agent.Engagement.Enroll.{same_signal}
use vigil_summit_agent.Api.Engagement.{can_move, set_status, suppress_lead, stop_cadence}
use vigil_summit_agent.Api.Engagement.Status.{is_registration}

pub record RecordInboundMessageDto : Type 0 where
  pub registration_id : String
  pub body : String
  pub provider_message_id : Option String

-- What the regular expressions find in a body, and `trim` and `slice(0, n)`
pub record InboundText : Type 0 where
  pub is_opt_out : String → Bool
  pub has_meeting_intent : String → Bool
  pub needs_handoff : String → Bool
  pub confirms : String → Bool
  pub declines : String → Bool
  pub trim : String → String
  pub slice : ℕ → String → String

-- What `recordInbound` returns, or the exception that it throws.
pub data Recorded : Type 0 where
  recorded : EmailMessage → Recorded
  inbound_registration_not_found signal_exists : Recorded

abbrev pub status_of_reply : InboundText → String → ConversationStatus
status_of_reply text body =
    if text.is_opt_out body
    then conversation_suppressed
    else if text.needs_handoff body
    then conversation_handoff
    else if text.has_meeting_intent body
    then qualified_conversation
    else conversation_open

-- The intent, and its text in lower case
abbrev pub intent_of : InboundText → String → String × String
intent_of text body =
    if text.is_opt_out body
    then ("OPT_OUT", "opt_out")
    else if text.needs_handoff body
    then ("HANDOFF", "handoff")
    else if text.has_meeting_intent body
    then ("MEETING_INTENT", "meeting_intent")
    else if text.confirms body
    then ("CONFIRM", "confirm")
    else if text.declines body
    then ("DECLINE", "decline")
    else ("INBOUND_REPLY", "inbound_reply")

-- The upsert of the conversation, with its id
unfoldable pub reply_conversation :
    Conversation → ConversationStatus → List Conversation → String × List Conversation
reply_conversation new status [] = (new.id, new ∷ [])
reply_conversation new status (c ∷ cs) =
    let rest = reply_conversation new status cs in
    if c.registration_id =ₛ new.registration_id
    then (c.id, record c { status = status } ∷ cs)
    else (rest.0, c ∷ rest.1)

abbrev pub new_conversation : Registration → String → Conversation
new_conversation r id = record {
  id = id;
  workspace_id = r.workspace_id;
  event_id = r.event_id;
  lead_id = r.lead_id;
  registration_id = r.id;
  status = conversation_open;
}

abbrev pub reply_message :
    InboundText → Registration → RecordInboundMessageDto → String → String → ℕ → EmailMessage
reply_message text r dto id conversation_id now = record {
  id = id;
  workspace_id = r.workspace_id;
  event_id = r.event_id;
  lead_id = r.lead_id;
  conversation_id = conversation_id;
  is_outbound = false;
  purpose = commercial_follow_up;
  status = delivered;
  subject = none;
  body = text.trim dto.body;
  provider_message_id = dto.provider_message_id;
  sent_at = none;
  delivered_at = some now;
  failure_code = none;
}

abbrev pub reply_signal : InboundText → Registration → String → String → String → Signal
reply_signal text r body id message_id = record {
  id = id;
  workspace_id = r.workspace_id;
  event_id = r.event_id;
  lead_id = r.lead_id;
  registration_id = r.id;
  snapshot_id = none;
  source = observed;
  kind = (intent_of text body).0;
  value = text.slice 240 body;
  confidence = whole 1;
  evidence = field "messageId" (str message_id) end;
}

-- The updates of the registration: both tests are of the status that was read.
unfoldable pub answer : InboundText → String → Registration → Tables → Tables
answer text body r t =
    let after_confirm =
      if text.confirms body && can_move r.status confirmed
      then set_status r.id confirmed t
      else t in
    if text.declines body && can_move r.status declined
    then set_status r.id declined after_confirm
    else after_confirm

unfoldable pub stop_after : InboundText → String → Registration → ℕ → Tables → Tables
stop_after text body r now t =
    let t' = if text.is_opt_out body then suppress_lead r commercial_follow_up now t else t in
    if text.is_opt_out body || text.needs_handoff body || text.declines body
    then stop_cadence r.id now (intent_of text body).1 t'
    else t'

-- The transaction: a second signal with the same columns is refused, and all is undone.
abbrev pub store_reply :
    InboundText
    → (String → String)
    → RecordInboundMessageDto
    → ℕ
    → Registration
    → Tables
    → Recorded × Tables
store_reply text new_id dto now r t =
    let conversation =
      reply_conversation (new_conversation r (new_id "conversation"))
        (status_of_reply text dto.body) t.conversations in
    let message = reply_message text r dto (new_id "message") conversation.0 now in
    let signal = reply_signal text r dto.body (new_id "signal") message.id in
    if any (same_signal signal) t.signals then (signal_exists, t) else (
      recorded message,
      stop_after text dto.body r now (
          answer text dto.body r (record t {
            conversations = conversation.1;
            messages = t.messages ++ message ∷ [];
            signals = t.signals ++ signal ∷ [];
          })),
    )

abbrev has_provider_id : String → EmailMessage → Bool
has_provider_id id m = is_id m.provider_message_id
  where
    is_id : Option String → Bool
    is_id none = false
    is_id (some k) = k =ₛ id

-- An empty id is not looked up.
abbrev pub duplicate_of : Option String → List EmailMessage → Option EmailMessage
duplicate_of none messages = none
duplicate_of (some id) messages = if id =ₛ "" then none else find (has_provider_id id) messages

abbrev pub reply_once :
    InboundText
    → (String → String)
    → RecordInboundMessageDto
    → ℕ
    → Registration
    → Option EmailMessage
    → Tables
    → Recorded × Tables
reply_once text new_id dto now r (some m) t = (recorded m, t)
reply_once text new_id dto now r none t = store_reply text new_id dto now r t

abbrev pub reply_found :
    InboundText
    → (String → String)
    → RecordInboundMessageDto
    → ℕ
    → Option Registration
    → Tables
    → Tables
    → Recorded × Tables
reply_found text new_id dto now none before t = (inbound_registration_not_found, t)
reply_found text new_id dto now (some r) before t =
    reply_once text new_id dto now r (duplicate_of dto.provider_message_id before.messages) t

-- `recordInbound`: the registration and a duplicate are looked up before the transaction.
unfoldable pub record_inbound :
    InboundText
    → (String → String)
    → String
    → RecordInboundMessageDto
    → ℕ
    → Tables
    → Tables
    → Recorded × Tables
record_inbound text new_id workspace_id dto now before t =
    reply_found text new_id dto now
      (find (is_registration workspace_id dto.registration_id) before.registrations) before t
