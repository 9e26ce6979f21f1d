-- ===== src/Api/Engagement/Life.antt =====
-- The life of a registration over all that moves it: links, operators and replies.
use vigil_summit_agent.Prelude.{
  ℕ, String, Bool, Option, none, some, List, [], ◌∷◌, ◌≡◌, refl, sym, ap, subst, ◌=ₛ◌, ◌&&◌, ◌||◌,
  find, any, arith, Bool-cases, inl, inr,
}
use vigil_summit_agent.Engagement.Policy.{RegistrationStatus, confirmed, declined}
use vigil_summit_agent.Engagement.Tables.{Registration, EmailMessage, Tables}
use vigil_summit_agent.Engagement.Enroll.{same_signal}
use vigil_summit_agent.Api.Engagement.{can_move, suppress_lead, stop_cadence, consume_public_action}
use vigil_summit_agent.Api.Engagement.Status.{is_registration, update_registration_status}
use vigil_summit_agent.Api.Engagement.Inbound.{
  RecordInboundMessageDto, InboundText, reply_signal, answer, stop_after, store_reply, duplicate_of,
  reply_once, reply_found, record_inbound,
}
use vigil_summit_agent.Api.Engagement.Transitions.{
  Moved, UniqueIds, edge, Moved-same, changed, changed-found, stop_found-registrations,
  consume_token-Moved, update_found-Moved,
}

changed-twice :
    (id : String) (s s' : RegistrationStatus) (rs : List Registration)
    → changed id s' (changed id s rs) ≡ changed id s' rs
changed-twice id s s' [] = refl
changed-twice id s s' (r ∷ rs) = elim (Bool-cases (r.id =ₛ id)) [
  | inl same ↦ rw same (rw same (ap (λ l. record r { status = s' } ∷ l) (changed-twice id s s' rs)))
  | inr other ↦ rw other (rw other (ap (λ l. r ∷ l) (changed-twice id s s' rs)))
]

stop_cadence-registrations :
    (id : String) (now : ℕ) (reason : String) (t : Tables)
    → (stop_cadence id now reason t).registrations ≡ t.registrations
unfolding stop_cadence
stop_cadence-registrations id now reason t = stop_found-registrations _ now reason t

stop_after-registrations :
    (text : InboundText) (body : String) (r : Registration) (now : ℕ) (t : Tables)
    → (stop_after text body r now t).registrations ≡ t.registrations
unfolding stop_after suppress_lead
stop_after-registrations text body r now t = elim (Bool-cases (text.is_opt_out body)) [
  | inl opted ↦ rw opted (stop_cadence-registrations r.id now _ _)
  | inr stays ↦ rw stays (elim (Bool-cases (text.needs_handoff body || text.declines body)) [
    | inl stops ↦ rw stops (stop_cadence-registrations r.id now _ t)
    | inr goes ↦ rw goes refl
  ])
]

answer-Moved :
    (text : InboundText) (body : String) (r : Registration) (t : Tables) (p : Registration → Bool)
    → UniqueIds t.registrations
    → find p t.registrations ≡ some r
    → Moved t.registrations (answer text body r t).registrations
unfolding answer
answer-Moved text body r t p u h =
    let rs = t.registrations in
    elim (Bool-cases (text.confirms body && can_move r.status confirmed)) [
      | inl yes_said ↦
          rw yes_said (elim (Bool-cases (text.declines body && can_move r.status declined)) [
            | inl no_said ↦ rw no_said (
                subst (Moved rs) (sym (changed-twice r.id confirmed declined rs)) (
                  changed-found p r declined rs u h
                    (edge r.status declined (ground (arith, no_said)))))
            | inr none_said ↦ rw none_said (
                changed-found p r confirmed rs u h
                  (edge r.status confirmed (ground (arith, yes_said))))
          ])
      | inr not_said ↦
          rw not_said (elim (Bool-cases (text.declines body && can_move r.status declined)) [
            | inl no_said ↦ rw no_said (
                changed-found p r declined rs u h
                  (edge r.status declined (ground (arith, no_said))))
            | inr none_said ↦ rw none_said (Moved-same rs)
          ])
    ]

store_reply-Moved :
    (text : InboundText) (new_id : String → String) (dto : RecordInboundMessageDto) (now : ℕ)
    (r : Registration) (t : Tables) (p : Registration → Bool)
    → UniqueIds t.registrations
    → find p t.registrations ≡ some r
    → Moved t.registrations (store_reply text new_id dto now r t).1.registrations
store_reply-Moved text new_id dto now r t p u h =
    elim (Bool-cases (
      any (same_signal (reply_signal text r dto.body (new_id "signal") (new_id "message")))
        t.signals)) [
          | inl there ↦ rw there (Moved-same t.registrations)
          | inr new ↦ rw new (
              subst (Moved t.registrations) (sym (stop_after-registrations text dto.body r now _))
                (answer-Moved text dto.body r _ p u h))
        ]

reply_once-Moved :
    (text : InboundText) (new_id : String → String) (dto : RecordInboundMessageDto) (now : ℕ)
    (r : Registration) (m : Option EmailMessage) (t : Tables) (p : Registration → Bool)
    → UniqueIds t.registrations
    → find p t.registrations ≡ some r
    → Moved t.registrations (reply_once text new_id dto now r m t).1.registrations
reply_once-Moved text new_id dto now r none t p u h =
    store_reply-Moved text new_id dto now r t p u h
reply_once-Moved text new_id dto now r (some m) t p u h = Moved-same t.registrations

reply_found-Moved :
    (text : InboundText) (new_id : String → String) (dto : RecordInboundMessageDto) (now : ℕ)
    (r : Option Registration) (t : Tables) (p : Registration → Bool)
    → UniqueIds t.registrations
    → find p t.registrations ≡ r
    → Moved t.registrations (reply_found text new_id dto now r t t).1.registrations
reply_found-Moved text new_id dto now none t p u h = Moved-same t.registrations
reply_found-Moved text new_id dto now (some r) t p u h =
    reply_once-Moved text new_id dto now r (duplicate_of dto.provider_message_id t.messages) t p u h

-- Public links, operators and replies move registrations only along the life that `Move` tells:
-- whatever the hash of the link, the status that the operator asks for, and the reply and what the
-- regular expressions find in it, each registration of the tables keeps its place and its id, and its
-- status stays or makes one of the seven moves. The ids are unique, and no other request writes between
-- what an operator's or a reply's request reads and its transaction.
pub registrations-Moved :
    (t : Tables) (hash workspace_id id : String) (status : RegistrationStatus) (text : InboundText)
    (dto : RecordInboundMessageDto) (new_id : String → String) (now : ℕ)
    → UniqueIds t.registrations
    → Moved t.registrations (consume_public_action hash now t).1.registrations
      × Moved t.registrations
          (update_registration_status workspace_id id status new_id now t t).1.registrations
      × Moved t.registrations (record_inbound text new_id workspace_id dto now t t).1.registrations
unfolding consume_public_action update_registration_status record_inbound
registrations-Moved t hash workspace_id id status text dto new_id now u = (
  consume_token-Moved _ now t u,
  update_found-Moved _ status new_id now t (is_registration workspace_id id) u refl,
  reply_found-Moved text new_id dto now _ t (is_registration workspace_id dto.registration_id) u
      refl,
)
