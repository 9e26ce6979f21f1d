-- ===== src/Api/Engagement/Unsubscribe.antt =====
-- The unsubscribe link and the messages to a lead, in
-- apps/api/src/modules/engagement/engagement.service.ts and in the worker's dispatcher.
use vigil_summit_agent.Prelude.{
  any-last-own, ℕ, String, Bool, true, false, Option, none, some, List, [], ◌∷◌, ◌≡◌, refl, sym,
  subst, ◌=ₛ◌, ◌&&◌, if◌then◌else◌, find, any, map, leb, arith, Bool-cases, inl, inr, eq_refl,
}
use vigil_summit_agent.Engagement.Policy.{Purpose, event_communication, commercial_follow_up}
use vigil_summit_agent.Engagement.Tables.{
  Registration, Suppression, Enrollment, PublicAction, unsubscribe, ActionToken, Tables,
}
use vigil_summit_agent.Engagement.Enroll.{same_purpose}
use vigil_summit_agent.Worker.State.{World, Env}
use vigil_summit_agent.Worker.Effects.{final}
use vigil_summit_agent.Worker.Keeps.{Rely}
use vigil_summit_agent.Worker.Dispatcher.Send.{MessageContext, with_found}
use vigil_summit_agent.Worker.Dispatcher.Consent.{suppressed, KeepsBarred, with_found-sends-nothing}
use vigil_summit_agent.Api.Engagement.{
  stop_found, stop_cadence, is_for, add_suppression, suppress_lead, apply_action, mark_consumed,
  has_hash, consume_public_action,
}

same_purpose_refl : (p : Purpose) → same_purpose p p ≡ true
same_purpose_refl event_communication = refl
same_purpose_refl commercial_follow_up = refl

-- An active row for the workspace, the lead and the purpose
abbrev pub blocks : String → String → Purpose → Suppression → Bool
blocks workspace_id lead_id purpose s =
    s.workspace_id =ₛ workspace_id
    && s.lead_id =ₛ lead_id
    && same_purpose s.purpose purpose
    && s.active

module _ (workspace_id lead_id : String) (purpose : Purpose) where
  activated :
      (rows : List Suppression)
      → any (is_for workspace_id lead_id purpose) rows ≡ true
      → any (blocks workspace_id lead_id purpose) (
          map
            (λ (s : Suppression).
              if is_for workspace_id lead_id purpose s then record s { active = true } else s)
            rows)
        ≡ true
  activated [] h = ground (arith, h)
  activated (s ∷ rows) h = elim (Bool-cases (is_for workspace_id lead_id purpose s)) [
    | inl theirs ↦ rw theirs (ground (arith, theirs))
    | inr other ↦ rw other (ground (arith, activated rows (ground (arith, h, other))))
  ]

  pub add_suppression-blocks :
      (rows : List Suppression)
      → any
          (blocks workspace_id lead_id purpose)
          (add_suppression workspace_id lead_id purpose rows)
        ≡ true
  unfolding add_suppression
  add_suppression-blocks rows = elim (Bool-cases (any (is_for workspace_id lead_id purpose) rows)) [
    | inl there ↦ rw there (activated rows there)
    | inr absent ↦ rw absent (
        any-last-own _ rows _
          (ground (arith, eq_refl workspace_id, eq_refl lead_id, same_purpose_refl purpose)))
  ]

stop_found-suppressions :
    (e : Option Enrollment) (now : ℕ) (reason : String) (t : Tables)
    → (stop_found e now reason t).suppressions ≡ t.suppressions
stop_found-suppressions none now reason t = refl
stop_found-suppressions (some e) now reason t = refl

applied-suppressions :
    (action : PublicAction) (r : Registration) (purpose : Purpose) (now : ℕ) (t : Tables)
    → action ≡ unsubscribe
    → (apply_action action r purpose now t).suppressions
      ≡ add_suppression r.workspace_id r.lead_id purpose t.suppressions
unfolding apply_action stop_cadence suppress_lead
applied-suppressions action r purpose now t h =
    subst
      (λ a.
        (apply_action a r purpose now t).suppressions
        ≡ add_suppression r.workspace_id r.lead_id purpose t.suppressions)
      (sym h) (stop_found-suppressions _ now _ _)

consumed-suppressions :
    (hash : String) (now : ℕ) (t : Tables) (token : ActionToken) (r : Registration)
    → find (has_hash hash) t.tokens ≡ some token
    → find (λ (x : Registration). x.id =ₛ token.registration_id) t.registrations ≡ some r
    → token.action ≡ unsubscribe
    → leb token.expires_at now ≡ false
    → token.consumed_at ≡ none
    → (consume_public_action hash now t).1.suppressions
      ≡ add_suppression r.workspace_id r.lead_id token.purpose t.suppressions
unfolding consume_public_action mark_consumed
consumed-suppressions hash now t token r found theirs is_unsubscribe valid new = rw found (
    rw valid
      (rw theirs (rw new (applied-suppressions token.action r token.purpose now _ is_unsubscribe))))

-- Once a lead has used the unsubscribe link of a message's registration, no message of that workspace
-- to that lead for that purpose is handed to the email provider: the link is known, of an existing
-- registration, not expired and not used; the dispatcher has read the message, the tables are those
-- that the request left, and the other processes let the suppression stand.
pub consume_public_action-silences :
    (hash : String) (now : ℕ) (t : Tables) (token : ActionToken) (r : Registration)
    → find (has_hash hash) t.tokens ≡ some token
    → find (λ (x : Registration). x.id =ₛ token.registration_id) t.registrations ≡ some r
    → token.action ≡ unsubscribe
    → leb token.expires_at now ≡ false
    → token.consumed_at ≡ none
    → (action_id : String) (later : ℕ) (c : MessageContext) (env : Env) (w : World)
    → c.message.workspace_id ≡ r.workspace_id
    → c.message.lead_id ≡ r.lead_id
    → c.message.purpose ≡ token.purpose
    → Rely (KeepsBarred suppressed c.message) env
    → w.db.engagement ≡ (consume_public_action hash now t).1
    → (final (with_found action_id later (some c) env w)).emails ≡ w.emails
consume_public_action-silences hash now t token r found theirs is_unsubscribe valid new action_id
      later c env w same_space same_lead same_its_purpose rely left =
    with_found-sends-nothing suppressed action_id later c env w rely (
      rw left (
        rw (consumed-suppressions hash now t token r found theirs is_unsubscribe valid new) (
          rw same_space (
            rw same_lead (
              rw same_its_purpose
                (add_suppression-blocks r.workspace_id r.lead_id token.purpose t.suppressions))))))
