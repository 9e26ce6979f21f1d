-- ===== src/Api/Engagement/Again.antt =====
-- A public link that is followed twice, in apps/api/src/modules/engagement/engagement.service.ts
use vigil_summit_agent.Prelude.{
  find-cases, ℕ, ◌≤◌, String, true, not, ◌||◌, Option, none, some, List, [], ◌∷◌, ◌≡◌, refl, ap,
  sym, subst, ◌=ₛ◌, if◌then◌else◌, find, map, is_some, leb, arith, Bool-cases, inl, inr, eq_iff,
}
use vigil_summit_agent.Engagement.Policy.{Purpose}
use vigil_summit_agent.Engagement.Tables.{
  Registration, Enrollment, PublicAction, confirm, decline, unsubscribe, ActionToken, Tables,
}
use vigil_summit_agent.Api.Engagement.{
  stop_found, stop_cadence, suppress_lead, set_status, moved, apply_action, mark_consumed, has_hash,
  consume_with, consume_token, consume_public_action,
}

stop_found-tokens :
    (e : Option Enrollment) (now : ℕ) (reason : String) (t : Tables)
    → (stop_found e now reason t).tokens ≡ t.tokens
stop_found-tokens none now reason t = refl
stop_found-tokens (some e) now reason t = refl

apply_action-tokens :
    (action : PublicAction) (r : Registration) (purpose : Purpose) (now : ℕ) (t : Tables)
    → (apply_action action r purpose now t).tokens ≡ t.tokens
unfolding apply_action stop_cadence suppress_lead
apply_action-tokens confirm r purpose now t = refl
apply_action-tokens decline r purpose now t = stop_found-tokens _ now _ t
apply_action-tokens unsubscribe r purpose now t = stop_found-tokens _ now _ _

abbrev used : ℕ → ActionToken → ActionToken
used now x = record x { consumed_at = some now }

abbrev mark : String → ℕ → List ActionToken → List ActionToken
mark hash now tokens = map (λ (x : ActionToken). if has_hash hash x then used now x else x) tokens

-- A token that is found is found again, and used.
find-mark :
    (hash : String) (now : ℕ) (token : ActionToken) (tokens : List ActionToken)
    → find (has_hash hash) tokens ≡ some token
    → find (has_hash hash) (mark hash now tokens) ≡ some (used now token)
find-mark hash now token [] h = ground (arith, h)
find-mark hash now token (x ∷ tokens) h = elim (find-cases (has_hash hash) x token tokens h) [
  | inl (same, own) ↦ rw same (rw same (ap (λ y. some (used now y)) own))
  | inr (other, rest) ↦ rw other (rw other (find-mark hash now token tokens rest))
]

find-hash :
    (hash : String) (token : ActionToken) (tokens : List ActionToken)
    → find (has_hash hash) tokens ≡ some token
    → token.token_hash ≡ hash
find-hash hash token [] h = ground (arith, h)
find-hash hash token (x ∷ tokens) h = elim (find-cases (has_hash hash) x token tokens h) [
  | inl (same, own) ↦ ground (arith, own, same, eq_iff x.token_hash hash)
  | inr (_, rest) ↦ find-hash hash token tokens rest
]

-- A link that is used, or has no registration, changes nothing.
consume_with-idle :
    (token : ActionToken) (r : Option Registration) (now : ℕ) (t : Tables)
    → is_some token.consumed_at || not (is_some r) ≡ true
    → (consume_with token r now t).1 ≡ t
consume_with-idle token none now t h = refl
consume_with-idle token (some r) now t h = elim (Bool-cases (is_some token.consumed_at)) [
  | inl before ↦ rw before refl
  | inr new ↦ absurd (ground (arith, h, new))
]

abbrev registration_of : ActionToken → Tables → Option Registration
registration_of token t = find (λ (r : Registration). r.id =ₛ token.registration_id) t.registrations

consume_token-idle :
    (token : ActionToken) (now : ℕ) (t : Tables)
    → is_some token.consumed_at || not (is_some (registration_of token t)) ≡ true
    → (consume_token (some token) now t).1 ≡ t
consume_token-idle token now t h = elim (Bool-cases (leb token.expires_at now)) [
  | inl late ↦ rw late refl
  | inr valid ↦ rw valid (consume_with-idle token _ now t h)
]

consume_token-late :
    (token : ActionToken) (now : ℕ) (t : Tables)
    → leb token.expires_at now ≡ true
    → (consume_token (some token) now t).1 ≡ t
consume_token-late token now t late = rw late refl

-- The tokens after a request that is carried out
marked-tokens :
    (hash : String) (token : ActionToken) (r : Registration) (now : ℕ) (t : Tables)
    → find (has_hash hash) t.tokens ≡ some token
    → find
        (has_hash hash)
        (mark_consumed token.token_hash now (
          apply_action token.action r token.purpose now
            (set_status r.id (moved token.action r.status) t))).tokens
      ≡ some (used now token)
unfolding mark_consumed
marked-tokens hash token r now t h =
    let t' = set_status r.id (moved token.action r.status) t in
    subst
      (λ key.
        find (has_hash hash)
          (mark_consumed key now (apply_action token.action r token.purpose now t')).tokens
        ≡ some (used now token))
      (sym (find-hash hash token t.tokens h))
      (rw (apply_action-tokens token.action r token.purpose now t')
        (find-mark hash now token t.tokens h))

consume_with-again :
    (hash : String) (token : ActionToken) (o : Option Registration) (now later : ℕ) (t : Tables)
    → find (has_hash hash) t.tokens ≡ some token
    → registration_of token t ≡ o
    → (consume_public_action hash later (consume_with token o now t).1).1
      ≡ (consume_with token o now t).1
unfolding consume_public_action
consume_with-again hash token none now later t h theirs =
    rw h (consume_token-idle token later t (ground (arith, theirs)))
consume_with-again hash token (some r) now later t h theirs =
    elim (Bool-cases (is_some token.consumed_at)) [
      | inl before ↦ rw before (rw h (consume_token-idle token later t (ground (arith, before))))
      | inr new ↦ rw new (
          rw (marked-tokens hash token r now t h)
            (consume_token-idle (used now token) later _ refl))
    ]

consume_token-again :
    (hash : String) (o : Option ActionToken) (now later : ℕ) (t : Tables)
    → now ≤ later
    → find (has_hash hash) t.tokens ≡ o
    → (consume_public_action hash later (consume_token o now t).1).1 ≡ (consume_token o now t).1
unfolding consume_public_action
consume_token-again hash none now later t le h = rw h refl
consume_token-again hash (some token) now later t le h =
    elim (Bool-cases (leb token.expires_at now)) [
      | inl late ↦ rw late (rw h (consume_token-late token later t (ground (arith, le, late))))
      | inr valid ↦ rw valid (consume_with-again hash token _ now later t h refl)
    ]

-- A link that is followed again changes nothing: whatever the first request did, and whether the link
-- is known, expired or used, a request with the same link that is not earlier leaves the tables as
-- they are.
pub consume_public_action-again :
    (hash : String) (now later : ℕ) (t : Tables)
    → now ≤ later
    → (consume_public_action hash later (consume_public_action hash now t).1).1
      ≡ (consume_public_action hash now t).1
unfolding consume_public_action
consume_public_action-again hash now later t le = consume_token-again hash _ now later t le refl
