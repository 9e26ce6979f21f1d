-- ===== src/Api/Engagement/Transitions.antt =====
-- The life of a registration as a relation, in apps/api/src/modules/engagement/engagement.service.ts
use vigil_summit_agent.Prelude.{
  find-cases, ℕ, String, Bool, true, false, Option, none, some, List, [], ◌∷◌, ◌≡◌, refl, sym,
  subst, ◌=ₛ◌, eq_refl, if◌then◌else◌, find, any, map, is_some, leb, arith, Bool-cases, inl, inr,
  eq_iff,
}
use vigil_summit_agent.Engagement.Policy.{
  RegistrationStatus, registered, waitlisted, confirmed, declined, attended, no_show, Purpose,
}
use vigil_summit_agent.Engagement.Tables.{
  Registration, Enrollment, PublicAction, confirm, decline, unsubscribe, ActionToken, Tables,
}
use vigil_summit_agent.Api.Engagement.{
  can_move, stop_found, stop_cadence, suppress_lead, set_status, moved, apply_action, mark_consumed,
  consume_with, consume_token,
}
use vigil_summit_agent.Api.Engagement.Status.{
  schedule_post_event, after_status, anchor_of, update_found,
}

-- The life of a registration, as it is told: from the waiting list to a seat, to a confirmation, to
-- the event or not, and out of each of them by declining.
pub data Move : RegistrationStatus → RegistrationStatus → Type 0 where
  staying : (s : RegistrationStatus) → Move s s
  admitting : Move waitlisted registered
  confirming : Move registered confirmed
  attending : Move confirmed attended
  missing : Move confirmed no_show
  refusing : Move waitlisted declined
  declining : Move registered declined
  cancelling : Move confirmed declined

pub edge : (a b : RegistrationStatus) → can_move a b ≡ true → Move a b
unfolding can_move
edge registered registered h = cc h
edge registered waitlisted h = cc h
edge registered confirmed h = confirming
edge registered declined h = declining
edge registered attended h = cc h
edge registered no_show h = cc h
edge waitlisted registered h = admitting
edge waitlisted waitlisted h = cc h
edge waitlisted confirmed h = cc h
edge waitlisted declined h = refusing
edge waitlisted attended h = cc h
edge waitlisted no_show h = cc h
edge confirmed registered h = cc h
edge confirmed waitlisted h = cc h
edge confirmed confirmed h = cc h
edge confirmed declined h = cancelling
edge confirmed attended h = attending
edge confirmed no_show h = missing
edge declined registered h = cc h
edge declined waitlisted h = cc h
edge declined confirmed h = cc h
edge declined declined h = cc h
edge declined attended h = cc h
edge declined no_show h = cc h
edge attended registered h = cc h
edge attended waitlisted h = cc h
edge attended confirmed h = cc h
edge attended declined h = cc h
edge attended attended h = cc h
edge attended no_show h = cc h
edge no_show registered h = cc h
edge no_show waitlisted h = cc h
edge no_show confirmed h = cc h
edge no_show declined h = cc h
edge no_show attended h = cc h
edge no_show no_show h = cc h

moved-Move : (action : PublicAction) (s : RegistrationStatus) → Move s (moved action s)
unfolding moved
moved-Move confirm s = elim (Bool-cases (can_move s confirmed)) [
  | inl allowed ↦ rw allowed (edge s confirmed allowed)
  | inr denied ↦ rw denied (staying s)
]
moved-Move decline s = elim (Bool-cases (can_move s declined)) [
  | inl allowed ↦ rw allowed (edge s declined allowed)
  | inr denied ↦ rw denied (staying s)
]
moved-Move unsubscribe s = staying s

-- Row by row, the same registrations, each moved or left.
abbrev pub Moved : List Registration → List Registration → Type 0
Moved [] [] = Unit
Moved [] (_ ∷ _) = ⊥
Moved (_ ∷ _) [] = ⊥
Moved (r ∷ rs) (r' ∷ rs') = (r'.id ≡ r.id) × Move r.status r'.status × Moved rs rs'

-- No two registrations have the same id.
abbrev pub UniqueIds : List Registration → Type 0
UniqueIds [] = Unit
UniqueIds (r ∷ rs) = (any (λ x. x.id =ₛ r.id) rs ≡ false) × UniqueIds rs

pub Moved-same : (rs : List Registration) → Moved rs rs
Moved-same [] = tt
Moved-same (r ∷ rs) = (refl, staying r.status, Moved-same rs)

abbrev pub changed : String → RegistrationStatus → List Registration → List Registration
changed id status rs =
    map (λ (r : Registration). if r.id =ₛ id then record r { status = status } else r) rs

changed-absent :
    (id : String) (status : RegistrationStatus) (rs : List Registration)
    → any (λ x. x.id =ₛ id) rs ≡ false
    → Moved rs (changed id status rs)
changed-absent id status [] h = tt
changed-absent id status (r ∷ rs) h = elim (Bool-cases (r.id =ₛ id)) [
  | inl same ↦ absurd (ground (arith, h, same))
  | inr other ↦
      rw other (refl, staying r.status, changed-absent id status rs (ground (arith, h, other)))
]

find-id :
    (p : Registration → Bool) (r : Registration) (rs : List Registration)
    → find p rs ≡ some r
    → any (λ x. x.id =ₛ r.id) rs ≡ true
find-id p r [] h = ground (arith, h)
find-id p r (x ∷ rs) h = elim (find-cases p x r rs h) [
  | inl (_, same) ↦ rw same (rw (eq_refl r.id) refl)
  | inr (_, rest) ↦ ground (arith, find-id p r rs rest)
]

changed-first :
    (r : Registration) (status : RegistrationStatus) (rs : List Registration)
    → any (λ x. x.id =ₛ r.id) rs ≡ false
    → Move r.status status
    → Moved (r ∷ rs) (changed r.id status (r ∷ rs))
changed-first r status rs u m = rw (eq_refl r.id) (refl, m, changed-absent r.id status rs u)

-- A row that is found is the only one with its id.
pub changed-found :
    (p : Registration → Bool) (r : Registration) (status : RegistrationStatus)
    (rs : List Registration)
    → UniqueIds rs
    → find p rs ≡ some r
    → Move r.status status
    → Moved rs (changed r.id status rs)
changed-found p r status [] u h m = tt
changed-found p r status (x ∷ rs) (u, us) h m = elim (find-cases p x r rs h) [
  | inl (_, same) ↦
      subst (λ y. Moved (y ∷ rs) (changed r.id status (y ∷ rs))) (sym same)
        (changed-first r status rs (subst (λ y. any (λ z. z.id =ₛ y.id) rs ≡ false) same u) m)
  | inr (_, rest) ↦ elim (Bool-cases (x.id =ₛ r.id)) [
    | inl same ↦ absurd (ground (arith, u, find-id p r rs rest, eq_iff x.id r.id, same))
    | inr other ↦ rw other (refl, staying x.status, changed-found p r status rs us rest m)
  ]
]

-- What a cadence does leaves the registrations as they are.
pub stop_found-registrations :
    (e : Option Enrollment) (now : ℕ) (reason : String) (t : Tables)
    → (stop_found e now reason t).registrations ≡ t.registrations
stop_found-registrations none now reason t = refl
stop_found-registrations (some e) now reason t = refl

apply_action-registrations :
    (action : PublicAction) (r : Registration) (purpose : Purpose) (now : ℕ) (t : Tables)
    → (apply_action action r purpose now t).registrations ≡ t.registrations
unfolding apply_action stop_cadence suppress_lead
apply_action-registrations confirm r purpose now t = refl
apply_action-registrations decline r purpose now t = stop_found-registrations _ now _ t
apply_action-registrations unsubscribe r purpose now t = stop_found-registrations _ now _ _

after_status-registrations :
    (status : RegistrationStatus) (r : Registration) (anchor : ℕ) (new_id : String → String)
    (now : ℕ) (t : Tables)
    → (after_status status r anchor new_id now t).registrations ≡ t.registrations
unfolding stop_cadence schedule_post_event
after_status-registrations registered r anchor new_id now t = refl
after_status-registrations waitlisted r anchor new_id now t = refl
after_status-registrations confirmed r anchor new_id now t = refl
after_status-registrations declined r anchor new_id now t = stop_found-registrations _ now _ t
after_status-registrations attended r anchor new_id now t = refl
after_status-registrations no_show r anchor new_id now t = refl

consume_with-Moved :
    (token : ActionToken) (r : Option Registration) (now : ℕ) (t : Tables) (p : Registration → Bool)
    → UniqueIds t.registrations
    → find p t.registrations ≡ r
    → Moved t.registrations (consume_with token r now t).1.registrations
unfolding mark_consumed
consume_with-Moved token none now t p u h = Moved-same t.registrations
consume_with-Moved token (some r) now t p u h = elim (Bool-cases (is_some token.consumed_at)) [
  | inl used ↦ rw used (Moved-same t.registrations)
  | inr new ↦ rw new (
      subst (Moved t.registrations)
        (sym (
          apply_action-registrations token.action r token.purpose now
            (set_status r.id (moved token.action r.status) t)))
        (changed-found p r _ t.registrations u h (moved-Move token.action r.status)))
]

pub consume_token-Moved :
    (token : Option ActionToken) (now : ℕ) (t : Tables)
    → UniqueIds t.registrations
    → Moved t.registrations (consume_token token now t).1.registrations
consume_token-Moved none now t u = Moved-same t.registrations
consume_token-Moved (some token) now t u = elim (Bool-cases (leb token.expires_at now)) [
  | inl late ↦ rw late (Moved-same t.registrations)
  | inr valid ↦ rw valid (consume_with-Moved token _ now t _ u refl)
]

pub update_found-Moved :
    (r : Option Registration) (status : RegistrationStatus) (new_id : String → String) (now : ℕ)
    (t : Tables) (p : Registration → Bool)
    → UniqueIds t.registrations
    → find p t.registrations ≡ r
    → Moved t.registrations (update_found t r status new_id now t).1.registrations
update_found-Moved none status new_id now t p u h = Moved-same t.registrations
update_found-Moved (some r) status new_id now t p u h =
    elim (Bool-cases (can_move r.status status)) [
      | inl may ↦ rw may (
          subst (Moved t.registrations)
            (sym (
              after_status-registrations status r (anchor_of r now t.events) new_id now
                (set_status r.id status t)))
            (changed-found p r status t.registrations u h (edge r.status status may)))
      | inr denied ↦ rw denied (Moved-same t.registrations)
    ]
