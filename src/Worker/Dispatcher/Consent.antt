-- ===== src/Worker/Dispatcher/Consent.antt =====
-- Who gets no email from the scheduled action dispatcher.
use vigil_summit_agent.Prelude.{
  ℕ, suc, String, Bool, true, false, Option, none, some, List, ◌≡◌, ◌≢◌, refl, ◌&&◌, any, arith,
}
use vigil_summit_agent.Engagement.Policy.{
  Purpose, RegistrationStatus, PolicyResult, allowed, denied, quiet_hours,
  evaluate_communication_policy,
}
use vigil_summit_agent.Engagement.Tables.{Lead, EmailMessage, Email, Action}
use vigil_summit_agent.Engagement.Enroll.{has_consent}
use vigil_summit_agent.Worker.State.{Db, World, Env, Turn, others, fault, other_error}
use vigil_summit_agent.Worker.Effects.{M, Outcome, ok, thrown, final, tick, access}
use vigil_summit_agent.Worker.Keeps.{Guarantee, about_db, TurnKeeps, Rely}
use vigil_summit_agent.Worker.Triples.{
  Post, Ensures, Ensures-bind, Ensures-if, Ensures-pure, Ensures-throw, Ensures-weaken, Ensures-ask,
}
use vigil_summit_agent.Worker.Dispatcher.Reads.{
  require_row, update_action, is_suppression, is_sent, Facts, read_facts, policy_for,
}
use vigil_summit_agent.Worker.Dispatcher.Send.{
  MessageContext, act_on_policy, recipient_of, meeting_of, send_if_allowed, with_found,
}

-- Why a message may not be sent.
pub data Bar : Type 0 where
  no_consent suppressed meeting_booked : Bar

-- The tables say so: there is no consent that is not withdrawn, or there is an active suppression, or
-- a booked meeting.
abbrev pub Barred : Bar → EmailMessage → Db → Type 0
Barred no_consent m d = has_consent m.event_id m.lead_id m.purpose d.engagement.consents ≡ false
Barred suppressed m d = any (is_suppression (recipient_of m)) d.engagement.suppressions ≡ true
Barred meeting_booked m d = any (λ x. meeting_of m x && x.is_booked) d.engagement.meetings ≡ true

abbrev pub KeepsBarred : Bar → EmailMessage → Guarantee
KeepsBarred k m =
    about_db (λ d d'. Barred k m d → Barred k m d') (λ d b. b) (λ a b c p q x. q (p x))

-- What each of three queries then finds.
abbrev Consent : Bar → Bool → Type 0
Consent no_consent a = a ≡ false
Consent _ a = Unit

abbrev Suppressed : Bar → Bool → Type 0
Suppressed suppressed a = a ≡ true
Suppressed _ a = Unit

abbrev Booked : Bar → Bool → Type 0
Booked meeting_booked a = a ≡ true
Booked _ a = Unit

abbrev Blocks : Bar → Facts → Type 0
Blocks k f = Consent k f.consent × Suppressed k f.suppression × Booked k f.meeting

policy-not-allowed :
    (k : Bar) (local_hour : String → ℕ → ℕ) (now : ℕ) (timezone : String) (purpose : Purpose)
    (status : RegistrationStatus) (lead : Lead) (f : Facts)
    → Blocks k f
    → policy_for local_hour now timezone purpose status lead f ≢ allowed
unfolding policy_for evaluate_communication_policy
policy-not-allowed no_consent local_hour now timezone purpose status lead f (a, b, c) h =
    ground (arith, a, h)
policy-not-allowed suppressed local_hour now timezone purpose status lead f (a, b, c) h =
    ground (arith, b, h)
policy-not-allowed meeting_booked local_hour now timezone purpose status lead f (a, b, c) h =
    ground (arith, c, h)

module _ (env : Env) (es : List Email) where
  -- It hands no email over.
  abbrev Silent : {A : Type 0} → M A → Type 0
  Silent m = Ensures env (λ w. w.emails ≡ es) m (λ a w. w.emails ≡ es) (λ e w. w.emails ≡ es)

  access-Silent : {A : Type 0} (f : Db → A × Db) → Silent (access f)
  unfolding access
  access-Silent {A} f = record { at = λ w p. step w (env.turn w.step) p }
    where
      step :
          (w : World) (t : Turn)
          → w.emails ≡ es
          → Post {A = A}
              (λ a w'. w'.emails ≡ es)
              (λ e w'. w'.emails ≡ es)
              (elim t [
                | others g ↦ let r = f (g w.db) in ok r.0 (record w { db = r.1; step = suc w.step })
                | fault message ↦ thrown (other_error message) (tick w)
              ])
      step w (others g) p = p
      step w (fault message) p = p

  require_row-Silent : (o : Option (Unit {0})) → Silent (require_row o)
  unfolding require_row
  require_row-Silent none = Ensures-throw _ (λ w p. p)
  require_row-Silent (some u) = Ensures-pure u (λ w p. p)

  update_action-Silent : (id : String) (f : Action → Action) → Silent (update_action id f)
  unfolding update_action
  update_action-Silent id f = Ensures-bind _ _ (access-Silent _) require_row-Silent

  act_on_policy-Silent :
      (action_id : String) (now : ℕ) (c : MessageContext) (p : PolicyResult)
      → p ≢ allowed
      → Silent (act_on_policy action_id now c p)
  unfolding act_on_policy
  act_on_policy-Silent action_id now c allowed h = absurd (h refl)
  act_on_policy-Silent action_id now c (denied reason) h =
      Ensures-bind _ _ (access-Silent _) require_row-Silent
  act_on_policy-Silent action_id now c (quiet_hours t) h = update_action-Silent action_id _

  module _ (k : Bar) (m : EmailMessage) (r : Rely (KeepsBarred k m) env) where
    abbrev Waiting : World → Type 0
    Waiting w = Barred k m w.db × (w.emails ≡ es)

    -- A query, after what is known already.
    query :
        {A : Type 0} {F : Type 0} (Q : A → Type 0) (f : Db → A)
        → ((d : Db) → Barred k m d → Q (f d))
        → Ensures env
            (λ w. Waiting w × F)
            (access (λ d. (f d, d)))
            (λ a w. Waiting w × (F × Q a))
            (λ e w. w.emails ≡ es)
    unfolding access
    query {A} {F} Q f h = record { at = λ w p. step w (env.turn w.step) (r.at w.step) p }
      where
        step :
            (w : World) (t : Turn)
            → TurnKeeps (KeepsBarred k m) t
            → Waiting w × F
            → Post {A = A}
                (λ a w'. Waiting w' × (F × Q a))
                (λ e w'. w'.emails ≡ es)
                (elim t [
                  | others g ↦ ok (f (g w.db)) (record w { db = g w.db; step = suc w.step })
                  | fault message ↦ thrown (other_error message) (tick w)
                ])
        step w (others g) kept ((b, e), x) =
            let b' = kept w.db w.settled b in ((b', e), (x, h (g w.db) b'))
        step w (fault message) kept ((b, e), x) = e

    consent-found :
        (k' : Bar) (d : Db)
        → Barred k' m d
        → Consent k' (has_consent m.event_id m.lead_id m.purpose d.engagement.consents)
    consent-found no_consent d b = b
    consent-found suppressed d b = tt
    consent-found meeting_booked d b = tt

    suppression-found :
        (k' : Bar) (d : Db)
        → Barred k' m d
        → Suppressed k' (any (is_suppression (recipient_of m)) d.engagement.suppressions)
    suppression-found no_consent d b = tt
    suppression-found suppressed d b = b
    suppression-found meeting_booked d b = tt

    meeting-found :
        (k' : Bar) (d : Db)
        → Barred k' m d
        → Booked k' (any (λ x. meeting_of m x && x.is_booked) d.engagement.meetings)
    meeting-found no_consent d b = tt
    meeting-found suppressed d b = tt
    meeting-found meeting_booked d b = b

    read_facts-Blocks :
        Ensures env
          (λ w. Waiting w × Unit {0})
          (read_facts (recipient_of m) (meeting_of m))
          (λ f w. (w.emails ≡ es) × Blocks k f)
          (λ e w. w.emails ≡ es)
    unfolding read_facts
    read_facts-Blocks = Ensures-bind _ _ (query (Consent k) _ (consent-found k)) (λ consent.
        Ensures-bind _ _ (query (Suppressed k) _ (suppression-found k)) (λ suppression.
          Ensures-bind _ _ (query (λ n. Unit {0}) _ (λ d b. tt)) (λ count.
            Ensures-bind _ _ (query (Booked k) _ (meeting-found k))
              (λ meeting. Ensures-pure _ (λ w p. (p.0.1, (p.1.0.0.0.1, p.1.0.0.1, p.1.1)))))))

  module _ (k : Bar) (c : MessageContext) (r : Rely (KeepsBarred k c.message) env) where
    send_if_allowed-Silent :
        (action_id : String) (now : ℕ)
        → Ensures env
            (λ w. Barred k c.message w.db × (w.emails ≡ es))
            (send_if_allowed action_id now c)
            (λ u w. w.emails ≡ es)
            (λ e w. w.emails ≡ es)
    unfolding send_if_allowed
    send_if_allowed-Silent action_id now =
        Ensures-bind _ _
          (Ensures-weaken _ (λ w p. (p, tt)) (λ f w p. p) (λ e w p. p)
            (read_facts-Blocks k c.message r))
          (λ f.
            Ensures-bind {Q = λ x w. (w.emails ≡ es) × Blocks k f} _ _
              (Ensures-ask (λ e. e.services.local_hour) (λ w p. p))
              (λ local_hour. record {
                at = λ w p.
                    (act_on_policy-Silent action_id now c _ (
                        policy-not-allowed k local_hour now c.event.timezone c.message.purpose
                          c.status c.lead f p.1)).at
                      w p.0;
              }))

    with_found-Silent :
        (action_id : String) (now : ℕ)
        → Ensures env
            (λ w. Barred k c.message w.db × (w.emails ≡ es))
            (with_found action_id now (some c))
            (λ u w. w.emails ≡ es)
            (λ e w. w.emails ≡ es)
    unfolding with_found
    with_found-Silent action_id now =
        Ensures-if (is_sent c.message.status) _ _
          (λ t.
            Ensures-weaken _ (λ w p. p.1) (λ u w p. p) (λ e w p. p)
              (update_action-Silent action_id _))
          (λ f. send_if_allowed-Silent action_id now)

emails-same :
    (es : List Email) (o : Outcome (Unit {0}))
    → Post (λ u w. w.emails ≡ es) (λ e w. w.emails ≡ es) o
    → (final o).emails ≡ es
emails-same es (ok u w) p = p
emails-same es (thrown e w) p = p

-- A message without consent to its purpose, or with an active suppression, or whose lead has booked a
-- meeting at the event, is not handed to the email provider: if that is so once the dispatcher has
-- read the message, and the other processes leave it so, then no run of what follows sends an email,
-- whatever the policy's other inputs are and whether it returns or throws.
pub with_found-sends-nothing :
    (k : Bar) (action_id : String) (now : ℕ) (c : MessageContext) (env : Env) (w : World)
    → Rely (KeepsBarred k c.message) env
    → Barred k c.message w.db
    → (final (with_found action_id now (some c) env w)).emails ≡ w.emails
with_found-sends-nothing k action_id now c env w r b =
    emails-same w.emails _ ((with_found-Silent env w.emails k c r action_id now).at w (b, refl))
