-- ===== src/Worker/Dispatcher/Claims.antt =====
-- The claims of the scheduled action dispatcher, and the delays between its attempts.
use vigil_summit_agent.Prelude.{
  All, ℕ, zero, suc, ◌+◌, ◌-◌, ◌*◌, ◌^◌, ◌≤◌, ◌<◌, String, true, false, List, [], ◌∷◌, ◌≡◌, ◌≢◌,
  refl, ◌=ₛ◌, if◌then◌else◌, any, filter, map, length, arith, eq_iff, Bool-cases, inl, inr, ap,
  subst, ◌∙◌, ◌⊎◌,
}
use vigil_summit_agent.Engagement.Tables.{Action}
use vigil_summit_agent.Worker.State.{Db}
use vigil_summit_agent.Worker.Dispatcher.{lease_ms, is_claimable, lease, claim, backoff}

-- No two actions have the same id.
abbrev pub UniqueIds : List Action → Type 0
UniqueIds [] = Unit
UniqueIds (a ∷ rest) = (any (λ b. b.id =ₛ a.id) rest ≡ false) × UniqueIds rest

-- How many rows a claim finds, and what it makes of them.
abbrev found : String → ℕ → List Action → ℕ
found id now rows = length (filter (is_claimable id now) rows)

abbrev leased : String → ℕ → List Action → List Action
leased id now rows = map (λ a. if is_claimable id now a then lease now a else a) rows

-- Where no row has the id, a claim finds none, also after another claim.
absent-found :
    (id : String) (now : ℕ) (rows : List Action)
    → any (λ b. b.id =ₛ id) rows ≡ false
    → found id now rows ≡ 0
absent-found id now [] h = refl
absent-found id now (a ∷ rest) h = ground (arith, h, absent-found id now rest)

absent-leased :
    (id : String) (now later : ℕ) (rows : List Action)
    → any (λ b. b.id =ₛ id) rows ≡ false
    → found id later (leased id now rows) ≡ 0
unfolding lease
absent-leased id now later [] h = refl
absent-leased id now later (a ∷ rest) h = elim (Bool-cases (a.id =ₛ id)) [
  | inl same ↦ absurd (ground (arith, h, same))
  | inr other ↦ rw (other, other) (absent-leased id now later rest (ground (arith, h, other)))
]

lease-taken :
    (id : String) (now later : ℕ) (a : Action)
    → later < now + lease_ms
    → is_claimable id later (lease now a) ≡ false
unfolding lease
lease-taken id now later a h = ground (arith, h)

leased-found :
    (id : String) (now later : ℕ) (rows : List Action)
    → later < now + lease_ms
    → UniqueIds rows
    → found id now rows ≢ 0
    → found id later (leased id now rows) ≡ 0
unfolding lease
leased-found id now later [] h u some_found = absurd (some_found refl)
leased-found id now later (a ∷ rest) h (new, u) some_found = elim (Bool-cases (a.id =ₛ id)) [
  | inl same ↦ own same (Bool-cases (is_claimable id now a))
  | inr other ↦
      rw (other, other)
        (leased-found id now later rest h u (λ none_found. some_found (rw other none_found)))
]
  where
    others : a.id =ₛ id ≡ true → any (λ b. b.id =ₛ id) rest ≡ false
    others same = subst (λ k. any (λ b. b.id =ₛ k) rest ≡ false) ((eq_iff a.id id).0 same) new

    own :
        a.id =ₛ id ≡ true
        → (is_claimable id now a ≡ true) ⊎ (is_claimable id now a ≡ false)
        → found id later (leased id now (a ∷ rest)) ≡ 0
    own same (inl mine) =
        rw (mine, lease-taken id now later a h) (absent-leased id now later rest (others same))
    own same (inr theirs) = absurd (some_found (rw theirs (absent-found id now rest (others same))))

-- A claim that finds nothing changes nothing.
leased-none :
    (id : String) (now : ℕ) (rows : List Action) → found id now rows ≡ 0 → leased id now rows ≡ rows
leased-none id now [] h = refl
leased-none id now (a ∷ rest) h = elim (Bool-cases (is_claimable id now a)) [
  | inl mine ↦ absurd (ground (arith, h, mine))
  | inr other ↦ rw other (ap (λ l. a ∷ l) (leased-none id now rest (rw other at h)))
]

-- A claim of another action does not concern this one.
leased-other :
    (id other_id : String) (now later : ℕ) (rows : List Action)
    → (other_id =ₛ id) ≡ false
    → found id later (leased other_id now rows) ≡ found id later rows
unfolding lease
leased-other id other_id now later [] h = refl
leased-other id other_id now later (a ∷ rest) h = elim (Bool-cases (is_claimable other_id now a)) [
  | inl theirs ↦
      rw theirs
        (ground (arith, theirs, h, eq_iff a.id other_id, leased-other id other_id now later rest h))
  | inr not_theirs ↦ rw not_theirs (ground (arith, leased-other id other_id now later rest h))
]

-- The claims of any dispatchers, one after the other, with their times
abbrev pub claims : List (String × ℕ) → Db → Db
claims [] d = d
claims ((id, now) ∷ rest) d = claims rest (claim id now d).1

claims-exclusive :
    (id : String) (limit : ℕ) (cs : List (String × ℕ)) (d : Db)
    → ((t : ℕ) → t < limit → found id t d.engagement.actions ≡ 0)
    → All (λ (c : String × ℕ). c.1 < limit) cs
    → (t : ℕ) → t < limit
    → found id t (claims cs d).engagement.actions ≡ 0
unfolding claim
claims-exclusive id limit [] d blocked before t h = blocked t h
claims-exclusive id limit ((other_id, now) ∷ cs) d blocked (early, before) t h =
    claims-exclusive id limit cs (claim other_id now d).1
      (λ t' h'. step t' h' (Bool-cases (other_id =ₛ id))) before t h
  where
    step :
        (t' : ℕ)
        → t' < limit
        → ((other_id =ₛ id) ≡ true) ⊎ ((other_id =ₛ id) ≡ false)
        → found id t' (leased other_id now d.engagement.actions) ≡ 0
    step t' h' (inl same) =
        let p : other_id ≡ id = (eq_iff other_id id).0 same in
        rw p (rw (leased-none id now d.engagement.actions (blocked now early)) (blocked t' h'))
    step t' h' (inr other) =
        leased-other id other_id now t' d.engagement.actions other ∙ blocked t' h'

-- While a lease lasts and nobody but claimers writes the actions: once a claim at the time `now` has
-- found an action, no claim finds it at a time before `now` plus the lease, whatever claims of this and
-- of other actions come in between at times before that, if ids are unique. A dispatcher whose processing
-- fails gives the lease up, and then the action can be claimed again.
pub claim-exclusive :
    (id : String) (now later : ℕ) (cs : List (String × ℕ)) (d : Db)
    → UniqueIds d.engagement.actions
    → (claim id now d).0 ≢ 0
    → All (λ (c : String × ℕ). c.1 < now + lease_ms) cs
    → later < now + lease_ms
    → (claim id later (claims cs (claim id now d).1)).0 ≡ 0
unfolding claim
claim-exclusive id now later cs d u some_found before h =
    claims-exclusive id (now + lease_ms) cs (claim id now d).1
      (λ t h'. leased-found id now t d.engagement.actions h' u some_found) before later h

pow-suc : (m : ℕ) → 2 ^ suc m ≡ 2 * 2 ^ m
pow-suc m = omega arith

pow-positive : (m : ℕ) → 1 ≤ 2 ^ m
pow-positive zero = omega arith
pow-positive (suc m) = omega (arith, pow-suc m, pow-positive m)

-- The delay before another attempt is between ten seconds and five minutes, and never less than after
-- the attempt before.
pub backoff-bounds :
    (n : ℕ) → (10000 ≤ backoff n) × (backoff n ≤ 300000) × (backoff n ≤ backoff (n + 1))
unfolding backoff
backoff-bounds zero = (omega arith, omega arith, omega arith)
backoff-bounds (suc m) =
    let next : 2 ^ (suc m + 1 - 1) ≡ 2 * 2 ^ m = ap (λ k. 2 ^ k) (omega arith) ∙ pow-suc m in
    let this : 2 ^ (suc m - 1) ≡ 2 ^ m = ap (λ k. 2 ^ k) (omega arith) in
    (omega (arith, this, pow-positive m), omega (arith, this), omega (arith, this, next))
