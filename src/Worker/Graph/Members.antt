-- ===== src/Worker/Graph/Members.antt =====
-- The nodes that `orderWorkflowNodes` returns are those of the definition.
use vigil_summit_agent.Prelude.{
  ℕ, suc, ◌+◌, ◌≤◌, String, true, false, some, List, [], ◌∷◌, ◌≡◌, refl, subst, ◌⊎◌, inl, inr,
  lookup, insert, StringMap, ◌=ₛ◌, eq_iff, eq_refl, All, Bool-cases, includes, length,
  if◌then◌else◌, arith,
}
use mathlib.Core.Option.{some-injective, none-ne-some}
use vigil_summit_agent.Contracts.Workflow.{Node}
use vigil_summit_agent.Contracts.Definition.{has_id}
use vigil_summit_agent.Worker.Graph.{nodes_by_id}

-- It is one of the nodes.
abbrev pub Among : Node → List Node → Type 0
Among n [] = ⊥
Among n (x ∷ xs) = (n ≡ x) ⊎ Among n xs

-- The ids, the last one first, on top of those that are there.
abbrev pub seen_after : List String → List Node → List String
seen_after seen [] = seen
seen_after seen (n ∷ ns) = seen_after (n.id ∷ seen) ns

module _ (nodes : List Node) where
  abbrev pub Known : StringMap Node → Type 0
  Known m = All (λ (entry : String × Node). Among entry.1 nodes) m

  insert-Known :
      (id : String) (n : Node) (m : StringMap Node)
      → Among n nodes
      → Known m
      → Known (insert id n m)
  insert-Known id n [] a k = (a, tt)
  insert-Known id n (entry ∷ m) a (p, k) = elim (Bool-cases (entry.0 =ₛ id)) [
    | inl same ↦ rw same (a, k)
    | inr other ↦ rw other (p, insert-Known id n m a k)
  ]

  pub nodes_by_id-Known :
      (m : StringMap Node) (ns : List Node)
      → ((n : Node) → Among n ns → Among n nodes)
      → Known m
      → Known (nodes_by_id m ns)
  unfolding nodes_by_id
  nodes_by_id-Known m [] h k = k
  nodes_by_id-Known m (n ∷ ns) h k =
      nodes_by_id-Known (insert n.id n m) ns (λ x a. h x (inr a))
        (insert-Known n.id n m (h n (inl refl)) k)

  pub lookup-Known :
      (id : String) (n : Node) (m : StringMap Node) → Known m → lookup id m ≡ some n → Among n nodes
  lookup-Known id n [] k h = absurd (none-ne-some n h)
  lookup-Known id n (entry ∷ m) (p, k) h = elim (Bool-cases (entry.0 =ₛ id)) [
    | inl same ↦ subst (λ x. Among x nodes) (some-injective entry.1 n (rw same at h)) p
    | inr other ↦ lookup-Known id n m k (rw other at h)
  ]

pub Among-has_id : (n : Node) (ns : List Node) → Among n ns → has_id ns n.id ≡ true
Among-has_id n [] a = elim a [ ]
Among-has_id n (x ∷ xs) (inl same) = rw same (rw (eq_refl x.id) refl)
Among-has_id n (x ∷ xs) (inr rest) = ground (arith, Among-has_id n xs rest)

-- How many of the nodes are not seen.
abbrev pub missing : List String → List Node → ℕ
missing seen [] = 0
missing seen (n ∷ ns) = let rest = missing seen ns in if includes seen n.id then rest else suc rest

pub missing-start : (ns : List Node) → missing [] ns ≡ length ns
missing-start [] = refl
missing-start (n ∷ ns) = omega (arith, missing-start ns)

missing-more :
    (id : String) (seen : List String) (ns : List Node) → missing (id ∷ seen) ns ≤ missing seen ns
missing-more id seen [] = omega arith
missing-more id seen (n ∷ ns) = ground (arith, missing-more id seen ns)

pub missing-visit :
    (id : String) (seen : List String) (ns : List Node)
    → includes seen id ≡ false
    → has_id ns id ≡ true
    → missing (id ∷ seen) ns + 1 ≤ missing seen ns
missing-visit id seen [] new h = ground (arith, h)
missing-visit id seen (n ∷ ns) new h = elim (Bool-cases (n.id =ₛ id)) [
  | inl same ↦
      let p : n.id ≡ id = (eq_iff n.id id).0 same in
      rw p (rw (eq_refl id, new) (omega (arith, missing-more id seen ns)))
  | inr other ↦
      ground (arith, h, other, eq_iff id n.id, eq_iff n.id id, missing-visit id seen ns new)
]

pub missing-none :
    (seen : List String) (ns : List Node)
    → missing seen ns ≡ 0
    → All (λ (n : Node). includes seen n.id ≡ true) ns
missing-none seen [] h = tt
missing-none seen (n ∷ ns) h = elim (Bool-cases (includes seen n.id)) [
  | inl there ↦ (there, missing-none seen ns (rw there at h))
  | inr away ↦ absurd (ground (arith, h, away))
]
