-- ===== src/Worker/Graph/Keyed.antt =====
-- The map of nodes that `orderWorkflowNodes` looks nodes up in.
use vigil_summit_agent.Prelude.{
  String, some, List, [], ◌∷◌, ◌≡◌, refl, sym, ap, ◌∙◌, lookup, insert, StringMap, eq_iff, ◌=ₛ◌,
  All, Bool-cases, inl, inr,
}
use mathlib.Core.Option.{some-injective, none-ne-some}
use vigil_summit_agent.Contracts.Workflow.{Node}
use vigil_summit_agent.Worker.Graph.{nodes_by_id}

-- Each entry of the map of nodes is under its own id.
abbrev pub Keyed : StringMap Node → Type 0
Keyed m = All (λ (entry : String × Node). entry.1.id ≡ entry.0) m

insert-Keyed : (n : Node) (m : StringMap Node) → Keyed m → Keyed (insert n.id n m)
insert-Keyed n [] k = (refl, tt)
insert-Keyed n (entry ∷ m) (p, k) = elim (Bool-cases (entry.0 =ₛ n.id)) [
  | inl same ↦ rw same (refl, k)
  | inr other ↦ rw other (p, insert-Keyed n m k)
]

pub nodes_by_id-Keyed : (m : StringMap Node) (ns : List Node) → Keyed m → Keyed (nodes_by_id m ns)
unfolding nodes_by_id
nodes_by_id-Keyed m [] k = k
nodes_by_id-Keyed m (n ∷ ns) k = nodes_by_id-Keyed (insert n.id n m) ns (insert-Keyed n m k)

pub lookup-Keyed :
    (id : String) (n : Node) (m : StringMap Node) → Keyed m → lookup id m ≡ some n → n.id ≡ id
lookup-Keyed id n [] k h = absurd (none-ne-some n h)
lookup-Keyed id n (entry ∷ m) (p, k) h = elim (Bool-cases (entry.0 =ₛ id)) [
  | inl same ↦
      sym (ap (λ (x : Node). x.id) (some-injective entry.1 n (rw same at h)))
      ∙ p
      ∙ (eq_iff entry.0 id).0 same
  | inr other ↦ lookup-Keyed id n m k (rw other at h)
]
