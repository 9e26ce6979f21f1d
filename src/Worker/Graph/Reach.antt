-- ===== src/Worker/Graph/Reach.antt =====
-- The loop of `validateReachability` ends, by the measure that the loop of `orderWorkflowNodes` has.
use vigil_summit_agent.Prelude.{
  ℕ, zero, suc, ◌+◌, ◌≤◌, String, ◌||◌, none, some, List, [], ◌∷◌, ◌++◌, ◌≡◌, ◌≢◌, refl, includes,
  length, length-append, arith, ◌=ₛ◌, Bool-cases, inl, inr, ap, ◌∙◌, or-second, sym,
}
use mathlib.Core.Option.{none-ne-some}
use vigil_summit_agent.Contracts.Workflow.{Edge, Definition}
use vigil_summit_agent.Contracts.Definition.{
  targets, outgoing_edges, reach, trigger_set, reached_from_triggers,
}
use vigil_summit_agent.Worker.Graph.{add_outgoing, outgoing_of}
use vigil_summit_agent.Worker.Graph.Fuel.{Outgoing, pending, pending-visit, pending-outgoing_of}

pub outgoing_edges-outgoing_of :
    (m : Outgoing) (es : List Edge) → outgoing_edges m es ≡ outgoing_of m es
unfolding outgoing_edges outgoing_of
outgoing_edges-outgoing_of m [] = refl
outgoing_edges-outgoing_of m (e ∷ es) = outgoing_edges-outgoing_of (add_outgoing m e) es

reach-some :
    (m : Outgoing) (fuel : ℕ) (queue reached : List String)
    → length queue + pending reached m ≤ fuel
    → (ks : List String) × (reach m fuel queue reached ≡ some ks)
unfolding reach
reach-some m zero [] reached h = (reached, refl)
reach-some m zero (k ∷ rest) reached h = absurd (omega (arith, h))
reach-some m (suc fuel) [] reached h = (reached, refl)
reach-some m (suc fuel) (k ∷ rest) reached h = elim (Bool-cases (k =ₛ "" || includes reached k)) [
  | inl skip ↦ rw skip (reach-some m fuel rest reached (omega (arith, h)))
  | inr go ↦ rw go (
      reach-some m fuel (rest ++ targets m k) (k ∷ reached) (
        omega (
          arith,
          h,
          length-append rest (targets m k),
          pending-visit k reached m (or-second _ _ go),
        )))
]

-- For every definition, valid or not, the loop of `validateReachability` comes to its end: the number of
-- triggers and edges bounds its rounds.
pub reached_from_triggers-terminates : (d : Definition) → reached_from_triggers d ≢ none
unfolding reached_from_triggers
reached_from_triggers-terminates d h =
    let triggers = trigger_set [] d.nodes in
    let (ks, run) =
      reach-some (outgoing_edges [] d.edges) (length triggers + length d.edges) triggers [] (
        omega (
          arith,
          pending-outgoing_of [] d.edges,
          ap (pending []) (outgoing_edges-outgoing_of [] d.edges),
        )) in
    none-ne-some ks (sym h ∙ run)
