-- ===== src/Worker/Graph/Inputs.antt =====
-- What `getNodeInput` hands to a node that several edges lead to.
use vigil_summit_agent.Prelude.{
  ◌≤◌, String, none, some, List, [], ◌∷◌, ◌≡◌, refl, ap, ◌∙◌, map, any, length, lookup, get_or_else,
  if◌then◌else◌, ◌=ₛ◌, eq_iff, arith, Bool-cases, inl, inr,
}
use vigil_summit_agent.Json.{Json, obj, Fields, end, get, set, from_entries, get-set}
use vigil_summit_agent.Contracts.Workflow.{Node, Edge, Definition}
use vigil_summit_agent.Worker.Graph.{Outputs, edges_into, merge_inputs, get_node_input}

abbrev output_of : Outputs → String → Json
output_of outputs id = obj (get_or_else (lookup id outputs) end)

get-from_entries :
    (outputs : Outputs) (key : String) (fs : Fields) (es : List Edge)
    → get (from_entries fs (map (λ (e : Edge). (e.source, output_of outputs e.source)) es)) key
      ≡ (if any (λ e. e.source =ₛ key) es then some (output_of outputs key) else get fs key)
get-from_entries outputs key fs [] = refl
get-from_entries outputs key fs (e ∷ es) =
    get-from_entries outputs key (set fs e.source (output_of outputs e.source)) es
    ∙ rw get-set (elim (Bool-cases (e.source =ₛ key)) [
      | inl same ↦ rw same (ground (arith, ap (output_of outputs) ((eq_iff e.source key).0 same)))
      | inr other ↦ rw other refl
    ])

merged :
    (outputs : Outputs) (key : String) (fallback : Fields) (es : List Edge)
    → 2 ≤ length es
    → get (merge_inputs es outputs fallback) key
      ≡ (if any (λ e. e.source =ₛ key) es then some (output_of outputs key) else none)
unfolding merge_inputs
merged outputs key fallback [] h = absurd (omega (arith, h))
merged outputs key fallback (e ∷ []) h = absurd (omega (arith, h))
merged outputs key fallback (e ∷ f ∷ es) h = get-from_entries outputs key end (e ∷ f ∷ es)

-- Where two edges or more lead to a node, its input has exactly the sources of these edges as keys, and
-- under each the output of that node, or an empty object if it has none.
pub get_node_input-merged :
    (node : Node) (d : Definition) (outputs : Outputs) (fallback : Fields) (key : String)
    → 2 ≤ length (edges_into node.id d.edges)
    → get (get_node_input node d outputs fallback) key ≡ (
        if any (λ e. e.source =ₛ key) (edges_into node.id d.edges)
        then some (obj (get_or_else (lookup key outputs) end))
        else none)
unfolding get_node_input
get_node_input-merged node d outputs fallback key h =
    merged outputs key fallback (edges_into node.id d.edges) h
