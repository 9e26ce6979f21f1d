-- ===== src/Worker/GraphTests.antt =====
-- `orderWorkflowNodes` at concrete definitions: a diamond whose edges are listed out of order, and a
-- cycle behind the trigger.
use vigil_summit_agent.Prelude.{
  All, includes, true, some, arith, true, String, none, List, [], ◌∷◌, ◌≡◌, ◌≢◌, refl, length,
}
use vigil_summit_agent.Contracts.Workflow.{
  Edge, manual_trigger, transform_action, passthrough, Node, Definition,
}
use vigil_summit_agent.Worker.Graph.{
  graph_code, ordered, unordered, no_fuel, order_workflow_nodes, trigger_ids,
}
use vigil_summit_agent.Json.{str, obj, end, field, get}
use vigil_summit_agent.Worker.Graph.{Outputs, get_node_input}
use vigil_summit_agent.Worker.Graph.Reach.{reached_from_triggers-terminates}
use vigil_summit_agent.Worker.Graph.Depth.{search_cycles-terminates}
use vigil_summit_agent.Worker.Graph.Inputs.{get_node_input-merged}
use vigil_summit_agent.Contracts.Definition.{
  reached_from_triggers, search_cycles, dfs_fuel, definition_code, is_valid,
}
use vigil_summit_agent.Worker.Graph.Members.{Among, seen_after}
use vigil_summit_agent.Worker.Graph.Valid.{SourcesFirst, valid-SourcesFirst}
use vigil_summit_agent.Worker.Graph.Fuel.{order_workflow_nodes-terminates}
use vigil_summit_agent.Worker.Graph.Sorted.{Sorted, order_workflow_nodes-Sorted}

abbrev copy_node : String → Node
copy_node id = record { id = id; config = transform_action passthrough none }

abbrev start_node : Node
start_node = record { id = "start"; config = manual_trigger }

abbrev diamond : Definition
diamond = record {
  nodes = copy_node "last" ∷ copy_node "left" ∷ start_node ∷ copy_node "right" ∷ [];
  edges =
      record { id = "e1"; source = "left"; target = "last" }
      ∷ record { id = "e2"; source = "start"; target = "right" }
      ∷ record { id = "e3"; source = "right"; target = "last" }
      ∷ record { id = "e4"; source = "start"; target = "left" }
      ∷ [];
}

abbrev diamond_order : List Node
diamond_order = start_node ∷ copy_node "right" ∷ copy_node "left" ∷ copy_node "last" ∷ []

abbrev looped : Definition
looped = record {
  nodes = start_node ∷ copy_node "a" ∷ copy_node "b" ∷ [];
  edges =
      record { id = "e1"; source = "a"; target = "b" }
      ∷ record { id = "e2"; source = "b"; target = "a" }
      ∷ [];
}

diamond_is_ordered : order_workflow_nodes diamond ≡ ordered diamond_order
unfolding graph_code
diamond_is_ordered = refl

cycle_is_unordered : order_workflow_nodes looped ≡ unordered
unfolding graph_code
cycle_is_unordered = refl

order_workflow_nodes-terminates_example : order_workflow_nodes looped ≢ no_fuel
order_workflow_nodes-terminates_example = order_workflow_nodes-terminates looped

order_workflow_nodes-Sorted_example :
    (length diamond_order ≡ length diamond.nodes)
    × All (λ (n : Node). Among n diamond.nodes) diamond_order
    × All (λ (n : Node). includes (seen_after [] diamond_order) n.id ≡ true) diamond.nodes
    × Sorted (trigger_ids diamond.nodes) diamond.edges [] diamond_order
order_workflow_nodes-Sorted_example =
    order_workflow_nodes-Sorted diamond diamond_order diamond_is_ordered

diamond_is_accepted : is_valid diamond ≡ true
unfolding definition_code
diamond_is_accepted = refl

valid-SourcesFirst_example :
    (length diamond_order ≡ length diamond.nodes)
    × All (λ (n : Node). Among n diamond.nodes) diamond_order
    × All (λ (n : Node). includes (seen_after [] diamond_order) n.id ≡ true) diamond.nodes
    × All (λ (e : Edge). includes (seen_after [] diamond_order) e.target ≡ true) diamond.edges
    × SourcesFirst diamond.edges [] diamond_order
valid-SourcesFirst_example =
    valid-SourcesFirst diamond diamond_order diamond_is_accepted diamond_is_ordered

abbrev side_outputs : Outputs
side_outputs = ("left", field "x" (str "1") end) ∷ []

get_node_input-merged_example :
    get (get_node_input (copy_node "last") diamond side_outputs end) "left"
    ≡ some (obj (field "x" (str "1") end))
get_node_input-merged_example =
    get_node_input-merged (copy_node "last") diamond side_outputs end "left" (omega arith)

reached_from_triggers-terminates_example : reached_from_triggers looped ≢ none
reached_from_triggers-terminates_example = reached_from_triggers-terminates looped

search_cycles-terminates_example : search_cycles looped ≢ dfs_fuel
search_cycles-terminates_example = search_cycles-terminates looped
