-- ===== src/Worker/Graph.antt =====
-- `orderWorkflowNodes` and `getNodeInput` of apps/execution-worker/src/index.ts.
pub mod Fuel
pub mod Counts
pub mod Keyed
pub mod Valid
pub mod Inputs
pub mod Reach
pub mod Depth
pub mod Sorted
pub mod Members
use vigil_summit_agent.Prelude.{
  ℕ, zero, suc, ◌+◌, ◌-◌, String, none, some, List, [], ◌∷◌, ◌++◌, ◌||◌, ◌==◌, ◌=ₛ◌, if◌then◌else◌,
  get_or_else, includes, length, filter, map, lookup, insert,
}
use vigil_summit_agent.Json.{obj, Fields, end, from_entries}
use vigil_summit_agent.Contracts.Workflow.{is_trigger, Node, Edge, Definition}

-- The `Map`s that the loop over the edges builds, starting from a count of 0 for each node.
abbrev pub add_outgoing : List (String × List String) → Edge → List (String × List String)
add_outgoing m e = insert e.source (get_or_else (lookup e.source m) [] ++ e.target ∷ []) m

abbrev pub add_incoming : List (String × ℕ) → Edge → List (String × ℕ)
add_incoming m e = insert e.target (get_or_else (lookup e.target m) 0 + 1) m

unfoldable pub outgoing_of : List (String × List String) → List Edge → List (String × List String)
outgoing_of m [] = m
outgoing_of m (e ∷ es) = outgoing_of (add_outgoing m e) es

unfoldable pub incoming_of : List (String × ℕ) → List Edge → List (String × ℕ)
incoming_of m [] = m
incoming_of m (e ∷ es) = incoming_of (add_incoming m e) es

unfoldable pub zero_counts : List (String × ℕ) → List Node → List (String × ℕ)
zero_counts m [] = m
zero_counts m (n ∷ ns) = zero_counts (insert n.id 0 m) ns

unfoldable pub nodes_by_id : List (String × Node) → List Node → List (String × Node)
nodes_by_id m [] = m
nodes_by_id m (n ∷ ns) = nodes_by_id (insert n.id n m) ns

pub record Sort : Type 0 where
  pub queue : List String
  pub counts : List (String × ℕ)
  pub visited : List String
  pub ordered : List Node

-- One round of the inner loop. A count of 0 would go to -1 in the source, and stays 0 here: neither
-- is 1, so in neither does the target join the queue then or later.
unfoldable pub release : Sort → String → Sort
release s target =
    let count = get_or_else (lookup target s.counts) 1 in
    record s {
      counts = insert target (count - 1) s.counts;
      queue = if count == 1 then s.queue ++ target ∷ [] else s.queue;
    }

unfoldable pub release_all : Sort → List String → Sort
release_all s [] = s
release_all s (t ∷ ts) = release_all (release s t) ts

pub data Drained : Type 0 where
  done : Sort → Drained
  out_of_fuel : Drained

module _ (nodes : List (String × Node)) (outgoing : List (String × List String)) where
  -- The body of the `while` loop, after `id` left the head of the queue.
  unfoldable pub visit : Sort → String → Sort
  visit s id = if id =ₛ "" || includes s.visited id then s else elim (lookup id nodes) [
    | none ↦ s
    | some node ↦
        release_all (record s { visited = id ∷ s.visited; ordered = s.ordered ++ node ∷ [] })
          (get_or_else (lookup id outgoing) [])
  ]

  unfoldable pub drain : ℕ → Sort → Drained
  drain zero s = elim s.queue [ [] ↦ done s | _ ∷ _ ↦ out_of_fuel ]
  drain (suc fuel) s = elim s.queue [
    | [] ↦ done s
    | id ∷ rest ↦ drain fuel (visit (record s { queue = rest }) id)
  ]

unfoldable pub trigger_ids : List Node → List String
trigger_ids [] = []
trigger_ids (n ∷ ns) = if is_trigger n.config then n.id ∷ trigger_ids ns else trigger_ids ns

unfoldable pub start : Definition → Sort
start d = record {
  queue = trigger_ids d.nodes;
  counts = incoming_of (zero_counts [] d.nodes) d.edges;
  visited = [];
  ordered = [];
}

pub data Order : Type 0 where
  ordered : List Node → Order
  unordered no_fuel : Order

unfoldable pub check_length : Definition → Drained → Order
check_length d out_of_fuel = no_fuel
check_length d (done s) =
    if length s.ordered == length d.nodes then ordered s.ordered else unordered

-- `orderWorkflowNodes`, where `unordered` stands for the error that it throws. The fuel is enough.
unfoldable pub order_workflow_nodes : Definition → Order
order_workflow_nodes d = check_length d (
    drain (nodes_by_id [] d.nodes) (outgoing_of [] d.edges) (length d.nodes + length d.edges)
      (start d))

abbrev pub Outputs : Type 0
Outputs = List (String × Fields)

abbrev pub edges_into : String → List Edge → List Edge
edges_into id es = filter (λ e. e.target =ₛ id) es

-- `getNodeInput`
unfoldable pub merge_inputs : List Edge → Outputs → Fields → Fields
merge_inputs [] outputs fallback = fallback
merge_inputs (e ∷ []) outputs fallback = get_or_else (lookup e.source outputs) fallback
merge_inputs (e ∷ f ∷ es) outputs fallback =
    from_entries end
      (map (λ (g : Edge). (g.source, obj (get_or_else (lookup g.source outputs) end))) (e ∷ f ∷ es))

unfoldable pub get_node_input : Node → Definition → Outputs → Fields → Fields
get_node_input node d outputs fallback = merge_inputs (edges_into node.id d.edges) outputs fallback

-- Everything above, for runs at concrete inputs.
unfoldable pub graph_code : Unit {0}
unfolding outgoing_of incoming_of zero_counts nodes_by_id release release_all visit drain
    trigger_ids start check_length order_workflow_nodes merge_inputs get_node_input
graph_code = tt
