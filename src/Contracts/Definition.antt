-- ===== src/Contracts/Definition.antt =====
-- The refinement of `workflowDefinitionSchema` in packages/contracts/src/workflow-definition.ts: the
-- issues that a definition of the right shape has, in the order in which they are added.
use vigil_summit_agent.Prelude.{
  ℕ, zero, suc, ◌+◌, String, Bool, true, false, Option, none, some, List, [], ◌∷◌, ◌++◌, ◌||◌, not,
  ◌=ₛ◌, ◌<>◌, ltb, if◌then◌else◌, get_or_else, includes, length, lookup, insert, map, all, ◌==◌,
}
use vigil_summit_agent.Contracts.Workflow.{is_trigger, Node, Edge, Definition}

pub data Issue : Type 0 where
  duplicate_node duplicate_edge missing_source missing_target self_edge duplicate_pair : ℕ → Issue
  no_trigger trigger_with_incoming unreachable_node cyclic : Issue

abbrev pub issue_if : Bool → Issue → List Issue
issue_if b i = if b then i ∷ [] else []

abbrev pub has_id : List Node → String → Bool
has_id ns k = includes (map (λ n. n.id) ns) k

-- The loop over the nodes: `seen` is `nodeIds` before the node at `index`.
unfoldable pub node_issues : ℕ → List String → List Node → List Issue
node_issues index seen [] = []
node_issues index seen (n ∷ ns) =
    issue_if (includes seen n.id) (duplicate_node index) ++ node_issues (suc index) (n.id ∷ seen) ns

-- `set.add(k)`
abbrev pub add : List String → String → List String
add ks k = if includes ks k then ks else ks ++ k ∷ []

unfoldable pub trigger_set : List String → List Node → List String
trigger_set ids [] = ids
trigger_set ids (n ∷ ns) = trigger_set (if is_trigger n.config then add ids n.id else ids) ns

abbrev pub pair_key : Edge → String
pair_key e = e.source <> "->" <> e.target

-- The loop over the edges, with `edgeIds` and `edgePairs`.
unfoldable pub edge_issues : List Node → ℕ → List String → List String → List Edge → List Issue
edge_issues ns index ids pairs [] = []
edge_issues ns index ids pairs (e ∷ es) =
    issue_if (includes ids e.id) (duplicate_edge index)
    ++ issue_if (not (has_id ns e.source)) (missing_source index)
    ++ issue_if (not (has_id ns e.target)) (missing_target index)
    ++ issue_if (e.source =ₛ e.target) (self_edge index)
    ++ issue_if (includes pairs (pair_key e)) (duplicate_pair index)
    ++ edge_issues ns (suc index) (e.id ∷ ids) (pair_key e ∷ pairs) es

unfoldable pub outgoing_edges :
    List (String × List String) → List Edge → List (String × List String)
outgoing_edges m [] = m
outgoing_edges m (e ∷ es) =
    outgoing_edges (insert e.source (get_or_else (lookup e.source m) [] ++ e.target ∷ []) m) es

unfoldable pub incoming_counts : List (String × ℕ) → List Edge → List (String × ℕ)
incoming_counts m [] = m
incoming_counts m (e ∷ es) =
    incoming_counts (insert e.target (get_or_else (lookup e.target m) 0 + 1) m) es

unfoldable pub trigger_issues : List (String × ℕ) → List String → List Issue
trigger_issues counts [] = []
trigger_issues counts (t ∷ ts) =
    issue_if (ltb 0 (get_or_else (lookup t counts) 0)) trigger_with_incoming
    ++ trigger_issues counts ts

abbrev pub targets : List (String × List String) → String → List String
targets m k = get_or_else (lookup k m) []

-- The `while` loop of `validateReachability`; `none` is out of fuel.
unfoldable pub reach :
    List (String × List String) → ℕ → List String → List String → Option (List String)
reach m zero queue reached = elim queue [ [] ↦ some reached | _ ∷ _ ↦ none ]
reach m (suc fuel) queue reached = elim queue [
  | [] ↦ some reached
  | k ∷ rest ↦
      let more = reach m fuel (rest ++ targets m k) (k ∷ reached) in
      let less = reach m fuel rest reached in if k =ₛ "" || includes reached k then less else more
]

-- `none` stands for a run out of fuel, which `reach` never is.
abbrev pub reach_issues : List Node → Option (List String) → List Issue
reach_issues ns none = unreachable_node ∷ []
reach_issues ns (some reached) =
    issue_if (not (all (λ n. includes reached n.id) ns)) unreachable_node

pub record Marks : Type 0 where
  pub visiting : List String
  pub visited : List String

pub data Dfs : Type 0 where
  finished : Marks → Dfs
  cycle dfs_fuel : Dfs

abbrev pub remove : List String → String → List String
remove [] k = []
remove (x ∷ xs) k = if x =ₛ k then remove xs k else x ∷ remove xs k

abbrev pub and_then : Dfs → (Marks → Dfs) → Dfs
and_then (finished s) f = f s
and_then cycle f = cycle
and_then dfs_fuel f = dfs_fuel

-- A loop that visits one text after the other until a visit returns false.
unfoldable pub visit_all : (String → Marks → Dfs) → List String → Marks → Dfs
visit_all visit [] s = finished s
visit_all visit (k ∷ ks) s = and_then (visit k s) (visit_all visit ks)

-- `visit` of `validateAcyclicGraph`, with fuel for the depth of its calls.
unfoldable pub visit : List (String × List String) → ℕ → String → Marks → Dfs
visit m zero k s = dfs_fuel
visit m (suc fuel) k s =
    let deeper = visit_all (visit m fuel) (targets m k) (record s { visiting = k ∷ s.visiting }) in
    if includes s.visiting k
    then cycle
    else if includes s.visited k
    then finished s
    else and_then deeper
        (λ t. finished (record { visiting = remove t.visiting k; visited = k ∷ t.visited }))

abbrev pub cycle_issues : Dfs → List Issue
cycle_issues (finished _) = []
cycle_issues cycle = cyclic ∷ []
cycle_issues dfs_fuel = cyclic ∷ []

unfoldable pub search_cycles : Definition → Dfs
search_cycles d =
    visit_all (visit (outgoing_edges [] d.edges) (length d.edges + 2)) (map (λ n. n.id) d.nodes)
      (record { visiting = []; visited = [] })

unfoldable pub reached_from_triggers : Definition → Option (List String)
reached_from_triggers d =
    let triggers = trigger_set [] d.nodes in
    reach (outgoing_edges [] d.edges) (length triggers + length d.edges) triggers []

-- All issues of `superRefine`; the definition is valid if there is none.
unfoldable pub issues : Definition → List Issue
issues d =
    let triggers = trigger_set [] d.nodes in
    node_issues 0 [] d.nodes
    ++ issue_if (length triggers == 0) no_trigger
    ++ edge_issues d.nodes 0 [] [] d.edges
    ++ trigger_issues (incoming_counts [] d.edges) triggers
    ++ reach_issues d.nodes (reached_from_triggers d)
    ++ cycle_issues (search_cycles d)

abbrev pub is_empty {ℓ} : {A : Type ℓ} → List A → Bool
is_empty [] = true
is_empty (_ ∷ _) = false

-- `workflowDefinitionSchema.safeParse(value).success`, after the shape.
unfoldable pub is_valid : Definition → Bool
is_valid d = is_empty (issues d)

-- Everything above, for runs at concrete inputs.
unfoldable pub definition_code : Unit {0}
unfolding node_issues trigger_set edge_issues outgoing_edges incoming_counts trigger_issues reach
    visit_all visit search_cycles reached_from_triggers issues is_valid
definition_code = tt
