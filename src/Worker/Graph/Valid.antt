-- ===== src/Worker/Graph/Valid.antt =====
-- The order of a definition that the contracts accept.
use vigil_summit_agent.Prelude.{
  All, subst, Bool, not, false, suc, ℕ, String, true, false, ◌||◌, List, [], ◌∷◌, ◌++◌, ◌≡◌, refl,
  sym, ap, ◌∙◌, includes, length, StringMap, arith, eq_iff, ◌=ₛ◌, ltb, ◌==◌, Bool-cases, inl, inr,
  ◌⊎◌,
}
use vigil_summit_agent.Contracts.Workflow.{is_trigger, Node, Edge, Definition}
use vigil_summit_agent.Worker.Graph.Members.{Among, seen_after}
use vigil_summit_agent.Contracts.Definition.{
  has_id, pair_key, duplicate_edge, missing_source, missing_target, self_edge, duplicate_pair,
  is_empty, issue_if, add, trigger_set, incoming_counts, trigger_issues, issues, is_valid,
  node_issues, edge_issues, no_trigger, reach_issues, reached_from_triggers, cycle_issues,
  search_cycles, trigger_with_incoming, Issue,
}
use vigil_summit_agent.Worker.Graph.{
  add_incoming, incoming_of, trigger_ids, ordered, order_workflow_nodes,
}
use vigil_summit_agent.Worker.Graph.Counts.{count_of, open_edges, count-incoming_of, SourcesIn}
use vigil_summit_agent.Worker.Graph.Sorted.{Sorted, order_workflow_nodes-Sorted}

is_empty-append :
    (xs ys : List Issue) → is_empty (xs ++ ys) ≡ true → (is_empty xs ≡ true) × (is_empty ys ≡ true)
is_empty-append [] ys h = (refl, h)
is_empty-append (x ∷ xs) ys h = cc h

incoming_counts-incoming_of :
    (m : StringMap ℕ) (es : List Edge) → incoming_counts m es ≡ incoming_of m es
unfolding incoming_counts incoming_of
incoming_counts-incoming_of m [] = refl
incoming_counts-incoming_of m (e ∷ es) = incoming_counts-incoming_of (add_incoming m e) es

includes-add :
    (ks : List String) (k t : String) → includes (add ks k) t ≡ (includes ks t || (k =ₛ t))
includes-add ks k t = elim (Bool-cases (includes ks k)) [
  | inl there ↦ rw there (there-includes ks there)
  | inr new ↦ rw new (includes-last ks)
]
  where
    there-includes :
        (xs : List String) → includes xs k ≡ true → includes xs t ≡ (includes xs t || (k =ₛ t))
    there-includes [] h = cc h
    there-includes (x ∷ xs) h =
        ground (arith, eq_iff x k, eq_iff k t, eq_iff x t, there-includes xs)

    includes-last : (xs : List String) → includes (xs ++ k ∷ []) t ≡ (includes xs t || (k =ₛ t))
    includes-last [] = ground arith
    includes-last (x ∷ xs) = ground (arith, includes-last xs)

trigger_set-includes :
    (acc : List String) (ns : List Node) (t : String)
    → includes acc t ≡ true ⊎ includes (trigger_ids ns) t ≡ true
    → includes (trigger_set acc ns) t ≡ true
unfolding trigger_set trigger_ids
trigger_set-includes acc [] t (inl h) = h
trigger_set-includes acc [] t (inr h) = cc h
trigger_set-includes acc (n ∷ ns) t h = elim (Bool-cases (is_trigger n.config)) [
  | inl trigger ↦ rw trigger (trigger_set-includes (add acc n.id) ns t (later (rw trigger at h)))
  | inr other ↦ rw other (trigger_set-includes acc ns t (rw other at h))
]
  where
    later :
        includes acc t ≡ true ⊎ includes (n.id ∷ trigger_ids ns) t ≡ true
        → includes (add acc n.id) t ≡ true ⊎ includes (trigger_ids ns) t ≡ true
    later (inl a) = inl (rw includes-add (ground (arith, a)))
    later (inr b) = elim (Bool-cases (n.id =ₛ t)) [
      | inl same ↦ inl (rw includes-add (ground (arith, same)))
      | inr other ↦ inr (rw other at b)
    ]

trigger_issues-none :
    (counts : StringMap ℕ) (ts : List String) (t : String)
    → is_empty (trigger_issues counts ts) ≡ true
    → includes ts t ≡ true
    → count_of t counts ≡ 0
unfolding trigger_issues
trigger_issues-none counts [] t h at = cc at
trigger_issues-none counts (x ∷ xs) t h at =
    let (p, q) =
      is_empty-append (issue_if (ltb 0 (count_of x counts)) trigger_with_incoming)
        (trigger_issues counts xs) h in
    elim (Bool-cases (x =ₛ t)) [
      | inl same ↦ ap (λ k. count_of k counts) (sym ((eq_iff x t).0 same)) ∙ ground (arith, p)
      | inr other ↦ trigger_issues-none counts xs t q (rw other at at)
    ]

-- The targets of its edges are nodes.
edge_issues-none :
    (ns : List Node) (index : ℕ) (ids pairs : List String) (es : List Edge)
    → is_empty (edge_issues ns index ids pairs es) ≡ true
    → All (λ (e : Edge). has_id ns e.target ≡ true) es
unfolding edge_issues
edge_issues-none ns index ids pairs [] h = tt
edge_issues-none ns index ids pairs (e ∷ es) h =
    let a : List Issue = issue_if (includes ids e.id) (duplicate_edge index) in
    let b : List Issue = issue_if (not (has_id ns e.source)) (missing_source index) in
    let c : List Issue = issue_if (not (has_id ns e.target)) (missing_target index) in
    let x : List Issue = issue_if (e.source =ₛ e.target) (self_edge index) in
    let y : List Issue = issue_if (includes pairs (pair_key e)) (duplicate_pair index) in
    let rest = edge_issues ns (suc index) (e.id ∷ ids) (pair_key e ∷ pairs) es in
    let (own, later) = is_empty-append (a ++ b ++ c ++ x ++ y) rest h in
    let four = (is_empty-append (a ++ b ++ c ++ x) y own).0 in
    let three = (is_empty-append (a ++ b ++ c) x four).0 in
    (
      target-there (has_id ns e.target) (is_empty-append (a ++ b) c three).1,
      edge_issues-none ns (suc index) (e.id ∷ ids) (pair_key e ∷ pairs) es later,
    )
  where
    target-there : (b : Bool) → is_empty (issue_if (not b) (missing_target index)) ≡ true → b ≡ true
    target-there true p = refl
    target-there false p = cc p

-- A definition with no issue has none of its edges and none of its triggers.
valid-parts :
    (d : Definition)
    → is_valid d ≡ true
    → (is_empty (edge_issues d.nodes 0 [] [] d.edges) ≡ true)
      × (is_empty (trigger_issues (incoming_counts [] d.edges) (trigger_set [] d.nodes)) ≡ true)
unfolding is_valid issues
valid-parts d h =
    let triggers : List String = trigger_set [] d.nodes in
    let none_there : List Issue = issue_if (length triggers == 0) no_trigger in
    let nodes : List Issue = node_issues 0 [] d.nodes in
    let edges : List Issue = edge_issues d.nodes 0 [] [] d.edges in
    let before : List Issue = nodes ++ none_there ++ edges in
    let ts : List Issue = trigger_issues (incoming_counts [] d.edges) triggers in
    let unreached : List Issue = reach_issues d.nodes (reached_from_triggers d) in
    let h1 = (is_empty-append (before ++ ts ++ unreached) (cycle_issues (search_cycles d)) h).0 in
    let h2 = is_empty-append before ts (is_empty-append (before ++ ts) unreached h1).0 in
    ((is_empty-append (nodes ++ none_there) edges h2.0).1, h2.1)

has_id-includes :
    (seen : List String) (ns : List Node) (t : String)
    → All (λ (n : Node). includes seen n.id ≡ true) ns
    → has_id ns t ≡ true
    → includes seen t ≡ true
has_id-includes seen [] t a h = cc h
has_id-includes seen (n ∷ ns) t (here, a) h = elim (Bool-cases (n.id =ₛ t)) [
  | inl same ↦ subst (λ k. includes seen k ≡ true) ((eq_iff n.id t).0 same) here
  | inr other ↦ has_id-includes seen ns t a (ground (arith, h, other))
]

includes-targets :
    (seen : List String) (ns : List Node) (es : List Edge)
    → All (λ (n : Node). includes seen n.id ≡ true) ns
    → All (λ (e : Edge). has_id ns e.target ≡ true) es
    → All (λ (e : Edge). includes seen e.target ≡ true) es
includes-targets seen ns [] a h = tt
includes-targets seen ns (e ∷ es) a (here, h) =
    (has_id-includes seen ns e.target a here, includes-targets seen ns es a h)

no_open-SourcesIn :
    (seen : List String) (t : String) (es : List Edge)
    → open_edges [] t es ≡ 0
    → SourcesIn seen t es
no_open-SourcesIn seen t [] h = tt
no_open-SourcesIn seen t (e ∷ es) h =
    (λ at. ground (arith, h, at), no_open-SourcesIn seen t es (omega (arith, h)))

-- Each node comes once, and after the sources of all edges into it.
abbrev pub SourcesFirst : List Edge → List String → List Node → Type 0
SourcesFirst es seen [] = Unit
SourcesFirst es seen (n ∷ ns) =
    (includes seen n.id ≡ false) × SourcesIn seen n.id es × SourcesFirst es (n.id ∷ seen) ns

Sorted-SourcesFirst :
    (triggers : List String) (es : List Edge) (seen : List String) (ns : List Node)
    → ((t : String) → includes triggers t ≡ true → open_edges [] t es ≡ 0)
    → Sorted triggers es seen ns
    → SourcesFirst es seen ns
Sorted-SourcesFirst triggers es seen [] h s = tt
Sorted-SourcesFirst triggers es seen (n ∷ ns) h (new, inl t, s) = (
  new,
  no_open-SourcesIn seen n.id es (h n.id t),
  Sorted-SourcesFirst triggers es (n.id ∷ seen) ns h s,
)
Sorted-SourcesFirst triggers es seen (n ∷ ns) h (new, inr sources, s) =
    (new, sources, Sorted-SourcesFirst triggers es (n.id ∷ seen) ns h s)

-- For a definition that the contracts accept, where `orderWorkflowNodes` returns: it returns nodes of
-- the definition, as many as it has, and the id of each node of the definition is among theirs; no two
-- of them have the same id; and the target of every edge is one of them and comes after the edge's
-- source.
pub valid-SourcesFirst :
    (d : Definition) (ns : List Node)
    → is_valid d ≡ true
    → order_workflow_nodes d ≡ ordered ns
    → (length ns ≡ length d.nodes)
      × All (λ (n : Node). Among n d.nodes) ns
      × All (λ (n : Node). includes (seen_after [] ns) n.id ≡ true) d.nodes
      × All (λ (e : Edge). includes (seen_after [] ns) e.target ≡ true) d.edges
      × SourcesFirst d.edges [] ns
valid-SourcesFirst d ns valid run =
    let (long, known, complete, s) = order_workflow_nodes-Sorted d ns run in
    (
      long,
      known,
      complete,
      includes-targets (seen_after [] ns) d.nodes d.edges complete
          (edge_issues-none d.nodes 0 [] [] d.edges (valid-parts d valid).0),
      Sorted-SourcesFirst (trigger_ids d.nodes) d.edges [] ns no_open s,
    )
  where
    no_open : (t : String) → includes (trigger_ids d.nodes) t ≡ true → open_edges [] t d.edges ≡ 0
    no_open t at = omega (
      arith,
      count-incoming_of t [] d.edges,
      ap (count_of t) (incoming_counts-incoming_of [] d.edges),
      trigger_issues-none (incoming_counts [] d.edges) (trigger_set [] d.nodes) t
          (valid-parts d valid).1 (trigger_set-includes [] d.nodes t (inr at)),
    )
