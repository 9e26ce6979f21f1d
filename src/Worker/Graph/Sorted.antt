-- ===== src/Worker/Graph/Sorted.antt =====
-- The order of `orderWorkflowNodes`: each node once, after the sources of all edges into it.
use vigil_summit_agent.Prelude.{
  ◌≤◌, ◌≢◌, or-second, ℕ, zero, suc, ◌+◌, String, true, false, Option, none, some, List, [], ◌∷◌,
  ◌++◌, ◌≡◌, refl, sym, ap, ◌∙◌, subst, get_or_else, includes, lookup, lookup-insert, StringMap,
  arith, eq_iff, eq_refl, ◌=ₛ◌, ◌==◌, ◌||◌, All, All-append, length, Bool-cases, ◌⊎◌, inl, inr,
}
use vigil_summit_agent.Contracts.Workflow.{Node, Edge, Definition}
use vigil_summit_agent.Worker.Graph.{
  outgoing_of, nodes_by_id, Sort, release, release_all, Drained, done, out_of_fuel, visit, drain,
  trigger_ids, start, ordered, unordered, no_fuel, check_length, order_workflow_nodes,
}
use vigil_summit_agent.Worker.Graph.Members.{
  Among, Known, seen_after, nodes_by_id-Known, lookup-Known, missing, missing-start, missing-visit,
  missing-none, Among-has_id,
}
use vigil_summit_agent.Worker.Graph.Keyed.{Keyed, nodes_by_id-Keyed, lookup-Keyed}
use vigil_summit_agent.Worker.Graph.Counts.{
  targets, count_of, occurrences, open_edges, open-visit, count-start, SourcesIn, open-SourcesIn,
  SourcesIn-more,
}
use vigil_summit_agent.Worker.Graph.Fuel.{release-visited}

release-ordered : (s : Sort) (t : String) → (release s t).ordered ≡ s.ordered
unfolding release
release-ordered s t = refl

done-injective : (s s' : Sort) → done s ≡ done s' → s ≡ s'
done-injective s s' h = cc h

out_of_fuel≢done : (s : Sort) → out_of_fuel ≢ done s
out_of_fuel≢done s h = cc h

ordered-injective : (ns ns' : List Node) → ordered ns ≡ ordered ns' → ns ≡ ns'
ordered-injective ns ns' h = cc h

no_fuel≢ordered : (ns : List Node) → no_fuel ≢ ordered ns
no_fuel≢ordered ns h = cc h

unordered≢ordered : (ns : List Node) → unordered ≢ ordered ns
unordered≢ordered ns h = cc h

-- The nodes come once each, and each is a trigger or has the sources of all its edges before it, in
-- `seen` or in the list.
abbrev pub Sorted : List String → List Edge → List String → List Node → Type 0
Sorted triggers es seen [] = Unit
Sorted triggers es seen (n ∷ ns) =
    (includes seen n.id ≡ false)
    × ((includes triggers n.id ≡ true) ⊎ SourcesIn seen n.id es)
    × Sorted triggers es (n.id ∷ seen) ns

seen_after-append :
    (seen : List String) (ns : List Node) (n : Node)
    → seen_after seen (ns ++ n ∷ []) ≡ n.id ∷ seen_after seen ns
seen_after-append seen [] n = refl
seen_after-append seen (x ∷ xs) n = seen_after-append (x.id ∷ seen) xs n

module _ (triggers : List String) (es : List Edge) (all_nodes : List Node) where
  Sorted-append :
      (seen : List String) (ns : List Node) (n : Node)
      → Sorted triggers es seen ns
      → includes (seen_after seen ns) n.id ≡ false
      → (includes triggers n.id ≡ true) ⊎ SourcesIn (seen_after seen ns) n.id es
      → Sorted triggers es seen (ns ++ n ∷ [])
  Sorted-append seen [] n s new ready = (new, ready, tt)
  Sorted-append seen (x ∷ xs) n (a, b, s) new ready =
      (a, b, Sorted-append (x.id ∷ seen) xs n s new ready)

  abbrev Ready : List String → String → Type 0
  Ready visited t = (includes triggers t ≡ true) ⊎ SourcesIn visited t es

  Ready-more : (visited : List String) (id t : String) → Ready visited t → Ready (id ∷ visited) t
  Ready-more visited id t (inl trigger) = inl trigger
  Ready-more visited id t (inr sources) = inr (SourcesIn-more visited id t es sources)

  All-more :
      (visited : List String) (id : String) (ts : List String)
      → All (Ready visited) ts
      → All (Ready (id ∷ visited)) ts
  All-more visited id [] a = tt
  All-more visited id (t ∷ ts) (r, a) = (Ready-more visited id t r, All-more visited id ts a)

  -- While the targets `rest` of the node at hand are to be released: a count is the number of open
  -- edges and of what is in `rest`, and what is in the queue is ready.
  record Counted (rest : List String) (s : Sort) : Type 0 where
    counts : (t : String) → count_of t s.counts ≡ open_edges s.visited t es + occurrences t rest
    queue : All (Ready s.visited) s.queue

  release-Counted :
      (s : Sort) (x : String) (rest : List String)
      → Counted (x ∷ rest) s
      → Counted rest (release s x)
  unfolding release
  release-Counted s x rest c = record {
    counts = λ t. rw lookup-insert (ground (arith, eq_iff x t, eq_refl x, c.counts t, c.counts x));
    queue = elim (Bool-cases (get_or_else (lookup x s.counts) 1 == 1)) [
      | inl last ↦ rw last (
          All-append (Ready s.visited) s.queue (x ∷ []) c.queue
            (inr (open-SourcesIn s.visited x es (ground (arith, eq_refl x, last, c.counts x))), tt))
      | inr more ↦ rw more c.queue
    ];
  }

  release_all-Counted :
      (s : Sort) (ts : List String)
      → Counted ts s
      → Counted [] (release_all s ts)
        × ((release_all s ts).visited ≡ s.visited)
        × ((release_all s ts).ordered ≡ s.ordered)
  unfolding release_all
  release_all-Counted s [] c = (c, refl, refl)
  release_all-Counted s (t ∷ ts) c =
      let (c', v, o) = release_all-Counted (release s t) ts (release-Counted s t ts c) in
      (c', v ∙ release-visited s t, o ∙ release-ordered s t)

  -- Between two rounds.
  record Good (s : Sort) : Type 0 where
    counted : Counted [] s
    sorted : Sorted triggers es [] s.ordered
    seen : seen_after [] s.ordered ≡ s.visited
    known : All (λ n. Among n all_nodes) s.ordered

  module _ (nodes : StringMap Node) (keyed : Keyed nodes) (known : Known all_nodes nodes) where
    found-Good :
        (s : Sort) (id : String) (node : Node)
        → lookup id nodes ≡ some node
        → includes s.visited id ≡ false
        → Ready s.visited id
        → Good s
        → Good (
            release_all
              (record s { visited = id ∷ s.visited; ordered = s.ordered ++ node ∷ [] })
              (targets id (outgoing_of [] es)))
    found-Good s id node found new ready g =
        let s' = record s { visited = id ∷ s.visited; ordered = s.ordered ++ node ∷ [] } in
        let same : node.id ≡ id = lookup-Keyed id node nodes keyed found in
        let ts = targets id (outgoing_of [] es) in
        let (c, v, o) = release_all-Counted s' ts (record {
          counts = λ t. omega (arith, g.counted.counts t, open-visit s.visited id t es new);
          queue = All-more s.visited id s.queue g.counted.queue;
        }) in
        record {
          counted = c;
          sorted = rw o (
              Sorted-append [] s.ordered node g.sorted (rw (g.seen, same) new)
                (rw (g.seen, same) ready));
          seen = rw (o, v) (seen_after-append [] s.ordered node ∙ (rw (same, g.seen) refl));
          known = rw o (
              All-append (λ n. Among n all_nodes) s.ordered (node ∷ []) g.known
                (lookup-Known all_nodes id node nodes known found, tt));
        }

    visit-Good :
        (s : Sort) (id : String)
        → Ready s.visited id
        → Good s
        → Good (visit nodes (outgoing_of [] es) s id)
    unfolding visit
    visit-Good s id ready g = elim (Bool-cases (id =ₛ "" || includes s.visited id)) [
      | inl skip ↦ rw skip g
      | inr go ↦ rw go (by_node (lookup id nodes) refl (or-second _ _ go))
    ]
      where
        by_node :
            (o : Option Node)
            → lookup id nodes ≡ o
            → includes s.visited id ≡ false
            → Good (elim o [
              | none ↦ s
              | some node ↦
                  release_all
                    (record s { visited = id ∷ s.visited; ordered = s.ordered ++ node ∷ [] })
                    (targets id (outgoing_of [] es))
            ])
        by_node none h new = g
        by_node (some node) h new = found-Good s id node h new ready g

    drain-Good :
        (fuel : ℕ) (s s' : Sort)
        → Good s
        → drain nodes (outgoing_of [] es) fuel s ≡ done s'
        → Good s'
    unfolding drain
    drain-Good zero s s' g h = by_queue s.queue h
      where
        by_queue :
            (q : List String)
            → elim q as (λ q'. Drained) [ [] ↦ done s | _ ∷ _ ↦ out_of_fuel ] ≡ done s'
            → Good s'
        by_queue [] h' = subst Good (done-injective s s' h') g
        by_queue (x ∷ xs) h' = absurd (out_of_fuel≢done s' h')
    drain-Good (suc fuel) s s' g h = by_queue s.queue refl (λ t. drain-Good fuel t s') h
      where
        by_queue :
            (q : List String)
            → s.queue ≡ q
            → ((t : Sort) → Good t → drain nodes (outgoing_of [] es) fuel t ≡ done s' → Good s')
            → elim q as (λ q'. Drained) [
              | [] ↦ done s
              | id ∷ rest ↦
                  drain nodes
                    (outgoing_of [] es)
                    fuel
                    (visit nodes (outgoing_of [] es) (record s { queue = rest }) id)
            ]
              ≡ done s'
            → Good s'
        by_queue [] at k h' = subst Good (done-injective s s' h') g
        by_queue (id ∷ rest) at k h' =
            let q : All (Ready s.visited) (id ∷ rest) =
              subst (All (Ready s.visited)) at g.counted.queue in
            k (visit nodes (outgoing_of [] es) (record s { queue = rest }) id)
              (visit-Good (record s { queue = rest }) id q.0
                (record {
                  counted = record { counts = g.counted.counts; queue = q.1 };
                  sorted = g.sorted;
                  seen = g.seen;
                  known = g.known;
                }))
              h'

Ready-triggers :
    (nodes : List Node) (ts all_ts : List String) (es : List Edge)
    → ((t : String) → includes ts t ≡ true → includes all_ts t ≡ true)
    → All (Ready all_ts es nodes []) ts
Ready-triggers nodes [] all_ts es h = tt
Ready-triggers nodes (t ∷ ts) all_ts es h = (
  inl (h t (ground (arith, eq_refl t))),
  Ready-triggers nodes ts all_ts es (λ x at. h x (ground (arith, at))),
)

check-ordered :
    (d : Definition) (r : Drained) (ns : List Node)
    → check_length d r ≡ ordered ns
    → (s : Sort) × (r ≡ done s) × (s.ordered ≡ ns) × (length ns ≡ length d.nodes)
unfolding check_length
check-ordered d out_of_fuel ns h = absurd (no_fuel≢ordered ns h)
check-ordered d (done s) ns h = elim (Bool-cases (length s.ordered == length d.nodes)) [
  | inl same ↦
      let p : s.ordered ≡ ns = ordered-injective s.ordered ns (rw same at h) in
      (s, refl, p, ap length (sym p) ∙ ground (arith, same))
  | inr other ↦ absurd (unordered≢ordered ns (rw other at h))
]

-- Each of the nodes is put in the place of one that is missing.
missing-after :
    (triggers : List String) (es : List Edge) (all_nodes : List Node) (seen : List String)
    (ns : List Node)
    → Sorted triggers es seen ns
    → All (λ n. Among n all_nodes) ns
    → missing (seen_after seen ns) all_nodes + length ns ≤ missing seen all_nodes
missing-after triggers es all_nodes seen [] s k = omega arith
missing-after triggers es all_nodes seen (n ∷ ns) (new, _, s) (a, k) = omega (
  arith,
  missing-after triggers es all_nodes (n.id ∷ seen) ns s k,
  missing-visit n.id seen all_nodes new (Among-has_id n all_nodes a),
)

-- Where `orderWorkflowNodes` returns, the nodes that it returns are nodes of the definition, as many as
-- the definition has; the id of each node of the definition is among theirs, and no two of them have the
-- same id; and each one is a trigger, or the source of every edge into it comes before it.
pub order_workflow_nodes-Sorted :
    (d : Definition) (ns : List Node)
    → order_workflow_nodes d ≡ ordered ns
    → (length ns ≡ length d.nodes)
      × All (λ (n : Node). Among n d.nodes) ns
      × All (λ (n : Node). includes (seen_after [] ns) n.id ≡ true) d.nodes
      × Sorted (trigger_ids d.nodes) d.edges [] ns
unfolding order_workflow_nodes start
order_workflow_nodes-Sorted d ns h =
    let (s, run, same, long) = check-ordered d _ ns h in
    let good =
      drain-Good (trigger_ids d.nodes) d.edges d.nodes (nodes_by_id [] d.nodes)
        (nodes_by_id-Keyed [] d.nodes tt) (nodes_by_id-Known d.nodes [] d.nodes (λ n a. a) tt)
        (length d.nodes + length d.edges) (start d) s
        (record {
          counted = record {
            counts = λ t. omega (arith, count-start t d.nodes d.edges);
            queue =
                Ready-triggers d.nodes (trigger_ids d.nodes) (trigger_ids d.nodes) d.edges
                  (λ t at. at);
          };
          sorted = tt;
          seen = refl;
          known = tt;
        })
        run in
    let sorted : Sorted (trigger_ids d.nodes) d.edges [] ns =
      subst (Sorted (trigger_ids d.nodes) d.edges []) same good.sorted in
    let known : All (λ (n : Node). Among n d.nodes) ns =
      subst (All (λ (n : Node). Among n d.nodes)) same good.known in
    (
      long,
      known,
      missing-none (seen_after [] ns) d.nodes (
          omega (
            arith,
            long,
            missing-start d.nodes,
            missing-after (trigger_ids d.nodes) d.edges d.nodes [] ns sorted known,
          )),
      sorted,
    )
