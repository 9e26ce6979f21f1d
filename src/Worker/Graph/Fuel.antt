-- ===== src/Worker/Graph/Fuel.antt =====
-- The loop of `orderWorkflowNodes` ends: what is in the queue and the edges out of the nodes that are
-- not visited yet go down in each round.
use vigil_summit_agent.Prelude.{
  or-second, ℕ, zero, suc, ◌+◌, ◌≤◌, String, false, Option, none, some, List, [], ◌∷◌, ◌++◌, ◌≡◌,
  ◌≢◌, refl, if◌then◌else◌, includes, length, length-append, lookup, insert, StringMap, arith,
  eq_iff, ◌=ₛ◌, Bool-cases, inl, inr, ◌||◌, ◌==◌, ap, ◌∙◌,
}
use vigil_summit_agent.Contracts.Workflow.{Node, Edge, Definition}
use vigil_summit_agent.Worker.Graph.{
  add_outgoing, outgoing_of, Sort, release, release_all, Drained, done, out_of_fuel, visit, drain,
  trigger_ids, start, no_fuel, check_length, order_workflow_nodes, nodes_by_id,
}
use vigil_summit_agent.Worker.Graph.Counts.{targets}

abbrev pub Outgoing : Type 0
Outgoing = StringMap (List String)

-- The edges out of nodes that are not visited.
abbrev pub pending : List String → Outgoing → ℕ
pending visited [] = 0
pending visited (entry ∷ m) =
    (if includes visited entry.0 then 0 else length entry.1) + pending visited m

pending-less :
    (id : String) (visited : List String) (m : Outgoing)
    → pending (id ∷ visited) m ≤ pending visited m
pending-less id visited [] = omega arith
pending-less id visited (entry ∷ m) = ground (arith, pending-less id visited m)

pub pending-visit :
    (id : String) (visited : List String) (m : Outgoing)
    → includes visited id ≡ false
    → pending (id ∷ visited) m + length (targets id m) ≤ pending visited m
pending-visit id visited [] h = omega arith
pending-visit id visited (entry ∷ m) h = ground (
  arith,
  eq_iff entry.0 id,
  eq_iff id entry.0,
  pending-less id visited m,
  pending-visit id visited m h,
)

pending-insert :
    (id : String) (ts : List String) (m : Outgoing)
    → pending [] (insert id ts m) + length (targets id m) ≡ pending [] m + length ts
pending-insert id ts [] = omega arith
pending-insert id ts (entry ∷ m) = ground (arith, pending-insert id ts m)

pub pending-outgoing_of :
    (m : Outgoing) (es : List Edge) → pending [] (outgoing_of m es) ≡ pending [] m + length es
unfolding outgoing_of
pending-outgoing_of m [] = omega arith
pending-outgoing_of m (e ∷ es) = omega (
  arith,
  pending-outgoing_of (add_outgoing m e) es,
  pending-insert e.source (targets e.source m ++ e.target ∷ []) m,
  length-append (targets e.source m) (e.target ∷ []),
)

release-queue : (s : Sort) (t : String) → length (release s t).queue ≤ length s.queue + 1
unfolding release
release-queue s t = ground (arith, length-append s.queue (t ∷ []))

pub release-visited : (s : Sort) (t : String) → (release s t).visited ≡ s.visited
unfolding release
release-visited s t = refl

release_all-queue :
    (s : Sort) (ts : List String)
    → (length (release_all s ts).queue ≤ length s.queue + length ts)
      × ((release_all s ts).visited ≡ s.visited)
unfolding release_all
release_all-queue s [] = (omega arith, refl)
release_all-queue s (t ∷ ts) =
    let (p, q) = release_all-queue (release s t) ts in
    (omega (arith, p, release-queue s t), q ∙ release-visited s t)

-- What is left to do: the entries of the queue, and those that may still come.
abbrev work : Outgoing → Sort → ℕ
work m s = length s.queue + pending s.visited m

module _ (nodes : StringMap Node) (m : Outgoing) where
  found-work :
      (s : Sort) (id : String) (o : Option Node)
      → includes s.visited id ≡ false
      → work m (elim o [
        | none ↦ s
        | some node ↦
            release_all
              (record s { visited = id ∷ s.visited; ordered = s.ordered ++ node ∷ [] })
              (targets id m)
      ])
        ≤ work m s
  found-work s id none h = omega arith
  found-work s id (some node) h =
      let s' = record s { visited = id ∷ s.visited; ordered = s.ordered ++ node ∷ [] } in
      let (p, q) = release_all-queue s' (targets id m) in
      rw q (omega (arith, p, pending-visit id s.visited m h))

  visit-work : (s : Sort) (id : String) → work m (visit nodes m s id) ≤ work m s
  unfolding visit
  visit-work s id = elim (Bool-cases (id =ₛ "" || includes s.visited id)) [
    | inl skip ↦ rw skip (omega arith)
    | inr go ↦ rw go (found-work s id (lookup id nodes) (or-second _ _ go))
  ]

  drain-done :
      (fuel : ℕ) (s : Sort) → work m s ≤ fuel → (s' : Sort) × (drain nodes m fuel s ≡ done s')
  unfolding drain
  drain-done zero s h = by_queue s.queue (omega (arith, h))
    where
      by_queue :
          (q : List String)
          → length q ≤ 0
          → (s' : Sort) × (elim q [ [] ↦ done s | _ ∷ _ ↦ out_of_fuel ] ≡ done s')
      by_queue [] h' = (s, refl)
      by_queue (x ∷ xs) h' = absurd (omega (arith, h'))
  drain-done (suc fuel) s h = by_queue s.queue refl (λ s' b. drain-done fuel s' b)
    where
      by_queue :
          (q : List String)
          → s.queue ≡ q
          → ((s' : Sort) → work m s' ≤ fuel → (s'' : Sort) × (drain nodes m fuel s' ≡ done s''))
          → (s'' : Sort) × (elim q [
            | [] ↦ done s
            | id ∷ rest ↦ drain nodes m fuel (visit nodes m (record s { queue = rest }) id)
          ]
              ≡ done s'')
      by_queue [] at k = (s, refl)
      by_queue (id ∷ rest) at k =
          k (visit nodes m (record s { queue = rest }) id)
            (omega (arith, visit-work (record s { queue = rest }) id, h, ap length at))

trigger_ids-le : (ns : List Node) → length (trigger_ids ns) ≤ length ns
unfolding trigger_ids
trigger_ids-le [] = omega arith
trigger_ids-le (n ∷ ns) = ground (arith, trigger_ids-le ns)

check-fuel : (d : Definition) (r : Drained) (s : Sort) → r ≡ done s → check_length d r ≢ no_fuel
unfolding check_length
check-fuel d r s h e = elim (Bool-cases (length s.ordered == length d.nodes)) [
  | inl same ↦ ground (arith, h, e, same)
  | inr other ↦ ground (arith, h, e, other)
]

-- For every definition, valid or not, the loop of `orderWorkflowNodes` comes to its end: the number of
-- nodes and edges bounds its rounds, also where edges form a cycle or name nodes that are not there.
pub order_workflow_nodes-terminates : (d : Definition) → order_workflow_nodes d ≢ no_fuel
unfolding order_workflow_nodes start
order_workflow_nodes-terminates d =
    let (s, h) =
      drain-done (nodes_by_id [] d.nodes) (outgoing_of [] d.edges) (length d.nodes + length d.edges)
        (start d) (omega (arith, trigger_ids-le d.nodes, pending-outgoing_of [] d.edges)) in
    check-fuel d _ s h
