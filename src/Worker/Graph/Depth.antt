-- ===== src/Worker/Graph/Depth.antt =====
-- The calls of `visit` in `validateAcyclicGraph` come to their end: the texts on the stack differ, and
-- all but the last one have edges.
use vigil_summit_agent.Prelude.{
  get_or_else, ◌++◌, ℕ, zero, suc, ◌+◌, ◌≤◌, ◌<◌, String, false, Option, none, some, List, [], ◌∷◌,
  ◌≡◌, ◌≢◌, refl, sym, ap, ◌∙◌, includes, length, lookup, insert, arith, ◌=ₛ◌, eq_iff, eq_refl,
  if◌then◌else◌, Bool-cases, inl, inr, map,
}
use vigil_summit_agent.Contracts.Workflow.{Edge, Definition}
use vigil_summit_agent.Contracts.Definition.{
  targets, remove, Marks, Dfs, finished, cycle, dfs_fuel, and_then, visit_all, visit, search_cycles,
  outgoing_edges,
}
use vigil_summit_agent.Worker.Graph.{add_outgoing, outgoing_of}
use vigil_summit_agent.Worker.Graph.Fuel.{Outgoing}
use vigil_summit_agent.Worker.Graph.Reach.{outgoing_edges-outgoing_of}

-- The sources that are not on the stack.
abbrev free : List String → Outgoing → ℕ
free visiting [] = 0
free visiting (entry ∷ m) = (if includes visiting entry.0 then 0 else 1) + free visiting m

free-less :
    (k : String) (visiting : List String) (m : Outgoing) → free (k ∷ visiting) m ≤ free visiting m
free-less k visiting [] = omega arith
free-less k visiting (entry ∷ m) = ground (arith, free-less k visiting m)

free-push :
    (k : String) (visiting ts : List String) (m : Outgoing)
    → lookup k m ≡ some ts
    → includes visiting k ≡ false
    → free (k ∷ visiting) m < free visiting m
free-push k visiting ts [] h new = cc h
free-push k visiting ts (entry ∷ m) h new = elim (Bool-cases (entry.0 =ₛ k)) [
  | inl same ↦ ground (arith, free-less k visiting m, eq_iff entry.0 k, eq_iff k entry.0, same, new)
  | inr other ↦ ground (
    arith,
    eq_iff entry.0 k,
    eq_iff k entry.0,
    other,
    free-push k visiting ts m (rw other at h) new,
  )
]

remove-absent : (k : String) (xs : List String) → includes xs k ≡ false → remove xs k ≡ xs
remove-absent k [] h = refl
remove-absent k (x ∷ xs) h = ground (arith, remove-absent k xs, h)

remove-head : (k : String) (xs : List String) → includes xs k ≡ false → remove (k ∷ xs) k ≡ xs
remove-head k xs h = rw eq_refl (remove-absent k xs h)

-- Not out of fuel, and the stack is as before.
abbrev Sound : List String → Dfs → Type 0
Sound visiting (finished t) = t.visiting ≡ visiting
Sound visiting cycle = Unit
Sound visiting dfs_fuel = ⊥

and_then-Sound :
    (visiting visiting' : List String) (r : Dfs) (f : Marks → Dfs)
    → Sound visiting r
    → ((t : Marks) → t.visiting ≡ visiting → Sound visiting' (f t))
    → Sound visiting' (and_then r f)
and_then-Sound visiting visiting' (finished t) f h k = k t h
and_then-Sound visiting visiting' cycle f h k = tt
and_then-Sound visiting visiting' dfs_fuel f h k = absurd h

visit_all-Sound :
    (v : String → Marks → Dfs) (visiting : List String) (ks : List String) (s : Marks)
    → ((k : String) (t : Marks) → t.visiting ≡ visiting → Sound visiting (v k t))
    → s.visiting ≡ visiting
    → Sound visiting (visit_all v ks s)
unfolding visit_all
visit_all-Sound v visiting [] s h same = same
visit_all-Sound v visiting (k ∷ ks) s h same =
    and_then-Sound visiting visiting (v k s) (visit_all v ks) (h k s same)
      (λ t at. visit_all-Sound v visiting ks t h at)

-- The loop over the targets, one level deeper.
deeper-Sound :
    (m : Outgoing) (v : String → Marks → Dfs) (fuel : ℕ) (k : String) (s : Marks)
    (visiting : List String)
    → s.visiting ≡ k ∷ visiting
    → includes visiting k ≡ false
    → free visiting m < suc fuel
    → ((k' : String) (t : Marks)
        → t.visiting ≡ k ∷ visiting
        → free (k ∷ visiting) m < fuel
        → Sound (k ∷ visiting) (v k' t))
    → Sound (k ∷ visiting) (visit_all v (targets m k) s)
unfolding visit_all
deeper-Sound m v fuel k s visiting same new h rec = by_targets (lookup k m) refl
  where
    by_targets :
        (o : Option (List String))
        → lookup k m ≡ o
        → Sound (k ∷ visiting) (visit_all v (get_or_else o []) s)
    by_targets none at = same
    by_targets (some ts) at =
        visit_all-Sound v (k ∷ visiting) ts s
          (λ k' t there. rec k' t there (omega (arith, h, free-push k visiting ts m at new))) same

visit-Sound :
    (m : Outgoing) (fuel : ℕ) (k : String) (s : Marks) (visiting : List String)
    → s.visiting ≡ visiting
    → free visiting m < fuel
    → Sound visiting (visit m fuel k s)
unfolding visit
visit-Sound m zero k s visiting same h = absurd (omega (arith, h))
visit-Sound m (suc fuel) k s visiting same h = elim (Bool-cases (includes s.visiting k)) [
  | inl again ↦ rw again tt
  | inr new ↦ rw new (elim (Bool-cases (includes s.visited k)) [
    | inl known ↦ rw known same
    | inr unknown ↦ rw unknown (
        let off : includes visiting k ≡ false = ap (λ v. includes v k) (sym same) ∙ new in
        and_then-Sound (k ∷ visiting) visiting _ _
          (deeper-Sound m (visit m fuel) fuel k (record s { visiting = k ∷ s.visiting }) visiting
            (ap (λ v. k ∷ v) same) off h
            (λ k' t at low. visit-Sound m fuel k' t (k ∷ visiting) at low))
          (λ t at. ap (λ v. remove v k) at ∙ remove-head k visiting off))
  ])
]

free-insert :
    (k : String) (ts : List String) (m : Outgoing) → free [] (insert k ts m) ≤ free [] m + 1
free-insert k ts [] = omega arith
free-insert k ts (entry ∷ m) = ground (arith, free-insert k ts m)

free-outgoing_of :
    (m : Outgoing) (es : List Edge) → free [] (outgoing_of m es) ≤ free [] m + length es
unfolding outgoing_of
free-outgoing_of m [] = omega arith
free-outgoing_of m (e ∷ es) = omega (
  arith,
  free-outgoing_of (add_outgoing m e) es,
  free-insert e.source (targets m e.source ++ e.target ∷ []) m,
)

not_fuel : (visiting : List String) (r : Dfs) → Sound visiting r → r ≢ dfs_fuel
not_fuel visiting (finished t) h e = cc e
not_fuel visiting cycle h e = cc e
not_fuel visiting dfs_fuel h e = h

-- For every definition, valid or not, the recursion of `validateAcyclicGraph` comes to its end: its calls
-- are never deeper than the number of edges and two.
pub search_cycles-terminates : (d : Definition) → search_cycles d ≢ dfs_fuel
unfolding search_cycles
search_cycles-terminates d =
    let m = outgoing_edges [] d.edges in
    let low : free [] m < length d.edges + 2 =
      omega (
        arith,
        free-outgoing_of [] d.edges,
        ap (free []) (outgoing_edges-outgoing_of [] d.edges),
      ) in
    not_fuel [] _ (
      visit_all-Sound (visit m (length d.edges + 2)) [] (map (λ n. n.id) d.nodes)
        (record { visiting = []; visited = [] })
        (λ k t at. visit-Sound m (length d.edges + 2) k t [] at low) refl)
