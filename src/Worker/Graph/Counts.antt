-- ===== src/Worker/Graph/Counts.antt =====
-- What the counts of `orderWorkflowNodes` stand for: the edges into a node whose source is not visited.
use vigil_summit_agent.Prelude.{
  ℕ, ◌+◌, String, true, false, not, ◌&&◌, List, [], ◌∷◌, ◌++◌, ◌≡◌, refl, if◌then◌else◌,
  get_or_else, includes, lookup, insert, lookup-insert, StringMap, arith, eq_iff, ◌=ₛ◌, All,
}
use vigil_summit_agent.Contracts.Workflow.{Node, Edge}
use vigil_summit_agent.Worker.Graph.{
  add_outgoing, add_incoming, outgoing_of, incoming_of, zero_counts,
}

abbrev pub targets : String → StringMap (List String) → List String
targets id m = get_or_else (lookup id m) []

abbrev pub count_of : String → StringMap ℕ → ℕ
count_of id m = get_or_else (lookup id m) 0

-- How often a text is in a list.
abbrev pub occurrences : String → List String → ℕ
occurrences t [] = 0
occurrences t (x ∷ xs) = (if x =ₛ t then 1 else 0) + occurrences t xs

-- The edges into `t` from nodes that are not visited.
abbrev pub open_edges : List String → String → List Edge → ℕ
open_edges visited t [] = 0
open_edges visited t (e ∷ es) =
    (if (e.target =ₛ t) && not (includes visited e.source) then 1 else 0) + open_edges visited t es

-- The edges from `id` to `t`.
abbrev between : String → String → List Edge → ℕ
between id t [] = 0
between id t (e ∷ es) = (if (e.source =ₛ id) && (e.target =ₛ t) then 1 else 0) + between id t es

occurrences-append :
    (t : String) (xs ys : List String)
    → occurrences t (xs ++ ys) ≡ occurrences t xs + occurrences t ys
occurrences-append t [] ys = omega arith
occurrences-append t (x ∷ xs) ys = ground (arith, occurrences-append t xs ys)

targets-add :
    (id t : String) (m : StringMap (List String)) (e : Edge)
    → occurrences t (targets id (add_outgoing m e))
      ≡ occurrences t (targets id m) + between id t (e ∷ [])
targets-add id t m e =
    rw lookup-insert
      (ground (arith, occurrences-append t (targets id m) (e.target ∷ []), eq_iff e.source id))

targets-outgoing_of :
    (id t : String) (m : StringMap (List String)) (es : List Edge)
    → occurrences t (targets id (outgoing_of m es)) ≡ occurrences t (targets id m) + between id t es
unfolding outgoing_of
targets-outgoing_of id t m [] = omega arith
targets-outgoing_of id t m (e ∷ es) =
    omega (arith, targets-outgoing_of id t (add_outgoing m e) es, targets-add id t m e)

open-between :
    (visited : List String) (id t : String) (es : List Edge)
    → includes visited id ≡ false
    → open_edges visited t es ≡ open_edges (id ∷ visited) t es + between id t es
open-between visited id t [] h = omega arith
open-between visited id t (e ∷ es) h =
    ground (arith, eq_iff e.source id, eq_iff id e.source, open-between visited id t es h)

-- A visit closes the edges out of the node.
pub open-visit :
    (visited : List String) (id t : String) (es : List Edge)
    → includes visited id ≡ false
    → open_edges visited t es
      ≡ open_edges (id ∷ visited) t es + occurrences t (targets id (outgoing_of [] es))
open-visit visited id t es h =
    omega (arith, open-between visited id t es h, targets-outgoing_of id t [] es)

count-add :
    (t : String) (m : StringMap ℕ) (e : Edge)
    → count_of t (add_incoming m e) ≡ count_of t m + (if e.target =ₛ t then 1 else 0)
count-add t m e = rw lookup-insert (ground (arith, eq_iff e.target t))

pub count-incoming_of :
    (t : String) (m : StringMap ℕ) (es : List Edge)
    → count_of t (incoming_of m es) ≡ count_of t m + open_edges [] t es
unfolding incoming_of
count-incoming_of t m [] = omega arith
count-incoming_of t m (e ∷ es) =
    ground (arith, count-incoming_of t (add_incoming m e) es, count-add t m e)

count-zero_counts :
    (t : String) (m : StringMap ℕ) (ns : List Node)
    → count_of t m ≡ 0
    → count_of t (zero_counts m ns) ≡ 0
unfolding zero_counts
count-zero_counts t m [] h = h
count-zero_counts t m (n ∷ ns) h =
    count-zero_counts t (insert n.id 0 m) ns (rw lookup-insert (ground (arith, h)))

pub count-start :
    (t : String) (ns : List Node) (es : List Edge)
    → count_of t (incoming_of (zero_counts [] ns) es) ≡ open_edges [] t es
count-start t ns es =
    omega (arith, count-incoming_of t (zero_counts [] ns) es, count-zero_counts t [] ns refl)

-- All edges into `t` come from visited nodes.
abbrev pub SourcesIn : List String → String → List Edge → Type 0
SourcesIn visited t es =
    All (λ (e : Edge). (e.target =ₛ t) ≡ true → includes visited e.source ≡ true) es

pub open-SourcesIn :
    (visited : List String) (t : String) (es : List Edge)
    → open_edges visited t es ≡ 0
    → SourcesIn visited t es
open-SourcesIn visited t [] h = tt
open-SourcesIn visited t (e ∷ es) h =
    (λ at. ground (arith, h, at), open-SourcesIn visited t es (omega (arith, h)))

pub SourcesIn-more :
    (visited : List String) (id t : String) (es : List Edge)
    → SourcesIn visited t es
    → SourcesIn (id ∷ visited) t es
SourcesIn-more visited id t [] h = tt
SourcesIn-more visited id t (e ∷ es) (p, ps) =
    (λ at. ground (arith, p at), SourcesIn-more visited id t es ps)
