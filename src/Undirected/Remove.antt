-- ===== src/Undirected/Remove.antt =====
-- `remove_out_edge_if` of src/graph/graph_adaptor.hh, at a vertex without self-loops: the list of
-- edges at a vertex has a self-loop twice.
use graph_tool.AdjList.{
  AdjList, Edge, EdgeList, in_edges, make_in_edge, make_out_edge, out_edges, remove_edge, row,
}
use graph_tool.AdjList.Edges.{occurrences}
use graph_tool.AdjList.Linking.{same_edge}
use graph_tool.AdjList.Rows.{times, times-le-vertex_times}
use graph_tool.AdjList.Valid.{IsValid, multiplicity, pair_count}
use graph_tool.Common.{
  Bool, List, [], ap, arith, false, if◌then◌else◌, map, refl, true, ℕ, ◌&&◌, ◌++◌, ◌+◌, ◌-◌, ◌==◌,
  ◌||◌, ◌∷◌, ◌≡◌,
}
use graph_tool.GraphInterface.{remove_all}
use graph_tool.GraphInterface.Purge.{remove_all_lem}
use graph_tool.Undirected.{
  EdgeDescriptor, make_undirected_edge, matching_edges, remove_each, remove_out_edge_if,
  undirected_out_edges,
}
use native.Mathlib.Decide.{dec_lt}

-- The underlying edges of a list.
abbrev originals : List EdgeDescriptor → List Edge
originals es = map (λ e. e.original) es

remove_each-remove_all :
    (es : List EdgeDescriptor) (g : AdjList) → remove_each es g ≡ remove_all (originals es) g
unfolding remove_each remove_all
remove_each-remove_all [] g = refl
remove_each-remove_all (e ∷ es) g = remove_each-remove_all es (remove_edge e.original g)

-- How often an edge is listed where the predicate holds.
chosen : (EdgeDescriptor → Bool) → Edge → List EdgeDescriptor → ℕ
chosen predicate e [] = 0
chosen predicate e (f ∷ es) =
    (if predicate f then same_edge f.original e else 0) + chosen predicate e es

occurrences-matching :
    (predicate : EdgeDescriptor → Bool) (e : Edge) (es removed : List EdgeDescriptor)
    → occurrences e (originals (matching_edges predicate es removed))
      ≡ chosen predicate e es + occurrences e (originals removed)
unfolding matching_edges chosen occurrences
occurrences-matching predicate e [] removed = omega arith
occurrences-matching predicate e (f ∷ es) removed =
    ground
      (arith, occurrences-matching predicate e es (if predicate f then f ∷ removed else removed))

chosen-append :
    (predicate : EdgeDescriptor → Bool) (e : Edge) (es fs : List EdgeDescriptor)
    → chosen predicate e (es ++ fs) ≡ chosen predicate e es + chosen predicate e fs
unfolding chosen
chosen-append predicate e [] fs = omega arith
chosen-append predicate e (f ∷ es) fs = omega (arith, chosen-append predicate e es fs)

-- The edge as it is seen from its source, and from its target.
abbrev pub forward : Edge → EdgeDescriptor
forward e = record { original = e; inverted = false }

abbrev pub backward : Edge → EdgeDescriptor
backward e = record { original = e; inverted = true }

Edge-eq : (e f : Edge) → e.source ≡ f.source → e.target ≡ f.target → e.idx ≡ f.idx → e ≡ f
Edge-eq e f p q r = ground arith

chosen-out :
    (predicate : EdgeDescriptor → Bool) (e : Edge) (v : ℕ) (es : EdgeList)
    → chosen predicate e (map (make_undirected_edge false) (map (make_out_edge v) es))
      ≡ (if predicate (forward e) && v == e.source then times e.target e.idx es else 0)
unfolding chosen make_undirected_edge make_out_edge times
chosen-out predicate e v [] = ground arith
chosen-out predicate e v ((t, i) ∷ es) = elim (dec_lt 0 (same_edge f e)) [
  | yes hit ↦ ground (
    arith,
    chosen-out predicate e v es,
    ap (λ x. predicate (forward x)) (Edge-eq f e (ground arith) (ground arith) (ground arith)),
  )
  | no miss ↦ ground (arith, chosen-out predicate e v es)
]
  where
    f : Edge
    f = record { source = v; target = t; idx = i }

chosen-in :
    (predicate : EdgeDescriptor → Bool) (e : Edge) (v : ℕ) (es : EdgeList)
    → chosen predicate e (map (make_undirected_edge true) (map (make_in_edge v) es))
      ≡ (if predicate (backward e) && v == e.target then times e.source e.idx es else 0)
unfolding chosen make_undirected_edge make_in_edge times
chosen-in predicate e v [] = ground arith
chosen-in predicate e v ((s, i) ∷ es) = elim (dec_lt 0 (same_edge f e)) [
  | yes hit ↦ ground (
    arith,
    chosen-in predicate e v es,
    ap (λ x. predicate (backward x)) (Edge-eq f e (ground arith) (ground arith) (ground arith)),
  )
  | no miss ↦ ground (arith, chosen-in predicate e v es)
]
  where
    f : Edge
    f = record { source = s; target = v; idx = i }

-- At a vertex of a well-formed graph without self-loops there, exactly the edges at v that pass the
-- predicate, as they are seen from v, are removed, and the graph stays well formed.
pub remove_out_edge_if_lem :
    (v : ℕ) (predicate : EdgeDescriptor → Bool) (g : AdjList)
    → IsValid g
    → pair_count v v g ≡ 0
    → IsValid (remove_out_edge_if v predicate g)
      × ((e : Edge)
          → multiplicity e (remove_out_edge_if v predicate g) ≡ (
              if predicate (forward e) && v == e.source || predicate (backward e) && v == e.target
              then 0
              else multiplicity e g))
unfolding remove_out_edge_if undirected_out_edges out_edges in_edges occurrences
remove_out_edge_if_lem v predicate g w no_loop =
    rw (remove_each-remove_all picked g)
      (removed.0, λ e. ground (arith, removed.1 e, listed e, loop e))
  where
    picked : List EdgeDescriptor
    picked = matching_edges predicate (undirected_out_edges v g) []

    loop : (e : Edge) → v ≡ e.source → v ≡ e.target → multiplicity e g ≡ 0
    loop e p q = omega (
      arith,
      times-le-vertex_times e.target e.idx (row g.out_edges e.source),
      ap (λ n. pair_count n e.target g) p,
      ap (λ n. pair_count v n g) q,
    )

    listed :
        (e : Edge)
        → occurrences e (originals picked)
          ≡ (if predicate (forward e) && v == e.source then multiplicity e g else 0)
            + (if predicate (backward e) && v == e.target then multiplicity e g else 0)
    listed e = ground (
      arith,
      occurrences-matching predicate e (undirected_out_edges v g) [],
      chosen-append predicate e (map (make_undirected_edge false) (out_edges v g))
          (map (make_undirected_edge true) (in_edges v g)),
      chosen-out predicate e v (row g.out_edges v),
      chosen-in predicate e v (row g.in_edges v),
      w.mirror e.source e.target e.idx,
    )

    removed :
        IsValid (remove_all (originals picked) g)
        × ((e : Edge)
            → multiplicity e (remove_all (originals picked) g)
              ≡ multiplicity e g - occurrences e (originals picked))
    removed = remove_all_lem (originals picked) g w (λ e. ground (arith, listed e, loop e))
