-- ===== src/GraphInterface/Purge.antt =====
-- `PurgeEdges` of src/graph/graph_filtering.cc against the multiset of edges that a graph holds.
use graph_tool.AdjList.{AdjList, Edge, make_out_edge, num_vertices, out_edges, remove_edge, row}
use graph_tool.AdjList.Edges.{occurrences, occurrences-make_out_edge}
use graph_tool.AdjList.Removal.{multiplicity-remove_edge, remove_edge-IsValid}
use graph_tool.AdjList.Valid.{IsValid, lt-of_times, multiplicity}
use graph_tool.Common.{
  Bool, List, [], ap, arith, false, if◌then◌else◌, leb, length, ltb, map, suc, true, zero, ℕ, ◌&&◌,
  ◌+◌, ◌-◌, ◌<◌, ◌==◌, ◌∷◌, ◌≡◌, ◌≤◌,
}
use graph_tool.GraphInterface.{
  GraphInterface, deleted_edges, mask_filter, purge_edges, purge_edges_at, remove_all,
}
use mathlib.Core.List.{filter}
use native.Mathlib.Decide.{ℕ_discrete}

-- Removing a list of edges that the graph has takes each away as often as it stands in the list.
pub remove_all_lem :
    (es : List Edge) (g : AdjList)
    → IsValid g
    → ((e : Edge) → occurrences e es ≤ multiplicity e g)
    → IsValid (remove_all es g)
      × ((e : Edge) → multiplicity e (remove_all es g) ≡ multiplicity e g - occurrences e es)
unfolding remove_all occurrences
remove_all_lem [] g v h = (v, λ e. omega arith)
remove_all_lem (f ∷ es) g v h =
    let has : 0 < multiplicity f g = ground (arith, h f) in
    let left = multiplicity-remove_edge f g v has in
    let (w, rest) =
      remove_all_lem es (remove_edge f g) (remove_edge-IsValid f g v has)
        (λ e. omega (arith, h e, left e)) in
    (w, λ e. omega (arith, rest e, left e))

pub occurrences-deleted :
    (filter : ℕ → Bool) (e : Edge) (es : List Edge)
    → occurrences e (deleted_edges filter es) ≡ (if filter e.idx then 0 else occurrences e es)
unfolding deleted_edges occurrences
occurrences-deleted filter e [] = ground arith
occurrences-deleted filter e (f ∷ es) = elim (ℕ_discrete f.idx e.idx) [
  | yes same_idx ↦ ground (arith, occurrences-deleted filter e es, ap filter same_idx)
  | no other ↦ ground (arith, occurrences-deleted filter e es)
]

-- The masked edges out of v, as often as they are in the graph.
occurrences-masked :
    (filter : ℕ → Bool) (v : ℕ) (g : AdjList) (e : Edge)
    → occurrences e (deleted_edges filter (out_edges v g))
      ≡ (if filter e.idx then 0 else if v == e.source then multiplicity e g else 0)
unfolding out_edges
occurrences-masked filter v g e = ground (
  arith,
  occurrences-deleted filter e (map (make_out_edge v) (row g.out_edges v)),
  occurrences-make_out_edge e v (row g.out_edges v),
)

pub purge_edges_at_lem :
    (filter : ℕ → Bool) (m v : ℕ) (g : AdjList)
    → IsValid g
    → IsValid (purge_edges_at filter m v g)
      × ((e : Edge)
          → multiplicity e (purge_edges_at filter m v g) ≡ (
              if filter e.idx
              then multiplicity e g
              else if leb v e.source && ltb e.source (v + m)
              then 0
              else multiplicity e g))
unfolding purge_edges_at
purge_edges_at_lem filter zero v g w = (w, λ e. ground arith)
purge_edges_at_lem filter (suc m) v g w =
    let masked = occurrences-masked filter v g in
    let (w', gone) =
      remove_all_lem (deleted_edges filter (out_edges v g)) g w (λ e. ground (arith, masked e)) in
    let (w'', rest) =
      purge_edges_at_lem filter m (suc v) (remove_all (deleted_edges filter (out_edges v g)) g)
        w' in
    (w'', λ e. ground (arith, rest e, gone e, masked e))

purge_edges-mg :
    (gi : GraphInterface)
    → gi.edge_filter_active ≡ true
    → (purge_edges gi).mg
      ≡ purge_edges_at
          (mask_filter gi.edge_filter_map gi.edge_filter_invert)
          (length gi.mg.out_edges)
          0
          gi.mg
unfolding purge_edges num_vertices
purge_edges-mg gi active = rw active

-- With an active edge filter on a well-formed graph, `PurgeEdges` leaves a well-formed graph, which
-- has the edges that the filter lets through as often as before, and no other edge; the filter
-- stays active.
pub purge_edges_lem :
    (gi : GraphInterface)
    → IsValid gi.mg
    → gi.edge_filter_active ≡ true
    → IsValid (purge_edges gi).mg
      × ((e : Edge)
          → multiplicity e (purge_edges gi).mg ≡ (
              if mask_filter gi.edge_filter_map gi.edge_filter_invert e.idx
              then multiplicity e gi.mg
              else 0))
      × ((purge_edges gi).edge_filter_active ≡ true)
purge_edges_lem gi v active =
    let filter = mask_filter gi.edge_filter_map gi.edge_filter_invert in
    let (w, left) = purge_edges_at_lem filter (length gi.mg.out_edges) 0 gi.mg v in
    (
      rw (purge_edges-mg gi active) w,
      λ e. ground (
        arith,
        ap (multiplicity e) (purge_edges-mg gi active),
        left e,
        lt-of_times e.target e.idx e.source gi.mg.out_edges,
      ),
      unfold purge_edges in ground arith,
    )

-- With no active filter it does nothing.
pub purge_edges-inactive :
    (gi : GraphInterface) → gi.edge_filter_active ≡ false → purge_edges gi ≡ gi
unfolding purge_edges
purge_edges-inactive gi off = rw off
