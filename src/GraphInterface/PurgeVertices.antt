-- ===== src/GraphInterface/PurgeVertices.antt =====
-- `PurgeVertices` of src/graph/graph_filtering.cc.
use graph_tool.AdjList.{AdjList, EdgeList, num_vertices, row}
use graph_tool.AdjList.Clear.{remove_vertex}
use graph_tool.Common.{
  Bool, List, Option, [], false, get_or, int_rounds_down, length, ltb, none, not, some, store, suc,
  true, zero, ℕ, ◌&&◌, ◌++◌, ◌-◌, ◌∷◌,
}
use graph_tool.GraphInterface.{GraphInterface, mask_filter}
use mathlib.Core.List.{filter}

-- `deleted[i] = !filter(vertex(i, *_mg))`, over n vertices from i on.
unfoldable pub deleted_flags : (ℕ → Bool) → ℕ → ℕ → List Bool
deleted_flags filter i zero = []
deleted_flags filter i (suc n) = not (filter i) ∷ deleted_flags filter (suc i) n

-- Whether the places of the in-lists that `clear_vertex` goes to are among the n there are.
unfoldable pub targets_within : ℕ → EdgeList → Bool
targets_within n [] = true
targets_within n ((t, _) ∷ es) = ltb t n && targets_within n es

-- One round of the loop that removes vertices, with `old_indexes`: none where `clear_vertex` reads
-- `_in_edges` out of bounds, as a target that an earlier removal has left behind can make it do.
unfoldable pub visit_deleted : List Bool → ℕ → AdjList × List ℕ → Option (AdjList × List ℕ)
unfolding targets_within
visit_deleted deleted i (g, old_indexes) = elim (get_or deleted i false) [
  | false ↦ some (g, old_indexes ++ i ∷ [])
  | true ↦ elim (targets_within (length g.in_edges) (row g.out_edges i)) [
    | true ↦ some (remove_vertex i g, old_indexes)
    | false ↦ none
  ]
]

-- The loop, from the vertex below m down.
unfoldable pub remove_deleted : List Bool → ℕ → AdjList × List ℕ → Option (AdjList × List ℕ)
unfolding visit_deleted
remove_deleted deleted zero s = some s
remove_deleted deleted (suc i) s = elim (visit_deleted deleted i s) [
  | none ↦ none
  | some t ↦ remove_deleted deleted i t
]

-- The loop that writes `old_index`, from the place below m down; n is the size of `old_indexes`.
unfoldable pub write_old : List ℕ → ℕ → ℕ → (ℕ → ℕ) → ℕ → ℕ
unfolding store
write_old old_indexes n zero old_index = old_index
write_old old_indexes n (suc i) old_index =
    write_old old_indexes n i (store (n - 1 - i) (get_or old_indexes i 0) old_index)

-- Under an active vertex filter: the interface afterwards and the map `old_index`, or none where a
-- read is out of bounds.
unfoldable pub purge_masked : (ℕ → ℕ) → GraphInterface → Option (GraphInterface × (ℕ → ℕ))
unfolding deleted_flags remove_deleted write_old mask_filter int_rounds_down
purge_masked old_index gi =
    let n = num_vertices gi.mg in
    let filter = mask_filter gi.vertex_filter_map gi.vertex_filter_invert in
    elim (remove_deleted (deleted_flags filter 0 n) (int_rounds_down n) (gi.mg, [])) [
      | none ↦ none
      | some (g, old_indexes) ↦ some (
        record gi { mg = g },
        write_old old_indexes (length old_indexes) (int_rounds_down (length old_indexes)) old_index,
      )
    ]

unfoldable pub purge_vertices : (ℕ → ℕ) → GraphInterface → Option (GraphInterface × (ℕ → ℕ))
unfolding purge_masked
purge_vertices old_index gi = elim gi.vertex_filter_active [
  | false ↦ some (gi, old_index)
  | true ↦ purge_masked old_index gi
]
