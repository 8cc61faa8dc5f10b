-- ===== src/AdjList/Iteration.antt =====
-- `edge_iterator` and `edges` of src/graph/graph_adjacency.hh, and the loop from the first iterator of
-- the range to the last.
pub mod Walk
use mathlib.Core.Option
use graph_tool.AdjList.{AdjList, Edge, EdgeList, make_out_edge, row}
use graph_tool.Common.{
  Bool, List, Option, [], false, get_or, if◌then◌else◌, length, map, none, not, some, suc, true,
  zero, ℕ, ◌&&◌, ◌++◌, ◌-◌, ◌==◌, ◌∷◌,
}

-- `_vi`, counted from `_vi_begin`; and `_ei`, as the vertex whose list it points into and the place
-- in that list. `_vi_begin` and `_vi_end` are the ends of the table, an argument below.
pub record EdgeIterator : Type 0 where
  pub vi : ℕ
  pub list : ℕ
  pub pos : ℕ

-- `_ei == _vi->end()`
unfoldable pub at_end : List EdgeList → EdgeIterator → Bool
at_end rows it = it.list == it.vi && it.pos == length (row rows it.vi)

-- The body of the loop in `skip`.
unfoldable pub next_row : List EdgeList → EdgeIterator → EdgeIterator
next_row rows it =
    if not (suc it.vi == length rows)
    then record { vi = suc it.vi; list = suc it.vi; pos = 0 }
    else record it { vi = suc it.vi }

-- `skip`, on fuel.
unfoldable pub skip : ℕ → List EdgeList → EdgeIterator → EdgeIterator
unfolding at_end next_row
skip zero rows it = it
skip (suc fuel) rows it = elim (not (it.vi == length rows) && at_end rows it) [
  | true ↦ skip fuel rows (next_row rows it)
  | false ↦ it
]

-- `skip` moves on by a vertex each round, so the number of vertices bounds its rounds.
unfoldable pub skip_empty : List EdgeList → EdgeIterator → EdgeIterator
unfolding skip
skip_empty rows it = skip (length rows) rows it

unfoldable pub increment : List EdgeList → EdgeIterator → EdgeIterator
unfolding skip_empty
increment rows it = skip_empty rows (record it { pos = suc it.pos })

unfoldable pub equal : List EdgeList → EdgeIterator → EdgeIterator → Bool
equal rows a b =
    if length rows == 0 then a.vi == b.vi else a.vi == b.vi && (a.list == b.list && a.pos == b.pos)

unfoldable pub dereference : List EdgeList → EdgeIterator → Edge
unfolding make_out_edge
dereference rows it = make_out_edge it.vi (get_or (row rows it.list) it.pos (0, 0))

-- Both iterators of `edges(g)`; for an empty table `_ei` is default-constructed.
unfoldable pub edges_begin : List EdgeList → EdgeIterator
unfolding skip_empty
edges_begin rows = skip_empty rows (record { vi = 0; list = 0; pos = 0 })

unfoldable pub edges_end : List EdgeList → EdgeIterator
unfolding skip_empty
edges_end rows = skip_empty rows (record {
  vi = length rows - 1;
  list = length rows - 1;
  pos = length (row rows (length rows - 1));
})

-- `for (; e != e_end; ++e)`, with the edges that the body sees; `none` if the fuel runs out.
unfoldable pub visited : ℕ → List EdgeList → EdgeIterator → EdgeIterator → Option (List Edge)
visited zero rows e e_end = none
visited (suc fuel) rows e e_end = elim (equal rows e e_end) [
  | true ↦ some []
  | false ↦ Option.map (◌∷◌ (dereference rows e)) (visited fuel rows (increment rows e) e_end)
]

-- The edges out of each vertex in turn, of m vertices from k on.
unfoldable pub edges_from : ℕ → ℕ → List EdgeList → List Edge
unfolding make_out_edge
edges_from zero k rows = []
edges_from (suc m) k rows = map (make_out_edge k) (row rows k) ++ edges_from m (suc k) rows

-- Those of the whole graph.
unfoldable pub all_edges : AdjList → List Edge
unfolding edges_from
all_edges g = edges_from (length g.out_edges) 0 g.out_edges
