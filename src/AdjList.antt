-- ===== src/AdjList.antt =====
-- src/graph/graph_adjacency.hh: the adjacency list that every graph is kept in, with its access
-- and its mutation functions. The clearing of vertices is in `AdjList/Clear`.
pub mod Rows
pub mod Valid
pub mod Linking
pub mod Adding
pub mod Building
pub mod Removal
pub mod Reindex
pub mod Iteration
pub mod Edges
pub mod Unique
pub mod OutEdges
pub mod InEdges
pub mod Lookup
pub mod Degrees
pub mod Columns
pub mod Clear
use graph_tool.Common.{
  List, Option, [], get_or, if◌then◌else◌, length, map, none, replicate, set, size_add, size_sub,
  some, suc, ℕ, ◌&&◌, ◌++◌, ◌+◌, ◌-◌, ◌==◌, ◌^◌, ◌∷◌,
}

-- `edge_list_t`: the other end of each edge, and the edge's index.
abbrev pub EdgeList : Type 0
EdgeList = List (ℕ × ℕ)

pub record AdjList : Type 0 where
  pub out_edges : List EdgeList
  pub in_edges : List EdgeList
  pub n_edges : ℕ
  pub last_idx : ℕ
  pub free_indexes : List ℕ

-- A reference to `edges[v]`, and the storing of a new list there.
abbrev pub row : List EdgeList → ℕ → EdgeList
row rows v = get_or rows v []

abbrev pub put_row : List EdgeList → ℕ → EdgeList → List EdgeList
put_row rows v es = set rows v es

-- `edge_descriptor`: source, target, index.
pub record Edge : Type 0 where
  pub source : ℕ
  pub target : ℕ
  pub idx : ℕ

-- The state of a default-constructed `adj_list`.
abbrev pub empty : AdjList
empty = record { out_edges = []; in_edges = []; n_edges = 0; last_idx = 0; free_indexes = [] }

unfoldable pub num_vertices : AdjList → ℕ
num_vertices g = length g.out_edges

unfoldable pub num_edges : AdjList → ℕ
num_edges g = g.n_edges

unfoldable pub out_degree : ℕ → AdjList → ℕ
out_degree v g = length (row g.out_edges v)

unfoldable pub in_degree : ℕ → AdjList → ℕ
in_degree v g = length (row g.in_edges v)

unfoldable pub degree : ℕ → AdjList → ℕ
unfolding in_degree out_degree
degree v g = in_degree v g + out_degree v g

-- `make_out_edge` and `make_in_edge`, over the lists that `out_edges` and `in_edges` return.
unfoldable pub make_out_edge : ℕ → ℕ × ℕ → Edge
make_out_edge src (t, i) = record { source = src; target = t; idx = i }

unfoldable pub make_in_edge : ℕ → ℕ × ℕ → Edge
make_in_edge tgt (s, i) = record { source = s; target = tgt; idx = i }

unfoldable pub out_edges : ℕ → AdjList → List Edge
unfolding make_out_edge
out_edges v g = map (make_out_edge v) (row g.out_edges v)

unfoldable pub in_edges : ℕ → AdjList → List Edge
unfolding make_in_edge
in_edges v g = map (make_in_edge v) (row g.in_edges v)

-- `null_vertex()`
abbrev pub null_vertex : ℕ
null_vertex = 2 ^ 64 - 1

unfoldable pub adjacent_vertices : ℕ → AdjList → List ℕ
adjacent_vertices v g = map (λ e. e.0) (row g.out_edges v)

-- The loop of `edge`, with the index of the first edge to `t`.
unfoldable pub find_target : ℕ → EdgeList → Option ℕ
find_target t [] = none
find_target t ((u, i) ∷ oes) = if u == t then some i else find_target t oes

-- The descriptor that is returned with `false` (three times `null_vertex`) is `none`.
unfoldable pub edge : ℕ → ℕ → AdjList → Option Edge
unfolding find_target
edge s t g = elim (find_target t (row g.out_edges s)) [
  | none ↦ none
  | some i ↦ some (record { source = s; target = t; idx = i })
]

unfoldable pub add_vertex : AdjList → AdjList × ℕ
add_vertex g = (
  record g { out_edges = g.out_edges ++ [] ∷ []; in_edges = g.in_edges ++ [] ∷ [] },
  length g.out_edges,
)

-- The index of a new edge: a freed one, else the next; the state without it.
unfoldable pub take_index : List ℕ → AdjList → ℕ × AdjList
take_index [] g = (g.last_idx, record g { last_idx = size_add g.last_idx 1 })
take_index (i ∷ free) g = (i, record g { free_indexes = free })

-- `_out_edges[s].push_back(t, idx)` and `_in_edges[t].push_back(s, idx)`
unfoldable pub link : ℕ → ℕ → ℕ → AdjList → AdjList
link s t i g = record g {
  out_edges = put_row g.out_edges s (row g.out_edges s ++ (t, i) ∷ []);
  in_edges = put_row g.in_edges t (row g.in_edges t ++ (s, i) ∷ []);
  n_edges = size_add g.n_edges 1;
}

unfoldable pub add_edge : ℕ → ℕ → AdjList → AdjList × Edge
unfolding take_index link
add_edge s t g =
    let (i, g') = take_index g.free_indexes g in
    (link s t i g', record { source = s; target = t; idx = i })

-- The loop that erases the first entry with this vertex and this index.
unfoldable pub erase_first : ℕ → ℕ → EdgeList → EdgeList
erase_first t i [] = []
erase_first t i ((u, j) ∷ es) = if t == u && i == j then es else (u, j) ∷ erase_first t i es

-- `remove_edge(e, g)`
unfoldable pub remove_edge : Edge → AdjList → AdjList
unfolding erase_first
remove_edge e g = record g {
  out_edges = put_row g.out_edges e.source (erase_first e.target e.idx (row g.out_edges e.source));
  in_edges = put_row g.in_edges e.target (erase_first e.source e.idx (row g.in_edges e.target));
  free_indexes = g.free_indexes ++ e.idx ∷ [];
  n_edges = size_sub g.n_edges 1;
}

-- What the renumbering of edges has built so far: `_in_edges` and `_last_idx`.
pub record Reindexed : Type 0 where
  pub incoming : List EdgeList
  pub next : ℕ

-- The inner loop of `reindex_edges` over the edges out of `i`: the row with its new indices.
unfoldable pub reindex_row : ℕ → EdgeList → Reindexed → EdgeList × Reindexed
reindex_row i [] r = ([], r)
reindex_row i ((v, _) ∷ es) r =
    let (es', r') = reindex_row i es (record {
      incoming = put_row r.incoming v (row r.incoming v ++ (i, r.next) ∷ []);
      next = size_add r.next 1;
    }) in
    ((v, r.next) ∷ es', r')

-- The outer loop, from vertex `i` on.
unfoldable pub reindex_rows : ℕ → List EdgeList → Reindexed → List EdgeList × Reindexed
unfolding reindex_row
reindex_rows i [] r = ([], r)
reindex_rows i (es ∷ rows) r =
    let (es', r') = reindex_row i es r in
    let (rows', r'') = reindex_rows (suc i) rows r' in (es' ∷ rows', r'')

unfoldable pub reindex_edges : AdjList → AdjList
unfolding reindex_rows
reindex_edges g =
    let (rows, r) =
      reindex_rows 0 g.out_edges
        (record { incoming = replicate (length g.out_edges) []; next = 0 }) in
    record g { out_edges = rows; in_edges = r.incoming; last_idx = r.next; free_indexes = [] }
