-- ===== src/AdjList/Valid.antt =====
-- The representation invariant of `adj_list` (src/graph/graph_adjacency.hh): both lists of each edge
-- agree, the edges are counted, and every index below `_last_idx` is either in use or free.
use graph_tool.AdjList.{AdjList, Edge, EdgeList, empty, put_row, row}
use graph_tool.AdjList.Rows.{
  index_times, index_times-nil, times, times-le-index_times, times-le-length, vertex_times,
}
use graph_tool.Common.{
  List, [], arith, count, get_or-le-sum_by, get_or-set, if◌then◌else◌, length, ltb, refl, size_mod,
  suc, sum_by, zero, ℕ, ◌&&◌, ◌+◌, ◌<◌, ◌==◌, ◌∷◌, ◌≡◌, ◌≤◌,
}

-- How often an index is in use or free.
abbrev pub uses : ℕ → AdjList → ℕ
uses i g = sum_by (index_times i) g.out_edges + count i g.free_indexes

pub record IsValid (g : AdjList) : Type 0 where
  pub sizes : length g.out_edges ≡ length g.in_edges
  pub mirror : (s t i : ℕ) → times t i (row g.out_edges s) ≡ times s i (row g.in_edges t)
  pub counted : g.n_edges ≡ sum_by length g.out_edges
  pub bounded : g.n_edges < size_mod
  pub indexed : (i : ℕ) → uses i g ≡ (if ltb i g.last_idx then 1 else 0)

-- How often the graph has an edge.
abbrev pub multiplicity : Edge → AdjList → ℕ
multiplicity e g = times e.target e.idx (row g.out_edges e.source)

pub empty-IsValid : IsValid empty
unfolding times
empty-IsValid = record {
  sizes = refl;
  mirror = λ s t i. refl;
  counted = refl;
  bounded = omega arith;
  indexed = λ i. ground arith;
}

pub row-put_row :
    (rows : List EdgeList) (v u : ℕ) (es : EdgeList)
    → v < length rows
    → row (put_row rows v es) u ≡ (if v == u then es else row rows u)
row-put_row rows v u es h = get_or-set rows v u es [] h

-- Reading past the end of the table gives the empty list.
pub row-nil : (rows : List EdgeList) (v : ℕ) → length rows ≤ v → row rows v ≡ []
row-nil [] v h = refl
row-nil (es ∷ rows) zero h = absurd (omega arith)
row-nil (es ∷ rows) (suc v) h = row-nil rows v (omega arith)

pub lt-of_times : (t i v : ℕ) (rows : List EdgeList) → 0 < times t i (row rows v) → v < length rows
unfolding times
lt-of_times t i v [] h = absurd (omega arith)
lt-of_times t i zero (es ∷ rows) h = omega arith
lt-of_times t i (suc v) (es ∷ rows) h = omega (arith, lt-of_times t i v rows h)

-- An index in a row is counted in the whole table.
pub index_times-row-le :
    (i v : ℕ) (rows : List EdgeList) → index_times i (row rows v) ≤ sum_by (index_times i) rows
index_times-row-le i v rows = get_or-le-sum_by (index_times i) rows v [] (index_times-nil i)

module _ {g : AdjList} (valid : IsValid g) where
  open valid use {sizes, mirror, counted, bounded, indexed}

  -- An edge of the graph runs between two vertices of the graph.
  pub source_lt : (e : Edge) → 0 < multiplicity e g → e.source < length g.out_edges
  source_lt e h = lt-of_times e.target e.idx e.source g.out_edges h

  pub target_lt : (e : Edge) → 0 < multiplicity e g → e.target < length g.in_edges
  target_lt e h =
      lt-of_times e.source e.idx e.target g.in_edges (omega (arith, mirror e.source e.target e.idx))

  -- No two edges share an index, and no edge's index is free.
  pub multiplicity-le-one : (e : Edge) → multiplicity e g + count e.idx g.free_indexes ≤ 1
  multiplicity-le-one e = ground (
    arith,
    indexed e.idx,
    times-le-index_times e.target e.idx (row g.out_edges e.source),
    index_times-row-le e.idx e.source g.out_edges,
  )

  -- The index of an edge is below `_last_idx`.
  pub idx_lt : (e : Edge) → 0 < multiplicity e g → e.idx < g.last_idx
  idx_lt e h = ground (
    arith,
    indexed e.idx,
    times-le-index_times e.target e.idx (row g.out_edges e.source),
    index_times-row-le e.idx e.source g.out_edges,
  )

  -- A graph with an edge has a positive number of edges.
  pub n_edges_pos : (e : Edge) → 0 < multiplicity e g → 0 < g.n_edges
  n_edges_pos e h = omega (
    arith,
    times-le-length e.target e.idx (row g.out_edges e.source),
    get_or-le-sum_by length g.out_edges e.source [] refl,
  )

-- How many edges lead from a to b.
abbrev pub pair_count : ℕ → ℕ → AdjList → ℕ
pair_count a b g = vertex_times b (row g.out_edges a)

-- 1 at equal pairs.
abbrev pub same_pair : ℕ → ℕ → ℕ → ℕ → ℕ
same_pair a b s t = if a == s && b == t then 1 else 0
