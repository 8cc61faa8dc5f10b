-- ===== src/Tests/Graphs.antt =====
-- The graphs that the tests run on (src/graph/graph_adjacency.hh).
use graph_tool.AdjList.{AdjList, Edge, reindex_edges}
use graph_tool.AdjList.Reindex.{reindex_edges-IsValid}
use graph_tool.AdjList.Valid.{IsValid}
use graph_tool.Common.{[], arith, refl, size_add, ◌∷◌, ◌≡◌}

-- Three vertices; two parallel edges from 0 to 1, one from 1 to 2, and a self-loop at 2. The numbers
-- and the in-lists are filled in by `reindex_edges`.
abbrev pub unnumbered : AdjList
unnumbered = record {
  out_edges = ((1, 0) ∷ (1, 0) ∷ []) ∷ ((2, 0) ∷ []) ∷ ((2, 0) ∷ []) ∷ [];
  in_edges = [];
  n_edges = 4;
  last_idx = 0;
  free_indexes = [];
}

abbrev pub sample : AdjList
sample = record {
  out_edges = ((1, 0) ∷ (1, 1) ∷ []) ∷ ((2, 2) ∷ []) ∷ ((2, 3) ∷ []) ∷ [];
  in_edges = [] ∷ ((0, 0) ∷ (0, 1) ∷ []) ∷ ((1, 2) ∷ (2, 3) ∷ []) ∷ [];
  n_edges = 4;
  last_idx = 4;
  free_indexes = [];
}

pub reindex_edges-sample : reindex_edges unnumbered ≡ sample
unfolding reindex_edges size_add
reindex_edges-sample = refl

pub sample-IsValid : IsValid sample
sample-IsValid = rw reindex_edges-sample at (
    reindex_edges-IsValid unnumbered
      (((omega arith), ((omega arith), tt)), (((omega arith), tt), (((omega arith), tt), tt))) refl
      (omega arith))

-- The edge from 1 to 2.
abbrev pub middle : Edge
middle = record { source = 1; target = 2; idx = 2 }

-- One edge from 0 to 1, and one from 2 to 3.
abbrev pub two_edges : AdjList
two_edges = record {
  out_edges = ((1, 0) ∷ []) ∷ [] ∷ ((3, 1) ∷ []) ∷ [] ∷ [];
  in_edges = [] ∷ ((0, 0) ∷ []) ∷ [] ∷ ((2, 1) ∷ []) ∷ [];
  n_edges = 2;
  last_idx = 2;
  free_indexes = [];
}

pub reindex_edges-two_edges : reindex_edges two_edges ≡ two_edges
unfolding reindex_edges size_add
reindex_edges-two_edges = refl

pub two_edges-IsValid : IsValid two_edges
two_edges-IsValid = rw reindex_edges-two_edges at (
    reindex_edges-IsValid two_edges ((omega arith, tt), (tt, ((omega arith, tt), (tt, tt)))) refl
      (omega arith))

-- One edge, from 0 to 1.
abbrev pub one_edge : AdjList
one_edge = record {
  out_edges = ((1, 0) ∷ []) ∷ [] ∷ [];
  in_edges = [] ∷ ((0, 0) ∷ []) ∷ [];
  n_edges = 1;
  last_idx = 1;
  free_indexes = [];
}

pub reindex_edges-one_edge : reindex_edges one_edge ≡ one_edge
unfolding reindex_edges size_add
reindex_edges-one_edge = refl

pub one_edge-IsValid : IsValid one_edge
one_edge-IsValid =
    rw reindex_edges-one_edge at
      (reindex_edges-IsValid one_edge ((omega arith, tt), (tt, tt)) refl (omega arith))
