-- ===== src/Subgraph/Search.antt =====
-- `find_mappings` and `subgraph_isomorphism` of src/graph/topology/graph_subgraph_isomorphism.hh: the
-- search through the matrices of candidates, with its stack.
use graph_tool.AdjList.{AdjList, Edge, num_vertices}
use graph_tool.Common.{
  Bool, List, Option, [], false, get_or, if◌then◌else◌, length, ltb, none, replicate, set, some,
  suc, true, zero, ℕ, ◌+◌, ◌-◌, ◌==◌, ◌||◌, ◌∷◌,
}
use graph_tool.Subgraph.{Mapping, Matrix, candidates, erase, insert, refine_check}

-- An entry of `Mstack`: the matrix, the vertex of `sub`, and the candidates that are left.
pub record Frame : Type 0 where
  pub matrix : Matrix
  pub vertex : ℕ
  pub left : List ℕ

-- `Mstack`, `already_mapped`, F and FF; the lists have their last element first.
pub record SearchState : Type 0 where
  pub stack : List Frame
  pub already_mapped : List ℕ
  pub mapping : Mapping
  pub found : List Mapping

-- `Mstack.pop_back()`, and the last pair of F goes too.
unfoldable pub pop_frame : List Frame → SearchState → SearchState
unfolding erase
pop_frame stack s = elim s.mapping [
  | [] ↦ record s { stack = stack }
  | (v, c) ∷ mapping ↦ record s {
    stack = stack;
    already_mapped = erase c s.already_mapped;
    mapping = mapping;
  }
]

-- The loop over the end leafs.
unfoldable pub visit_leafs : ℕ → Mapping → List ℕ → List Mapping → List Mapping
visit_leafs ni mapping [] found = found
visit_leafs ni mapping (c ∷ cs) found = visit_leafs ni mapping cs (((ni, c) ∷ mapping) ∷ found)

-- How many rounds of the main loop a frame with m candidates takes at most, where one of them takes b.
abbrev pub row_budget : ℕ → ℕ → ℕ
row_budget zero b = 1
row_budget (suc m) b = suc b + row_budget m b

-- That number where n candidates are left for each vertex, and k more vertices come.
abbrev pub budget : ℕ → ℕ → ℕ
budget n zero = 1
budget n (suc k) = row_budget n (budget n k)

module _ (edge_labelling : Edge → Edge → Bool) (sub g : AdjList) (vlist vindex : List ℕ) where
  -- After a refinement of the matrix that mapped i to c.
  unfoldable pub descend : ℕ → ℕ → Bool × Matrix → SearchState → SearchState
  unfolding visit_leafs erase num_vertices
  descend i c (false, m) s = record s { already_mapped = erase c s.already_mapped }
  descend i c (true, m) s =
      let ni = suc i in
      let mapping = (i, c) ∷ s.mapping in
      if ltb ni (num_vertices sub - 1)
      then record s {
        stack = (record { matrix = m; vertex = ni; left = candidates m ni }) ∷ s.stack;
        mapping = mapping;
      }
      else record s {
        already_mapped = erase c s.already_mapped;
        found = visit_leafs ni mapping (candidates m ni) s.found;
      }

  -- The body of the main loop, with the frame at the top and those below.
  unfoldable pub step : Frame → List Frame → SearchState → Option SearchState
  unfolding pop_frame descend refine_check insert
  step frame stack s = elim frame.left [
    | [] ↦ some (pop_frame stack s)
    | c ∷ left ↦
        let i = frame.vertex in
        let mapped = insert c s.already_mapped in
        let m_prime = set frame.matrix i (c ∷ []) in
        elim (refine_check edge_labelling sub g vlist vindex m_prime (suc i) mapped) [
          | none ↦ none
          | some r ↦ some (
              descend i c r (record s {
                stack = (record frame { left = left }) ∷ stack;
                already_mapped = mapped;
              }))
        ]
  ]

  -- The main loop.
  unfoldable pub search_loop : ℕ → ℕ → SearchState → Option SearchState
  unfolding step
  search_loop max_n zero s = none
  search_loop max_n (suc fuel) s = elim s.stack [
    | [] ↦ some s
    | frame ∷ stack ↦ elim (max_n == 0 || ltb (length s.found) max_n) [
      | false ↦ some s
      | true ↦ elim (step frame stack s) [ none ↦ none | some t ↦ search_loop max_n fuel t ]
    ]
  ]

  -- The search from the matrix of the candidates, and `FF`.
  unfoldable pub find_mappings : Matrix → ℕ → Option (List Mapping)
  unfolding search_loop num_vertices
  find_mappings m0 max_n =
      let start : SearchState = record {
        stack = (record { matrix = m0; vertex = 0; left = candidates m0 0 }) ∷ [];
        already_mapped = [];
        mapping = [];
        found = [];
      } in
      elim (search_loop max_n (suc (budget (num_vertices g) (num_vertices sub))) start) [
        | none ↦ none
        | some s ↦ some s.found
      ]

module _ (vertex_labelling : ℕ → ℕ → Bool) (vlist : List ℕ) where
  -- The loop over n places j, from j on: the candidates of i.
  unfoldable pub first_candidates : ℕ → ℕ → ℕ → List ℕ
  first_candidates i zero j = []
  first_candidates i (suc n) j =
      let rest = first_candidates i n (suc j) in
      if vertex_labelling i (get_or vlist j 0) then j ∷ rest else rest

  -- The loop over m vertices of `sub`, from i on: `M0`, or none where it aborts; n is the number of
  -- vertices of g.
  unfoldable pub first_matrix : ℕ → ℕ → ℕ → Option Matrix
  unfolding first_candidates
  first_matrix n zero i = some []
  first_matrix n (suc m) i =
      let row = first_candidates i n 0 in
      let rest = first_matrix n m (suc i) in
      if length row == 0 then none else elim rest [ none ↦ none | some rows ↦ some (row ∷ rows) ]

-- The loop that fills `vindex`, over n places from j on.
unfoldable pub fill_index : List ℕ → ℕ → ℕ → List ℕ → List ℕ
fill_index vlist zero j vindex = vindex
fill_index vlist (suc n) j vindex = fill_index vlist n (suc j) (set vindex (get_or vlist j 0) j)

unfoldable pub subgraph_isomorphism :
    AdjList → AdjList → (ℕ → ℕ → Bool) → (Edge → Edge → Bool) → List ℕ → ℕ → Option (List Mapping)
unfolding find_mappings first_matrix fill_index num_vertices
subgraph_isomorphism sub g vertex_labelling edge_labelling vlist max_n =
    let n = num_vertices g in
    let vindex = fill_index vlist n 0 (replicate n 0) in
    elim (first_matrix vertex_labelling vlist n (num_vertices sub) 0) [
      | none ↦ some []
      | some m0 ↦ find_mappings edge_labelling sub g vlist vindex m0 max_n
    ]
