-- ===== src/Subgraph.antt =====
-- src/graph/topology/graph_subgraph_isomorphism.hh on directed graphs: the search for the copies of the
-- graph `sub` in the graph g. A vertex of g stands in `vlist` at some place, and its candidates are
-- such places; `vindex` gives the place of a vertex. A set is a list without repetitions, gone through
-- in its order; a vector that is used as a stack has its back first. The loops over the vertices of
-- `sub`, parallel in the source, write a row of the matrix each, and are run in order; an `int` holds
-- the vertices of `sub`.
pub mod Search
pub mod Check
pub mod Rows
pub mod Refine
pub mod Refined
pub mod Pruning
pub mod Complete
pub mod Mappings
pub mod Frames
pub mod Stack
pub mod Steps
pub mod Found
pub mod Labels
pub mod Isomorphism
pub mod Shuffle
pub mod GetMapping
pub mod EdgeFound
pub mod Transferred
use graph_tool.AdjList.{AdjList, Edge, in_edges, num_vertices, out_edges}
use graph_tool.Common.{
  Bool, List, Option, [], count, false, get_or, if◌then◌else◌, length, ltb, none, replicate, set,
  some, suc, sum_by, true, zero, ℕ, ◌&&◌, ◌+◌, ◌-◌, ◌==◌, ◌||◌, ◌∷◌,
}

abbrev pub Matrix : Type 0
Matrix = List (List ℕ)

abbrev pub Mapping : Type 0
Mapping = List (ℕ × ℕ)

abbrev pub candidates : Matrix → ℕ → List ℕ
candidates m k = get_or m k []

-- `set.find(x) != set.end()`
unfoldable pub member : ℕ → List ℕ → Bool
member x [] = false
member x (y ∷ ys) = x == y || member x ys

-- `set.erase(x)`
unfoldable pub erase : ℕ → List ℕ → List ℕ
erase x [] = []
erase x (y ∷ ys) = if x == y then erase x ys else y ∷ erase x ys

-- `set.insert(x)`
unfoldable pub insert : ℕ → List ℕ → List ℕ
unfolding member
insert x xs = if member x xs then xs else x ∷ xs

-- `get_vertex`: the end that is not the vertex the edges are listed at.
unfoldable pub get_vertex : Bool → Edge → ℕ
get_vertex is_out e = if is_out then e.target else e.source

-- `get_edge_iterator::edges`
unfoldable pub edges_at : Bool → ℕ → AdjList → List Edge
unfolding out_edges in_edges
edges_at is_out v g = if is_out then out_edges v g else in_edges v g

-- `M_temp`, `n_mod` and `abort`.
pub record Pass : Type 0 where
  pub temp : Matrix
  pub n_mod : ℕ
  pub aborted : Bool

-- The first rows of `M_temp` are those of the matrix.
unfoldable pub copy_rows : Matrix → ℕ → ℕ → Matrix → Matrix
copy_rows m zero k temp = temp
copy_rows m (suc n) k temp = copy_rows m n (suc k) (set temp k (candidates m k))

module _ (edge_labelling : Edge → Edge → Bool) (sub g : AdjList) (vlist vindex : List ℕ) where
  -- The inner loop of `do_check`, for the edge e1: `is_adjacent`.
  unfoldable pub find_adjacent : Bool → Matrix → Edge → List Edge → Bool
  unfolding get_vertex member
  find_adjacent is_out m e1 [] = false
  find_adjacent is_out m e1 (e2 ∷ es) =
      let rest = find_adjacent is_out m e1 es in
      let v1 = get_vertex is_out e1 in
      let v2 = get_vertex is_out e2 in
      if member (get_or vindex v2 0) (candidates m v1) && edge_labelling e1 e2 then true else rest

  -- The outer loop of `do_check`, where the edges of g are `edges2`: `valid`.
  unfoldable pub check_edges : Bool → Matrix → List Edge → List Edge → Bool
  unfolding find_adjacent
  check_edges is_out m edges2 [] = true
  check_edges is_out m edges2 (e1 ∷ es) =
      let rest = check_edges is_out m edges2 es in
      if find_adjacent is_out m e1 edges2 then rest else false

  unfoldable pub do_check : Bool → ℕ → ℕ → Matrix → Bool
  unfolding check_edges edges_at
  do_check is_out k l m = check_edges is_out m (edges_at is_out l g) (edges_at is_out k sub)

  unfoldable pub check_adjacency : ℕ → ℕ → Matrix → Bool
  unfolding do_check
  check_adjacency k l m = do_check true k l m && do_check false k l m

  -- The loop over the candidates of k in `refine_check`: `m_new`.
  unfoldable pub new_candidates : Matrix → List ℕ → ℕ → List ℕ → List ℕ
  unfolding check_adjacency member
  new_candidates m already_mapped k [] = []
  new_candidates m already_mapped k (l ∷ ls) =
      let rest = new_candidates m already_mapped k ls in
      if member l already_mapped
      then rest
      else if check_adjacency k (get_or vlist l 0) m
      then l ∷ rest
      else rest

  -- The body of the loop over k in `refine_check`.
  unfoldable pub refine_vertex : Matrix → List ℕ → ℕ → Pass → Pass
  unfolding new_candidates
  refine_vertex m already_mapped k p =
      if p.aborted
      then p
      else let m_new = new_candidates m already_mapped k (candidates m k) in
        if length m_new == 0 then record p { aborted = true } else record p {
          temp = set p.temp k m_new;
          n_mod = if ltb (length m_new) (length (candidates m k)) then p.n_mod + 1 else p.n_mod;
        }

  -- The loop over n vertices from k on.
  unfoldable pub refine_pass : Matrix → List ℕ → ℕ → ℕ → Pass → Pass
  unfolding refine_vertex
  refine_pass m already_mapped zero k p = p
  refine_pass m already_mapped (suc n) k p =
      refine_pass m already_mapped n (suc k) (refine_vertex m already_mapped k p)

  -- The loop while `n_mod` is above 0, and its result with the matrix.
  unfoldable pub refine_loop : ℕ → ℕ → List ℕ → Matrix → Matrix → Option (Bool × Matrix)
  unfolding refine_pass
  refine_loop zero count already_mapped m temp = none
  refine_loop (suc fuel) count already_mapped m temp =
      let p =
        refine_pass m already_mapped (num_vertices sub - count) count
          (record { temp = temp; n_mod = 0; aborted = false }) in
      elim p.aborted [
        | true ↦ some (false, m)
        | false ↦ elim (ltb 0 p.n_mod) [
          | true ↦ refine_loop fuel count already_mapped p.temp m
          | false ↦ some (true, p.temp)
        ]
      ]

  unfoldable pub refine_check : Matrix → ℕ → List ℕ → Option (Bool × Matrix)
  unfolding refine_loop copy_rows num_vertices
  refine_check m count already_mapped =
      refine_loop (suc (sum_by length m)) count already_mapped m
        (copy_rows m count 0 (replicate (num_vertices sub) []))
