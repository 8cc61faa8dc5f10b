-- ===== src/Matching.antt =====
-- src/graph/topology/graph_random_matching.cc: a random maximal matching of the directed graph, and
-- `random_permutation_iterator` of src/graph/graph_util.hh, by which it walks over the vertices. What
-- is drawn at random is an argument: `draw n` and `pick v n` are what `uniform_int(0, n)` returns.
pub mod Permutation
pub mod Search
pub mod Step
pub mod Correct
pub mod Maximal
pub mod Best
pub mod Chosen
use graph_tool.AdjList.{AdjList, Edge, num_vertices, out_edges}
use graph_tool.Common.{
  Bool, List, [], false, get_or, if◌then◌else◌, length, not, set, suc, zero, ℕ, ◌&&◌, ◌++◌, ◌==◌,
  ◌||◌, ◌∷◌,
}

-- `std::iter_swap(_i, _i + j)` on the values from `_i` to `_end`, the value at `_i` apart.
unfoldable pub iter_swap : ℕ → ℕ → List ℕ → ℕ × List ℕ
iter_swap zero x xs = (x, xs)
iter_swap (suc j) x xs = (get_or xs j x, set xs j x)

-- The values that the iterator passes, of n values from `_i` to `_end`.
unfoldable pub permutation : (ℕ → ℕ) → ℕ → List ℕ → List ℕ
unfolding iter_swap
permutation draw zero xs = []
permutation draw (suc n) [] = []
permutation draw (suc n) (x ∷ xs) =
    let (y, ys) = iter_swap (draw n) x xs in y ∷ permutation draw n ys

-- `vertices(g)`, of n vertices from v on.
unfoldable pub vertices : ℕ → ℕ → List ℕ
vertices v zero = []
vertices v (suc n) = v ∷ vertices (suc v) n

-- `matched`, by vertex, and `match`, by edge index.
pub record Matching : Type 0 where
  pub matched : ℕ → Bool
  pub match_map : ℕ → Bool

-- `map[k] = true`
unfoldable pub mark : ℕ → (ℕ → Bool) → ℕ → Bool
mark k f j = f j || k == j

-- The weights' type with `<`, `==`, and the bound that the search begins with: the largest value
-- where the weight is minimized, else the value of `numeric_limits::min()`.
module _ {W : Type 0} (lt : W → W → Bool) (eq : W → W → Bool) (bound : W) (minimize : Bool)
    (weight : ℕ → W) where
  -- `min_w` and `candidates`
  abbrev pub Candidates : Type 0
  Candidates = W × List Edge

  -- Whether the weight w replaces `min_w`.
  unfoldable pub improves : W → W → Bool
  improves w min_w = minimize && lt w min_w || not minimize && lt min_w w

  -- The body of the loop over the edges out of a vertex.
  unfoldable pub consider : (ℕ → Bool) → Edge → Candidates → Candidates
  unfolding improves
  consider matched e (min_w, candidates) =
      let w = weight e.idx in
      if matched e.target
      then (min_w, candidates)
      else if improves w min_w
      then (w, if eq w w then e ∷ [] else [])
      else (min_w, if eq w min_w then candidates ++ e ∷ [] else candidates)

  unfoldable pub search : (ℕ → Bool) → List Edge → Candidates → Candidates
  unfolding consider
  search matched [] c = c
  search matched (e ∷ es) c = search matched es (consider matched e c)

  -- The last part of the body of the main loop, for the candidates found.
  unfoldable pub choose : (ℕ → ℕ → ℕ) → ℕ → List Edge → Matching → Matching
  unfolding mark
  choose pick v [] m = m
  choose pick v (c ∷ cs) m =
      let e = get_or (c ∷ cs) (pick v (length cs)) c in
      record { matched = mark e.target (mark v m.matched); match_map = mark e.idx m.match_map }

  -- The body of the main loop, for the vertex v.
  unfoldable pub match_vertex : (ℕ → ℕ → ℕ) → AdjList → ℕ → Matching → Matching
  unfolding search choose
  match_vertex pick g v m =
      if m.matched v then m else choose pick v (search m.matched (out_edges v g) (bound, [])).1 m

  unfoldable pub match_vertices : (ℕ → ℕ → ℕ) → AdjList → List ℕ → Matching → Matching
  unfolding match_vertex
  match_vertices pick g [] m = m
  match_vertices pick g (v ∷ vs) m = match_vertices pick g vs (match_vertex pick g v m)

  -- `do_random_matching`, on the property map `match_map`: the map afterwards.
  unfoldable pub random_matching : (ℕ → ℕ) → (ℕ → ℕ → ℕ) → AdjList → (ℕ → Bool) → (ℕ → Bool)
  unfolding match_vertices permutation vertices
  random_matching draw pick g match_map =
      (match_vertices pick g (permutation draw (num_vertices g) (vertices 0 (num_vertices g)))
        (record { matched = λ _. false; match_map = match_map })).match_map
