-- ===== src/Rewiring/Swap.antt =====
-- `swap_target` of src/graph/generation/graph_rewiring.hh: the graph, and the vector of edges in step
-- with it.
use graph_tool.AdjList.{Edge, in_degree, num_edges, num_vertices, out_degree, remove_edge}
use graph_tool.AdjList.Adding.{
  add_edge-IsValid, add_edge-degrees, add_edge-pairs, add_edge-reuses, add_edge-vertices,
  add_edge_lem, new_edge,
}
use graph_tool.AdjList.Edges.{occurrences}
use graph_tool.AdjList.Linking.{same_edge}
use graph_tool.AdjList.Removal.{
  multiplicity-remove_edge, remove_edge-IsValid, remove_edge-pairs, remove_edge-vertices,
  remove_edge_lem,
}
use graph_tool.AdjList.Rows.{same}
use graph_tool.AdjList.Valid.{IsValid, multiplicity, pair_count, same_pair, source_lt, target_lt}
use graph_tool.Common.{
  List, [], ap, arith, get_or-set, length, length-append, length-set, refl, set, size_mod, suc,
  zero, ℕ, ◌+◌, ◌<◌, ◌∷◌, ◌≡◌, ◌≢◌, ◌≤◌,
}
use graph_tool.Rewiring.{Rewired, edge_at, no_edge, replace_edge}

-- The vector holds every edge of the graph, as often as the graph has it; indices have room.
pub record IsTracked (r : Rewired) : Type 0 where
  pub valid : IsValid r.graph
  pub listed : (e : Edge) → occurrences e r.edges ≡ multiplicity e r.graph
  pub room : r.graph.last_idx + 1 < size_mod

-- A place of the vector accounts for an occurrence.
occurrences-one :
    (edges : List Edge) (i : ℕ) (f : Edge)
    → i < length edges
    → same_edge (edge_at edges i) f ≤ occurrences f edges
unfolding occurrences
occurrences-one [] i f h = absurd (omega arith)
occurrences-one (e ∷ es) zero f h = omega arith
occurrences-one (e ∷ es) (suc i) f h = omega (arith, occurrences-one es i f (omega arith))

occurrences-edge_at :
    (edges : List Edge) (i : ℕ) → i < length edges → 0 < occurrences (edge_at edges i) edges
unfolding occurrences
occurrences-edge_at [] i h = absurd (omega arith)
occurrences-edge_at (e ∷ es) zero h = ground arith
occurrences-edge_at (e ∷ es) (suc i) h = omega (arith, occurrences-edge_at es i (omega arith))

occurrences-set :
    (edges : List Edge) (i : ℕ) (e f : Edge)
    → i < length edges
    → occurrences f (set edges i e) + same_edge (edge_at edges i) f
      ≡ occurrences f edges + same_edge e f
unfolding occurrences
occurrences-set [] i e f h = absurd (omega arith)
occurrences-set (x ∷ xs) zero e f h = omega arith
occurrences-set (x ∷ xs) (suc i) e f h = omega (arith, occurrences-set xs i e f (omega arith))

-- Two places of the vector account for two occurrences.
pub occurrences-two :
    (edges : List Edge) (i j : ℕ) (f : Edge)
    → i < length edges
    → j < length edges
    → i ≢ j
    → same_edge (edge_at edges i) f + same_edge (edge_at edges j) f ≤ occurrences f edges
unfolding occurrences
occurrences-two [] i j f hi hj ne = absurd (omega arith)
occurrences-two (x ∷ xs) zero zero f hi hj ne = absurd (ne refl)
occurrences-two (x ∷ xs) zero (suc j) f hi hj ne =
    omega (arith, occurrences-one xs j f (omega arith))
occurrences-two (x ∷ xs) (suc i) zero f hi hj ne =
    omega (arith, occurrences-one xs i f (omega arith))
occurrences-two (x ∷ xs) (suc i) (suc j) f hi hj ne =
    omega (arith, occurrences-two xs i j f (omega arith) (omega arith) (omega arith))

-- What putting a new edge from s to t in place i of the vector does.
pub record Replaced (i s t : ℕ) (r r' : Rewired) : Type 0 where
  pub valid : IsValid r'.graph
  pub vertices : num_vertices r'.graph ≡ num_vertices r.graph
  pub number : r'.graph.n_edges ≡ r.graph.n_edges + 1
  pub last : r'.graph.last_idx ≡ r.graph.last_idx
  pub free : length r'.graph.free_indexes + 1 ≡ length r.graph.free_indexes
  pub size : length r'.edges ≡ length r.edges
  pub others : (j : ℕ) → i ≢ j → edge_at r'.edges j ≡ edge_at r.edges j
  pub balance :
      (x : Edge)
      → occurrences x r'.edges + same_edge (edge_at r.edges i) x + multiplicity x r.graph
        ≡ occurrences x r.edges + multiplicity x r'.graph
  pub outs : (u : ℕ) → out_degree u r'.graph ≡ out_degree u r.graph + same s u
  pub pairs : (a b : ℕ) → pair_count a b r'.graph ≡ pair_count a b r.graph + same_pair a b s t
  pub ins : (u : ℕ) → in_degree u r'.graph ≡ in_degree u r.graph + same t u

pub replace_edge-Replaced :
    (i s t : ℕ) (r : Rewired)
    → IsValid r.graph
    → s < num_vertices r.graph
    → t < num_vertices r.graph
    → r.graph.last_idx + 1 < size_mod
    → r.graph.n_edges + 1 < size_mod
    → 0 < length r.graph.free_indexes
    → i < length r.edges
    → Replaced i s t r (replace_edge i s t r)
unfolding replace_edge num_edges
replace_edge-Replaced i s t r v hs ht room_idx room free hi =
    let (fresh, at_s, at_t, n, mult) = add_edge_lem s t r.graph v hs ht room_idx room in
    let reuse = add_edge-reuses s t r.graph v hs ht room_idx room free in
    let degrees = add_edge-degrees s t r.graph v hs ht room_idx room in
    record {
      valid = add_edge-IsValid s t r.graph v hs ht room_idx room;
      vertices = add_edge-vertices s t r.graph v hs ht room_idx room;
      number = n;
      last = reuse.0;
      free = reuse.1;
      size = length-set r.edges i (new_edge s t r.graph);
      others = λ j ne. ground (arith, get_or-set r.edges i j (new_edge s t r.graph) no_edge hi);
      balance = λ x. omega (arith, mult x, occurrences-set r.edges i (new_edge s t r.graph) x hi);
      pairs = add_edge-pairs s t r.graph v hs ht room_idx room;
      outs = λ u. (degrees u).0;
      ins = λ u. (degrees u).1;
    }

-- An edge of the vector is one of the graph, and runs between its vertices.
pub edge_at-lt :
    (r : Rewired) (i : ℕ)
    → IsTracked r
    → i < length r.edges
    → (0 < multiplicity (edge_at r.edges i) r.graph)
      × ((edge_at r.edges i).source < num_vertices r.graph)
      × ((edge_at r.edges i).target < num_vertices r.graph)
unfolding num_vertices
edge_at-lt r i tr h =
    let e = edge_at r.edges i in
    let has : 0 < multiplicity e r.graph =
      omega (arith, tr.listed e, occurrences-edge_at r.edges i h) in
    (has, source_lt tr.valid e has, omega (arith, tr.valid.sizes, target_lt tr.valid e has))

-- A vector whose place i was given to an edge that the graph had instead is in step again.
pub erdos_step :
    (i s t : ℕ) (r : Rewired)
    → IsTracked r
    → i < length r.edges
    → s < num_vertices r.graph
    → t < num_vertices r.graph
    → let r' = replace_edge i s t (record r { graph = remove_edge (edge_at r.edges i) r.graph }) in
      IsTracked r'
      × (num_edges r'.graph ≡ num_edges r.graph)
      × (num_vertices r'.graph ≡ num_vertices r.graph)
      × (length r'.edges ≡ length r.edges)
      × ((a b : ℕ)
          → pair_count a b r'.graph
              + same_pair a b (edge_at r.edges i).source (edge_at r.edges i).target
            ≡ pair_count a b r.graph + same_pair a b s t)
unfolding num_edges
erdos_step i s t r tr hi hs ht =
    let e = edge_at r.edges i in
    let has = (edge_at-lt r i tr hi).0 in
    let g = remove_edge e r.graph in
    let (n, gone, free, other) = remove_edge_lem e r.graph tr.valid has in
    let nv = remove_edge-vertices e r.graph tr.valid has in
    let last : g.last_idx ≡ r.graph.last_idx = unfold remove_edge in refl in
    let free' = length-append r.graph.free_indexes (e.idx ∷ []) in
    let step =
      replace_edge-Replaced i s t (record r { graph = g })
        (remove_edge-IsValid e r.graph tr.valid has) (omega arith) (omega arith)
        (omega (arith, tr.room)) (omega (arith, tr.valid.bounded))
        (omega (arith, ap length free, free')) hi in
    (
      record {
        valid = step.valid;
        listed = λ x. ground (
          arith,
          step.balance x,
          tr.listed x,
          multiplicity-remove_edge e r.graph tr.valid has x,
          occurrences-one r.edges i x hi,
        );
        room = omega (arith, step.last, tr.room);
      },
      omega (arith, step.number),
      omega (arith, step.vertices),
      step.size,
      λ a b. omega (arith, step.pairs a b, remove_edge-pairs e r.graph tr.valid has a b),
    )
