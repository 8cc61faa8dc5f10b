-- ===== src/AdjList/Building.antt =====
-- Sequences of `add_vertex` and `add_edge` of src/graph/graph_adjacency.hh, as the code that builds a
-- graph makes them.
-- How many of the listed pairs are (a, b).
use graph_tool.AdjList.{
  AdjList, Edge, EdgeList, add_edge, add_vertex, make_out_edge, num_edges, num_vertices, row,
  take_index,
}
use graph_tool.AdjList.Adding.{
  add_edge-IsValid, add_edge-pairs, add_edge-vertices, add_edge_lem, add_vertex-IsValid, added,
}
use graph_tool.AdjList.Edges.{occurrences}
use graph_tool.AdjList.Iteration.{all_edges, edges_from}
use graph_tool.AdjList.Reindex.{ends}
use graph_tool.AdjList.Rows.{vertex_times, vertex_times-nil}
use graph_tool.AdjList.Valid.{IsValid, multiplicity, pair_count, row-nil, same_pair}
use graph_tool.Common.{
  Bool-cases, List, [], ap, arith, get_or-append_default, if◌then◌else◌, inl, inr, leb, length, ltb,
  map, refl, size_add, size_mod, subst, suc, sym, zero, ℕ, ◌&&◌, ◌++◌, ◌+◌, ◌<◌, ◌==◌, ◌∙◌, ◌∷◌,
  ◌≡◌, ◌≤◌,
}

abbrev pub pairs : ℕ → ℕ → List (ℕ × ℕ) → ℕ
pairs a b [] = 0
pairs a b ((s, t) ∷ ps) = same_pair a b s t + pairs a b ps

-- Both numbers of every pair are below n.
abbrev pub AllEnds : ℕ → List (ℕ × ℕ) → Type 0
AllEnds n [] = Unit {0}
AllEnds n ((s, t) ∷ ps) = (s < n) × ((t < n) × AllEnds n ps)

abbrev pub add_edges : List (ℕ × ℕ) → AdjList → AdjList
add_edges [] g = g
add_edges ((s, t) ∷ ps) g = add_edges ps (added s t g)

abbrev pub add_vertices : ℕ → AdjList → AdjList
add_vertices zero g = g
add_vertices (suc m) g = add_vertices m (add_vertex g).0

-- h is g with edges for the listed pairs.
pub record Grown (g : AdjList) (ps : List (ℕ × ℕ)) (h : AdjList) : Type 0 where
  pub valid : IsValid h
  pub vertices : num_vertices h ≡ num_vertices g
  pub last : h.last_idx ≤ g.last_idx + length ps
  pub number : h.n_edges ≡ g.n_edges + length ps
  pub counts : (a b : ℕ) → pair_count a b h ≡ pair_count a b g + pairs a b ps
  pub more : (e : Edge) → multiplicity e g ≤ multiplicity e h

pub add_edge-last : (s t : ℕ) (g : AdjList) → (added s t g).last_idx ≤ g.last_idx + 1
unfolding add_edge
add_edge-last s t g = by_free g.free_indexes
  where
    by_free : (free : List ℕ) → (take_index free g).1.last_idx ≤ g.last_idx + 1
    by_free [] = unfold take_index size_add in omega arith
    by_free (i ∷ free) = unfold take_index in omega arith

pub add_edges-Grown :
    (ps : List (ℕ × ℕ)) (g : AdjList)
    → IsValid g
    → AllEnds (num_vertices g) ps
    → g.last_idx + length ps < size_mod
    → g.n_edges + length ps < size_mod
    → Grown g ps (add_edges ps g)
unfolding num_edges
add_edges-Grown [] g v all room_idx room = record {
  valid = v;
  vertices = refl;
  last = omega arith;
  number = omega arith;
  counts = λ a b. omega arith;
  more = λ e. omega arith;
}
add_edges-Grown ((s, t) ∷ ps) g v all room_idx room =
    let ri : g.last_idx + 1 < size_mod = omega (arith, room_idx) in
    let rn : g.n_edges + 1 < size_mod = omega (arith, room) in
    let (_, _, _, number, more) = add_edge_lem s t g v all.0 all.1.0 ri rn in
    let one_more : (added s t g).n_edges ≡ g.n_edges + 1 = number in
    let vertices = add_edge-vertices s t g v all.0 all.1.0 ri rn in
    let last = add_edge-last s t g in
    let rest =
      add_edges-Grown ps (added s t g) (add_edge-IsValid s t g v all.0 all.1.0 ri rn)
        (subst (λ n. AllEnds n ps) (sym vertices) all.1.1) (omega (arith, last, room_idx))
        (omega (arith, one_more, room)) in
    record {
      valid = rest.valid;
      vertices = rest.vertices ∙ vertices;
      last = omega (arith, rest.last, last);
      number = omega (arith, rest.number, one_more);
      counts =
          λ a b. omega (arith, rest.counts a b, add_edge-pairs s t g v all.0 all.1.0 ri rn a b);
      more = λ e. omega (arith, rest.more e, more e);
    }

-- New vertices have no edges.
pub add_vertices_lem :
    (m : ℕ) (g : AdjList)
    → IsValid g
    → IsValid (add_vertices m g)
      × (num_vertices (add_vertices m g) ≡ num_vertices g + m)
      × ((add_vertices m g).last_idx ≡ g.last_idx)
      × ((add_vertices m g).n_edges ≡ g.n_edges)
      × ((a b : ℕ) → pair_count a b (add_vertices m g) ≡ pair_count a b g)
add_vertices_lem zero g v = (v, omega arith, refl, refl, λ a b. refl)
add_vertices_lem (suc m) g v =
    let (w, _, one_more, _) = add_vertex-IsValid g v in
    let (rest, number, last, n, counts) = add_vertices_lem m (add_vertex g).0 w in
    (
      rest,
      omega (arith, number, one_more),
      last ∙ unfold add_vertex in refl,
      n ∙ unfold add_vertex in refl,
      λ a b. counts a b ∙ add_vertex-pairs a b,
    )
  where
    add_vertex-pairs : (a b : ℕ) → pair_count a b (add_vertex g).0 ≡ pair_count a b g
    add_vertex-pairs a b =
        unfold add_vertex in ap (vertex_times b) (get_or-append_default g.out_edges a [])

pub add_vertices-free : (m : ℕ) (g : AdjList) → (add_vertices m g).free_indexes ≡ g.free_indexes
unfolding add_vertex
add_vertices-free zero g = refl
add_vertices-free (suc m) g = add_vertices-free m (add_vertex g).0

-- The pairs of ends of the edges in a list, renamed by f.
abbrev pub renamed : (ℕ → ℕ) → List Edge → List (ℕ × ℕ)
renamed f [] = []
renamed f (e ∷ es) = (f e.source, f e.target) ∷ renamed f es

pairs-row :
    (a b k : ℕ) (es : EdgeList) (more : List Edge)
    → pairs a b (renamed (λ v. v) (map (make_out_edge k) es ++ more))
      ≡ (if k == a then vertex_times b es else 0) + pairs a b (renamed (λ v. v) more)
unfolding make_out_edge vertex_times
pairs-row a b k [] more = ground arith
pairs-row a b k ((t, i) ∷ es) more = ground (arith, pairs-row a b k es more)

pairs-edges_from :
    (a b : ℕ) (rows : List EdgeList) (m k : ℕ)
    → pairs a b (renamed (λ v. v) (edges_from m k rows))
      ≡ (if leb k a && ltb a (k + m) then vertex_times b (row rows a) else 0)
unfolding edges_from
pairs-edges_from a b rows zero k = ground arith
pairs-edges_from a b rows (suc m) k = ground (
  arith,
  pairs-row a b k (row rows k) (edges_from m (suc k) rows),
  pairs-edges_from a b rows m (suc k),
)

-- The listed edges of a graph lead from a to b as often as there are such edges.
pub pairs-all_edges :
    (a b : ℕ) (g : AdjList) → pairs a b (renamed (λ v. v) (all_edges g)) ≡ pair_count a b g
unfolding all_edges
pairs-all_edges a b g =
    ground (arith, pairs-edges_from a b g.out_edges (length g.out_edges) 0, beyond)
  where
    beyond : (if ltb a (length g.out_edges) then 0 else vertex_times b (row g.out_edges a)) ≡ 0
    beyond = elim (Bool-cases (ltb a (length g.out_edges))) [
      | inl inside ↦ ground (arith, inside)
      | inr out ↦ ground (
        arith,
        out,
        ap (vertex_times b) (row-nil g.out_edges a (ground (arith, out))),
        vertex_times-nil b,
      )
    ]

pub length-renamed : (f : ℕ → ℕ) (es : List Edge) → length (renamed f es) ≡ length es
length-renamed f [] = refl
length-renamed f (e ∷ es) = ap suc (length-renamed f es)

-- Renamed ends are below k where the ends are below n.
pub renamed-AllEnds :
    (n k : ℕ) (f : ℕ → ℕ) (es : List Edge)
    → ((v : ℕ) → v < n → f v < k)
    → ((e : Edge) → 0 < occurrences e es → (e.source < n) × (e.target < n))
    → AllEnds k (renamed f es)
unfolding occurrences
renamed-AllEnds n k f [] below ends = tt
renamed-AllEnds n k f (e ∷ es) below ends =
    let (in_s, in_t) = ends e (ground arith) in
    (
      below e.source in_s,
      (below e.target in_t, renamed-AllEnds n k f es below (λ x h. ends x (omega (arith, h)))),
    )
