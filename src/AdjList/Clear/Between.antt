-- ===== src/AdjList/Clear/Between.antt =====
-- `remove_edge(s, t, g)` of src/graph/graph_adjacency.hh, for a single edge from s to t and for
-- parallel edges that stand side by side.
use graph_tool.AdjList.{AdjList, Edge, EdgeList, num_vertices, row}
use graph_tool.AdjList.Clear.{freed, kept, remove_edges_between}
use graph_tool.AdjList.Clear.Passes.{
  index_times-kept-freed, length-kept-freed, times-kept_other, vertex_times-kept,
}
use graph_tool.AdjList.Rows.{
  index_times, times, times-le-vertex_times, vertex_times, vertex_times-eq,
}
use graph_tool.AdjList.Valid.{IsValid, multiplicity, pair_count, row-put_row, uses}
use graph_tool.Common.{
  [], arith, count-append, false, get_or-le-sum_by, if◌then◌else◌, length, length-set, ltb, refl,
  size_mod, size_sub_lem, sum_by, sum_by-set, ℕ, ◌&&◌, ◌<◌, ◌==◌, ◌∙◌, ◌∷◌, ◌≡◌, ◌≤◌,
}

-- Every entry has the vertex t.
abbrev pub AllTo : ℕ → EdgeList → Type 0
AllTo t [] = Unit {0}
AllTo t ((u, _) ∷ es) = (u ≡ t) × AllTo t es

-- The second entry, the fourth, and so on.
abbrev pub every_other : EdgeList → EdgeList
every_other [] = []
every_other (x ∷ []) = []
every_other (x ∷ y ∷ es) = y ∷ every_other es

-- Of entries that all match, a pass erases every other one, beginning with the first.
kept-AllTo : (t : ℕ) (es : EdgeList) → AllTo t es → kept false t es ≡ every_other es
unfolding kept
kept-AllTo t [] h = refl
kept-AllTo t ((u, j) ∷ []) h = ground (arith, h)
kept-AllTo t ((u, j) ∷ (w, k) ∷ es) (here, (next, rest)) =
    ground (arith, here, next, kept-AllTo t es rest)

-- In a well-formed graph where all edges out of s are parallel edges to a vertex t, that is, with no
-- other edge out of s among them: `remove_edge(s, t, g)` leaves the second of them, the fourth, and so
-- on, as they are.
pub remove_edges_between-parallel :
    (s t : ℕ) (g : AdjList)
    → IsValid g
    → s < num_vertices g
    → t < num_vertices g
    → AllTo t (row g.out_edges s)
    → row (remove_edges_between s t g).out_edges s ≡ every_other (row g.out_edges s)
unfolding remove_edges_between num_vertices
remove_edges_between-parallel s t g valid in_s in_t all =
    row-put_row g.out_edges s s (kept false t (row g.out_edges s)) in_s
    ∙ ground arith
    ∙ kept-AllTo t (row g.out_edges s) all

module _ (s t : ℕ) (g : AdjList) (v : IsValid g) (in_s : s < num_vertices g)
    (in_t : t < num_vertices g) (single : pair_count s t g ≤ 1) where
  s_row : s < length g.out_edges
  unfolding num_vertices
  s_row = in_s

  t_row : t < length g.in_edges
  unfolding num_vertices
  t_row = omega (arith, in_t, v.sizes)

  in_single : vertex_times s (row g.in_edges t) ≤ 1
  in_single =
      omega
        (arith, vertex_times-eq t s (row g.out_edges s) (row g.in_edges t) (v.mirror s t), single)

  out_gone : (i : ℕ) → times t i (kept false t (row g.out_edges s)) ≡ 0
  out_gone i = omega (
    arith,
    single,
    vertex_times-kept t (row g.out_edges s),
    times-le-vertex_times t i (kept false t (row g.out_edges s)),
  )

  in_gone : (i : ℕ) → times s i (kept false s (row g.in_edges t)) ≡ 0
  in_gone i = omega (
    arith,
    in_single,
    vertex_times-kept s (row g.in_edges t),
    times-le-vertex_times s i (kept false s (row g.in_edges t)),
  )

  between-out :
      (u : ℕ)
      → row (remove_edges_between s t g).out_edges u
        ≡ (if s == u then kept false t (row g.out_edges s) else row g.out_edges u)
  unfolding remove_edges_between
  between-out u = row-put_row g.out_edges s u (kept false t (row g.out_edges s)) s_row

  between-in :
      (u : ℕ)
      → row (remove_edges_between s t g).in_edges u
        ≡ (if t == u then kept false s (row g.in_edges t) else row g.in_edges u)
  unfolding remove_edges_between
  between-in u = row-put_row g.in_edges t u (kept false s (row g.in_edges t)) t_row

  between-mirror :
      (a b i : ℕ)
      → times b i (row (remove_edges_between s t g).out_edges a)
        ≡ times a i (row (remove_edges_between s t g).in_edges b)
  between-mirror a b i = ground (
    arith,
    between-out a,
    between-in b,
    v.mirror a b i,
    out_gone i,
    in_gone i,
    times-kept_other false t b i (row g.out_edges s),
    times-kept_other false s a i (row g.in_edges t),
  )

  between-sizes :
      length (remove_edges_between s t g).out_edges ≡ length (remove_edges_between s t g).in_edges
  unfolding remove_edges_between
  between-sizes = omega (
    arith,
    v.sizes,
    length-set g.out_edges s (kept false t (row g.out_edges s)),
    length-set g.in_edges t (kept false s (row g.in_edges t)),
  )

  between-number :
      ((remove_edges_between s t g).n_edges < size_mod)
      × ((remove_edges_between s t g).n_edges
          ≡ sum_by length (remove_edges_between s t g).out_edges)
  unfolding remove_edges_between
  between-number =
      let split = length-kept-freed false t (row g.out_edges s) in
      let most = get_or-le-sum_by length g.out_edges s [] refl in
      let n =
        size_sub_lem g.n_edges (length (freed false t (row g.out_edges s)))
          (omega (arith, split, most, v.counted)) v.bounded in
      (
        omega (arith, n, v.bounded),
        omega (
          arith,
          n,
          split,
          most,
          v.counted,
          sum_by-set length g.out_edges s (kept false t (row g.out_edges s)) [] s_row,
        ),
      )

  between-indexed :
      (i : ℕ)
      → uses i (remove_edges_between s t g)
        ≡ (if ltb i (remove_edges_between s t g).last_idx then 1 else 0)
  unfolding remove_edges_between
  between-indexed i = ground (
    arith,
    v.indexed i,
    sum_by-set (index_times i) g.out_edges s (kept false t (row g.out_edges s)) [] s_row,
    index_times-kept-freed false t i (row g.out_edges s),
    count-append i g.free_indexes (freed false t (row g.out_edges s)),
  )

  -- Where at most one edge leads from s to t, two vertices of a well-formed graph, `remove_edge(s,
  -- t, g)` keeps the graph well formed and removes exactly the edges from s to t.
  pub remove_edges_between_lem :
      IsValid (remove_edges_between s t g)
      × ((e : Edge)
          → multiplicity e (remove_edges_between s t g)
            ≡ (if s == e.source && t == e.target then 0 else multiplicity e g))
  remove_edges_between_lem = (
    record {
      sizes = between-sizes;
      mirror = between-mirror;
      counted = between-number.1;
      bounded = between-number.0;
      indexed = between-indexed;
    },
    λ e. ground (
      arith,
      between-out e.source,
      out_gone e.idx,
      times-kept_other false t e.target e.idx (row g.out_edges s),
    ),
  )
