-- ===== src/Parallel/Simplified.antt =====
-- Labelling all parallel edges but one above 0 and removing the labelled ones, with
-- src/graph/stats/graph_parallel.hh.
use graph_tool.AdjList.{AdjList, Edge, EdgeList, make_out_edge, num_vertices, out_edges, row}
use graph_tool.AdjList.Rows.{times, times-le-vertex_times, vertex_times}
use graph_tool.AdjList.Valid.{IsValid, multiplicity, multiplicity-le-one, pair_count, source_lt}
use graph_tool.Common.{
  Bool, [], ap, arith, false, if◌then◌else◌, int_rounds_lem, leb, length, ltb, map, not, some, suc,
  sym, zero, ℕ, ◌&&◌, ◌+◌, ◌<◌, ◌^◌, ◌∙◌, ◌∷◌, ◌≡◌, ◌≤◌,
}
use graph_tool.GraphInterface.{clear}
use graph_tool.Parallel.{label_parallel_edges, label_row, label_rows, remove_labeled_edges}
use graph_tool.Parallel.Duplicates.{label_row_lem}
use graph_tool.Parallel.First.{first_idx, is_first, is_first-some, is_first-true}
use graph_tool.Parallel.Labels.{HoldsLabels, remove_labeled_edges_lem}
use graph_tool.Rewiring.Pair.{once}
use mathlib.Core.Option.{some-injective}
use native.Mathlib.Decide.{ℕ_discrete}

module _ {g : AdjList} (valid : IsValid g) (convert : ℕ → ℕ) (mark_only : Bool)
    (holds : HoldsLabels convert mark_only g) where
  label_rows_lem :
      (m v : ℕ) (label : ℕ → ℕ)
      → ((e : Edge) → 0 < multiplicity e g → v ≤ e.source → label e.idx ≡ 0)
      → (e : Edge) → 0 < multiplicity e g
      → ltb 0 (label_rows convert mark_only false g m v label e.idx) ≡ (
          if leb v e.source && ltb e.source (v + m)
          then not (is_first e (out_edges e.source g))
          else ltb 0 (label e.idx))
  unfolding label_rows
  label_rows_lem zero v label clear e in_e = ground arith
  label_rows_lem (suc m) v label clear e in_e =
      let row_lem =
        label_row_lem valid v convert mark_only holds label
          (λ f in_f s. clear f in_f (omega (arith, s))) in
      let rest =
        label_rows_lem m (suc v)
          (label_row convert mark_only false (out_edges v g) (out_edges v g) label)
          (λ f in_f later. ground (arith, row_lem f in_f, clear f in_f, later)) e in_e in
      elim (ℕ_discrete e.source v) [
        | yes s ↦ ground (arith, rest, row_lem e in_e, s, ap (λ u. is_first e (out_edges u g)) s)
        | no ne ↦ ground (arith, rest, row_lem e in_e, ne)
      ]

-- A target that is met has a first edge.
first_of :
    (v t : ℕ) (es : EdgeList)
    → 0 < vertex_times t es
    → (i : ℕ) × (first_idx t (map (make_out_edge v) es) ≡ some i) × (0 < times t i es)
unfolding first_idx make_out_edge vertex_times times
first_of v t [] h = absurd (omega arith)
first_of v t ((u, j) ∷ es) h = elim (ℕ_discrete u t) [
  | yes e ↦ (j, ground (arith, e), ground (arith, e))
  | no ne ↦
      let (i, found, there) = first_of v t es (ground (arith, h, ne)) in
      (i, ground (arith, ne, found), omega (arith, there))
]

some_of : (t : ℕ) (es : EdgeList) → 0 < vertex_times t es → (i : ℕ) × (0 < times t i es)
unfolding vertex_times times
some_of t [] h = absurd (omega arith)
some_of t ((u, j) ∷ es) h = elim (ℕ_discrete u t) [
  | yes e ↦ (j, ground (arith, e))
  | no ne ↦ let (i, there) = some_of t es (ground (arith, h, ne)) in (i, omega (arith, there))
]

-- Where there is at most one index, and each is there at most once, there is at most one entry.
vertex_times-one :
    (t : ℕ) (es : EdgeList)
    → ((i : ℕ) → times t i es ≤ 1)
    → ((i j : ℕ) → 0 < times t i es → 0 < times t j es → i ≡ j)
    → vertex_times t es ≤ 1
unfolding vertex_times times
vertex_times-one t [] once only = omega arith
vertex_times-one t ((u, k) ∷ es) once only = elim (ℕ_discrete u t) [
  | no ne ↦ ground (
    arith,
    ne,
    vertex_times-one t es (λ i. omega (arith, once i))
        (λ i j p q. only i j (omega (arith, p)) (omega (arith, q))),
  )
  | yes e ↦ elim (ℕ_discrete (vertex_times t es) 0) [
    | yes none_left ↦ ground (arith, e, none_left)
    | no more ↦
        let (i, there) = some_of t es (omega (arith, more)) in
        let same_i = only i k (omega (arith, there)) (ground (arith, e)) in
        absurd (ground (arith, e, same_i, once k, there, ap (λ j. times t j es) same_i))
  ]
]

module _ (convert : ℕ → ℕ) (mark_only : Bool) (g : AdjList)
    (holds : HoldsLabels convert mark_only g) (valid : IsValid g) (few : num_vertices g < 2 ^ 31)
    (label : ℕ → ℕ) (clear : (i : ℕ) → label i ≡ 0) where
  abbrev simplified : AdjList
  simplified = remove_labeled_edges (label_parallel_edges convert mark_only false g label) g

  simplified_lem :
      IsValid simplified
      × ((e : Edge)
          → multiplicity e simplified
            ≡ (if is_first e (out_edges e.source g) then multiplicity e g else 0))
  unfolding label_parallel_edges num_vertices
  simplified_lem =
      let (w, left) =
        remove_labeled_edges_lem (label_parallel_edges convert mark_only false g label) g valid
          few in
      let rounds = int_rounds_lem (length g.out_edges) few in
      (
        w,
        λ e. elim (ℕ_discrete (multiplicity e g) 0) [
          | yes gone ↦ ground (arith, left e, gone)
          | no there ↦ ground (
            arith,
            left e,
            ap (λ m. label_rows convert mark_only false g m 0 label e.idx) rounds,
            label_rows_lem valid convert mark_only holds (length g.out_edges) 0 label
                (λ f _ _. clear f.idx) e (omega (arith, there)),
            source_lt valid e (omega (arith, there)),
          )
        ],
      )

  module _ (a b : ℕ) where
    abbrev between : ℕ → Edge
    between i = record { source = a; target = b; idx = i }

    still_first :
        (i : ℕ) → 0 < multiplicity (between i) simplified → first_idx b (out_edges a g) ≡ some i
    still_first i h =
        is_first-true (between i) (out_edges a g) (ground (arith, h, simplified_lem.1 (between i)))

    at_most_one : pair_count a b simplified ≤ 1
    at_most_one =
        vertex_times-one b (row simplified.out_edges a)
          (λ i. omega (arith, multiplicity-le-one simplified_lem.0 (between i)))
          (λ i j p q. some-injective i j (sym (still_first i p) ∙ still_first j q))

    at_least_one : 0 < pair_count a b g → 0 < pair_count a b simplified
    unfolding out_edges
    at_least_one h =
        let (i, found, there) = first_of a b (row g.out_edges a) h in
        let has : 0 < multiplicity (between i) simplified = ground (
          arith,
          simplified_lem.1 (between i),
          is_first-some (between i) (out_edges a g) i found,
          there,
        ) in
        omega (arith, has, times-le-vertex_times b i (row simplified.out_edges a))

    none_new : 0 < pair_count a b simplified → 0 < pair_count a b g
    none_new h =
        let (i, there) = some_of b (row simplified.out_edges a) h in
        let has : 0 < multiplicity (between i) g =
          ground (arith, simplified_lem.1 (between i), there) in
        omega (arith, has, times-le-vertex_times b i (row g.out_edges a))

  -- In a well-formed graph of fewer than 2 ^ 31 vertices without labels before, with a map whose
  -- value type keeps the labels (0, and 1 with `mark_only` or, without it, those up to the number of
  -- edges): `label_parallel_edges` without `count_all`, with or without `mark_only`, followed by
  -- `remove_labeled_edges`, leaves one edge of those between any two vertices where there were
  -- some, adds none, and keeps the graph well formed.
  pub remove_labeled_edges-label_parallel_edges :
      IsValid simplified
      × ((a b : ℕ) → pair_count a b simplified ≡ (if ltb 0 (pair_count a b g) then 1 else 0))
      × ((e : Edge) → multiplicity e simplified ≤ multiplicity e g)
  remove_labeled_edges-label_parallel_edges = (
    simplified_lem.0,
    λ a b. ground (arith, at_most_one a b, at_least_one a b, none_new a b),
    λ e. ground (arith, simplified_lem.1 e),
  )
