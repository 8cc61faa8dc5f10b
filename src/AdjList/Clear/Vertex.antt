-- ===== src/AdjList/Clear/Vertex.antt =====
-- `clear_vertex` of src/graph/graph_adjacency.hh, step by step: what becomes of each list.
use graph_tool.AdjList.{AdjList, Edge, EdgeList, num_edges, num_vertices, out_degree, row}
use graph_tool.AdjList.Clear.{clear_sources, clear_targets, clear_vertex, drop_in, drop_out}
use graph_tool.AdjList.Clear.Passes.{
  SameOut, clear_targets-SameOut, clear_targets-fewer, clear_targets-freed, clear_targets-other,
}
use graph_tool.AdjList.Columns.{column_index}
use graph_tool.AdjList.Reindex.{AllTargetsBelow, IsValid-AllTargetsBelow, TargetsBelow}
use graph_tool.AdjList.Rows.{
  index_times, index_times-nil, times, times-le-vertex_times, times-nil, vertex_times-eq,
}
use graph_tool.AdjList.Valid.{IsValid, multiplicity, row-put_row}
use graph_tool.Common.{
  List, [], ap, arith, count, false, get_or-le-sum_by, if◌then◌else◌, length, length-set, ltb, refl,
  size_sub, size_sub_lem, subst, suc, sum_by, sum_by-set, sym, zero, ℕ, ◌+◌, ◌-◌, ◌<◌, ◌==◌, ◌||◌,
  ◌↔◌, ◌∙◌, ◌∷◌, ◌≡◌, ◌≢◌, ◌≤◌,
}
use mathlib.Core.Path.{ap₂}
use native.Mathlib.Decide.{dec_lt, ℕ_discrete}

-- v has no in-edge but from itself.
abbrev pub NoOtherSource : ℕ → AdjList → Type 0
NoOtherSource v g = (s i : ℕ) → s ≢ v → times s i (row g.in_edges v) ≡ 0

-- The second loop makes no round: its bound is the size of a list that is empty by then.
pub clear_sources-none :
    (f v : ℕ) (g : AdjList) → row g.out_edges v ≡ [] → clear_sources f 0 v g ≡ g
unfolding clear_sources
clear_sources-none zero v g e = refl
clear_sources-none (suc f) v g e =
    let stop : ltb 0 (length (row g.out_edges v)) ≡ false = ground (arith, ap length e) in
    rw (stop, clear_sources)

-- A list with no entry is empty.
EdgeList-empty : (es : EdgeList) → ((t i : ℕ) → times t i es ≡ 0) → es ≡ []
unfolding times
EdgeList-empty [] h = refl
EdgeList-empty ((u, j) ∷ es) h = absurd (ground (arith, h u j))

module _ (v : ℕ) (g : AdjList) (valid : IsValid g) (in_v : v < num_vertices g) where
  -- After the first loop.
  abbrev pub scanned : AdjList
  scanned = clear_targets v (row g.out_edges v) g

  v_lt : v < length g.out_edges
  unfolding num_vertices
  v_lt = in_v

  same_out : SameOut g scanned
  same_out = clear_targets-SameOut v (row g.out_edges v) g

  v_lt_scanned : v < length scanned.out_edges
  v_lt_scanned = omega (arith, ap length same_out.outgoing, v_lt)

  targets_below : TargetsBelow (length g.in_edges) (row g.out_edges v)
  targets_below =
      subst (λ n. TargetsBelow n (row g.out_edges v)) valid.sizes
        (row_below _ v g.out_edges (IsValid-AllTargetsBelow g valid))
    where
      row_below :
          (n v : ℕ) (rows : List EdgeList) → AllTargetsBelow n rows → TargetsBelow n (row rows v)
      row_below n v [] h = tt
      row_below n zero (es ∷ rows) h = h.0
      row_below n (suc v) (es ∷ rows) h = row_below n v rows h.1

  scanned_other :
      (s b i : ℕ) → s ≢ v → times s i (row scanned.in_edges b) ≡ times s i (row g.in_edges b)
  scanned_other s b i ne = clear_targets-other v b s i (row g.out_edges v) g targets_below ne

  -- No in-edge from v is left, parallel edges and self-loops included.
  scanned_self : (b i : ℕ) → times v i (row scanned.in_edges b) ≡ 0
  scanned_self b i = omega (
    arith,
    times-le-vertex_times v i (row scanned.in_edges b),
    clear_targets-fewer v b (row g.out_edges v) g targets_below,
    vertex_times-eq b v (row g.out_edges v) (row g.in_edges b) (valid.mirror v b),
  )

  -- The indices that are freed are those of the edges out of v.
  scanned_free :
      (i : ℕ)
      → count i scanned.free_indexes ≡ count i g.free_indexes + index_times i (row g.out_edges v)
  scanned_free i = omega (
    arith,
    clear_targets-freed v i (row g.out_edges v) g targets_below,
    column_index v i g.in_edges (row g.out_edges v) (λ t. sym (valid.mirror v t i)),
    column_index v i scanned.in_edges [] (λ t. scanned_self t i ∙ sym (times-nil t i)),
    index_times-nil i,
  )

  dropped_row : row (drop_out v scanned).out_edges v ≡ []
  unfolding drop_out
  dropped_row = ground (arith, row-put_row scanned.out_edges v v [] v_lt_scanned)

  clear_vertex-steps : clear_vertex v g ≡ drop_in v (drop_out v scanned)
  unfolding clear_vertex
  clear_vertex-steps = ap (drop_in v) (
      clear_sources-none (suc (length (row (drop_out v scanned).out_edges v))) v
        (drop_out v scanned) dropped_row)

  cleared_out :
      (s : ℕ) → row (clear_vertex v g).out_edges s ≡ (if v == s then [] else row g.out_edges s)
  unfolding drop_out drop_in
  cleared_out s =
      ap (λ h. row h.out_edges s) clear_vertex-steps
      ∙ row-put_row scanned.out_edges v s [] v_lt_scanned
      ∙ ap (λ rows. if v == s then [] else row rows s) same_out.outgoing

  cleared_in :
      (t : ℕ) → row (clear_vertex v g).in_edges t ≡ (if v == t then [] else row scanned.in_edges t)
  unfolding drop_out drop_in
  cleared_in t =
      ap (λ h. row h.in_edges t) clear_vertex-steps
      ∙ row-put_row scanned.in_edges v t [] (omega (arith, same_out.table, valid.sizes, v_lt))

  -- With another in-edge, the edge stays in its source's list and is gone from v's: the graph is
  -- broken.
  clear_vertex-breaks :
      (s i : ℕ) → s ≢ v → 0 < times s i (row g.in_edges v) → ¬ IsValid (clear_vertex v g)
  clear_vertex-breaks s i ne h w =
      ground (arith, valid.mirror s v i, w.mirror s v i, cleared_out s, cleared_in v, times-nil s i)

  module _ (alone : NoOtherSource v g) where
    scanned_row : row scanned.in_edges v ≡ []
    scanned_row = EdgeList-empty (row scanned.in_edges v) every
      where
        every : (s i : ℕ) → times s i (row scanned.in_edges v) ≡ 0
        every s i = elim (ℕ_discrete s v) [
          | yes e ↦ rw e (scanned_self v i)
          | no ne ↦ scanned_other s v i ne ∙ alone s i ne
        ]

    cleared_mirror :
        (s t i : ℕ)
        → times t i (row (clear_vertex v g).out_edges s)
          ≡ times s i (row (clear_vertex v g).in_edges t)
    cleared_mirror s t i = ground (
      arith,
      cleared_out s,
      cleared_in t,
      valid.mirror s t i,
      times-nil t i,
      times-nil s i,
      scanned_self t i,
      scanned_other s t i,
      alone s i,
    )

    out_le : length (row g.out_edges v) ≤ g.n_edges
    out_le = omega (arith, valid.counted, get_or-le-sum_by length g.out_edges v [] refl)

    scanned_size : length (row scanned.out_edges v) ≡ length (row g.out_edges v)
    scanned_size = ap (λ rows. length (row rows v)) same_out.outgoing

    dropped_number :
        size_sub scanned.n_edges (length (row scanned.out_edges v))
        ≡ g.n_edges - length (row g.out_edges v)
    dropped_number = omega (
      arith,
      scanned_size,
      same_out.number,
      size_sub_lem scanned.n_edges (length (row scanned.out_edges v))
          (omega (arith, same_out.number, scanned_size, out_le))
          (omega (arith, same_out.number, valid.bounded)),
    )

    cleared_number : (clear_vertex v g).n_edges ≡ g.n_edges - length (row g.out_edges v)
    unfolding drop_out drop_in
    cleared_number =
        ap (λ h. h.n_edges) clear_vertex-steps
        ∙ ap₂ size_sub dropped_number (ap length scanned_row)
        ∙ omega (arith, valid.bounded, size_sub_lem (g.n_edges - length (row g.out_edges v)) 0)

    cleared_sum :
        (f : EdgeList → ℕ)
        → f [] ≡ 0
        → sum_by f (clear_vertex v g).out_edges + f (row g.out_edges v) ≡ sum_by f g.out_edges
    unfolding drop_out drop_in
    cleared_sum f e = omega (
      arith,
      ap (λ h. sum_by f h.out_edges) clear_vertex-steps,
      sum_by-set f scanned.out_edges v [] [] v_lt_scanned,
      ap (sum_by f) same_out.outgoing,
      ap (λ rows. f (row rows v)) same_out.outgoing,
      e,
    )

    cleared_sizes : length (clear_vertex v g).out_edges ≡ length (clear_vertex v g).in_edges
    unfolding drop_out drop_in
    cleared_sizes = omega (
      arith,
      ap (λ h. length h.out_edges) clear_vertex-steps,
      ap (λ h. length h.in_edges) clear_vertex-steps,
      length-set scanned.out_edges v [],
      length-set scanned.in_edges v [],
      ap length same_out.outgoing,
      same_out.table,
      valid.sizes,
    )

    cleared_free :
        (i : ℕ)
        → count i (clear_vertex v g).free_indexes
          ≡ count i g.free_indexes + index_times i (row g.out_edges v)
    unfolding drop_out drop_in
    cleared_free i = ap (λ h. count i h.free_indexes) clear_vertex-steps ∙ scanned_free i

    cleared_last : (clear_vertex v g).last_idx ≡ g.last_idx
    unfolding drop_out drop_in
    cleared_last = ap (λ h. h.last_idx) clear_vertex-steps ∙ same_out.last

    clear_vertex-keeps : IsValid (clear_vertex v g)
    clear_vertex-keeps = record {
      sizes = cleared_sizes;
      mirror = cleared_mirror;
      counted = omega (arith, cleared_number, cleared_sum length refl, valid.counted, out_le);
      bounded = omega (arith, cleared_number, valid.bounded);
      indexed = λ i. ground (
        arith,
        valid.indexed i,
        cleared_free i,
        cleared_last,
        cleared_sum (index_times i) (index_times-nil i),
      );
    }

  -- Clearing a vertex of a well-formed graph keeps the graph well formed exactly when no edge leads
  -- to the vertex from another one.
  pub clear_vertex-IsValid : IsValid (clear_vertex v g) ↔ NoOtherSource v g
  clear_vertex-IsValid = (
    λ w s i ne. elim (dec_lt 0 (times s i (row g.in_edges v))) [
      | yes h ↦ absurd (clear_vertex-breaks s i ne h w)
      | no none_left ↦ omega arith
    ],
    clear_vertex-keeps,
  )

  -- Where no edge leads to a vertex of a well-formed graph from another one, `clear_vertex` takes
  -- away exactly the edges at the vertex, and lowers the number of edges by the out-degree.
  pub clear_vertex_lem :
      NoOtherSource v g
      → (num_edges (clear_vertex v g) + out_degree v g ≡ num_edges g)
        × ((e : Edge)
            → multiplicity e (clear_vertex v g)
              ≡ (if v == e.source || v == e.target then 0 else multiplicity e g))
  unfolding num_edges out_degree
  clear_vertex_lem alone = (
    omega (arith, cleared_number alone, out_le alone),
    λ e. ground (
      arith,
      cleared_out e.source,
      valid.mirror e.source e.target e.idx,
      times-nil e.target e.idx,
      alone e.source e.idx,
      ap (λ t. times t e.idx (row g.out_edges e.source)),
    ),
  )
