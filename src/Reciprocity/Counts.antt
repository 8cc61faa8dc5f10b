-- ===== src/Reciprocity/Counts.antt =====
-- What `get_reciprocity` of src/graph/topology/graph_reciprocity.cc counts.
use graph_tool.AdjList.{
  AdjList, Edge, EdgeList, adjacent_vertices, make_out_edge, null_vertex, num_edges, num_vertices,
  out_edges, row,
}
use graph_tool.AdjList.Edges.{length-all_edges, length-map, occurrences, occurrences-all_edges}
use graph_tool.AdjList.Iteration.{all_edges, edges_from}
use graph_tool.AdjList.Rows.{vertex_times}
use graph_tool.AdjList.Valid.{IsValid, multiplicity, pair_count}
use graph_tool.Common.{
  Bool-cases, List, [], ap, arith, false, if◌then◌else◌, inl, inr, int_rounds, leb, length,
  length-append, ltb, map, refl, size_add, size_add_lem, size_mod, suc, sym, zero, ℕ, ◌%◌, ◌++◌,
  ◌+◌, ◌<◌, ◌==◌, ◌^◌, ◌↔◌, ◌∙◌, ◌∷◌, ◌≡◌, ◌≤◌,
}
use graph_tool.Reciprocity.{
  count_edges, count_reciprocal, count_vertices, get_reciprocity, leads_back,
}
use mathlib.Core.Path.{ap₂}
use native.Mathlib.Decide.{ℕ_discrete}

leads_back-row :
    (v : ℕ) (es : EdgeList) → leads_back v (map (λ x. x.0) es) ≡ ltb 0 (vertex_times v es)
unfolding leads_back vertex_times
leads_back-row v [] = refl
leads_back-row v ((t, i) ∷ es) = ground (arith, leads_back-row v es)

leads_back-pairs :
    (v t : ℕ) (g : AdjList) → leads_back v (adjacent_vertices t g) ≡ ltb 0 (pair_count t v g)
unfolding adjacent_vertices
leads_back-pairs v t g = leads_back-row v (row g.out_edges t)

-- How many of the listed edges have an edge back.
abbrev pub backs : AdjList → List Edge → ℕ
backs g [] = 0
backs g (e ∷ es) = (if ltb 0 (pair_count e.target e.source g) then 1 else 0) + backs g es

backs-append : (g : AdjList) (es fs : List Edge) → backs g (es ++ fs) ≡ backs g es + backs g fs
backs-append g [] fs = omega arith
backs-append g (e ∷ es) fs = omega (arith, backs-append g es fs)

backs-le : (g : AdjList) (es : List Edge) → backs g es ≤ length es
backs-le g [] = omega arith
backs-le g (e ∷ es) = ground (arith, backs-le g es)

-- An edge in a list in which every edge has one back has one back.
backs-all :
    (g : AdjList) (es : List Edge) (e : Edge)
    → backs g es ≡ length es
    → 0 < occurrences e es
    → 0 < pair_count e.target e.source g
unfolding occurrences
backs-all g [] e all h = absurd (omega (arith, h))
backs-all g (f ∷ es) e all h = elim (ℕ_discrete (occurrences e es) 0) [
  | no later ↦ backs-all g es e (ground (arith, all, backs-le g es)) (omega (arith, later))
  | yes gone ↦
      let source : f.source ≡ e.source = ground (arith, h, gone) in
      let target : f.target ≡ e.target = ground (arith, h, gone) in
      let here : 0 < pair_count f.target f.source g = ground (arith, all, backs-le g es) in
      rw (sym source, sym target) here
]

all-backs :
    (g : AdjList) (es : List Edge)
    → ((e : Edge) → 0 < occurrences e es → 0 < pair_count e.target e.source g)
    → backs g es ≡ length es
unfolding occurrences
all-backs g [] h = refl
all-backs g (e ∷ es) h =
    ground (arith, h e (ground arith), all-backs g es (λ f q. h f (omega (arith, q))))

module _ (g : AdjList) where
  -- 1 where an edge leads from t to v.
  abbrev back : ℕ → ℕ → ℕ
  back v t = if ltb 0 (pair_count t v g) then 1 else 0

  add_back :
      (v t lbd : ℕ)
      → lbd + 1 < size_mod
      → (if leads_back v (adjacent_vertices t g) then size_add lbd 1 else lbd) ≡ lbd + back v t
  add_back v t lbd room =
      let next = size_add_lem lbd 1 room in
      elim (Bool-cases (ltb 0 (pair_count t v g))) [
        | inl yes_back ↦ ground (arith, leads_back-pairs v t g, yes_back, next)
        | inr alone ↦ ground (arith, leads_back-pairs v t g, alone)
      ]

  count_edges-backs :
      (v : ℕ) (es : EdgeList) (l lbd : ℕ)
      → l + length es < size_mod
      → lbd + length es < size_mod
      → count_edges g v (map (make_out_edge v) es) (l, lbd)
        ≡ (l + length es, lbd + backs g (map (make_out_edge v) es))
  unfolding count_edges make_out_edge
  count_edges-backs v [] l lbd room room' = ap₂ (λ a b. (a, b)) (omega arith) (omega arith)
  count_edges-backs v ((t, i) ∷ es) l lbd room room' =
      let small : back v t ≤ 1 = ground arith in
      ap₂ (λ a b. count_edges g v (map (make_out_edge v) es) (a, b))
        (size_add_lem l 1 (omega (arith, room))) (add_back v t lbd (omega (arith, room')))
      ∙ count_edges-backs v es (l + 1) (lbd + back v t) (omega (arith, room))
          (omega (arith, room', small))
      ∙ ap₂ (λ a b. (a, b)) (omega arith) (omega arith)

  count_vertices-backs :
      (m v l lbd : ℕ)
      → v + m < size_mod
      → l + length (edges_from m v g.out_edges) < size_mod
      → lbd + length (edges_from m v g.out_edges) < size_mod
      → count_vertices g m v (l, lbd)
        ≡ (l + length (edges_from m v g.out_edges), lbd + backs g (edges_from m v g.out_edges))
  unfolding count_vertices edges_from out_edges
  count_vertices-backs zero v l lbd few room room' = ap₂ (λ a b. (a, b)) (omega arith) (omega arith)
  count_vertices-backs (suc m) v l lbd few room room' =
      let es = row g.out_edges v in
      let here = map (make_out_edge v) es in
      let later = edges_from m (suc v) g.out_edges in
      let total = length-append here later in
      let size = length-map (make_out_edge v) es in
      let less = backs-le g here in
      let real : (v == null_vertex) ≡ false = ground (arith, few) in
      ap (λ b. count_vertices g m (suc v) (if b then (l, lbd) else count_edges g v here (l, lbd)))
        real
      ∙ ap (count_vertices g m (suc v)) (
          count_edges-backs v es l lbd (omega (arith, room, total, size))
            (omega (arith, room', total, size)))
      ∙ count_vertices-backs m (suc v) (l + length es) (lbd + backs g here) (omega (arith, few))
          (omega (arith, room, total, size)) (omega (arith, room', total, size, less))
      ∙ ap₂ (λ a b. (a, b)) (omega (arith, total, size)) (omega (arith, backs-append g here later))

  module _ (valid : IsValid g) (few : num_vertices g < 2 ^ 31) (room : num_edges g < size_mod) where
    counted : count_reciprocal g ≡ (num_edges g, backs g (all_edges g))
    unfolding count_reciprocal int_rounds num_vertices all_edges
    counted =
        let n = length g.out_edges in
        let rounds : (if leb (2 ^ 31) (n % 2 ^ 32) then 0 else n % 2 ^ 32) ≡ n =
          ground (arith, few) in
        let size = length-all_edges g valid in
        ap (λ m. count_vertices g m 0 (0, 0)) rounds
        ∙ count_vertices-backs n 0 0 0 (omega (arith, few)) (omega (arith, room, size))
            (omega (arith, room, size))
        ∙ ap₂ (λ a b. (a, b)) (omega (arith, size)) (omega arith)

    -- In a well-formed graph of fewer than 2 ^ 31 vertices and fewer than 2 ^ 64 edges,
    -- `get_reciprocity` divides the number of edges that have an edge back by the number of edges; the
    -- two are equal exactly where every edge has one back.
    pub get_reciprocity_lem {ℓ} :
        {D : Type ℓ} (quotient : ℕ → ℕ → D)
        → (get_reciprocity quotient g ≡ quotient (backs g (all_edges g)) (num_edges g))
          × (backs g (all_edges g) ≤ num_edges g)
          × ((backs g (all_edges g) ≡ num_edges g)
              ↔ ((e : Edge) → 0 < multiplicity e g → 0 < pair_count e.target e.source g))
    unfolding get_reciprocity
    get_reciprocity_lem quotient =
        let size = length-all_edges g valid in
        (
          ap (λ c. quotient c.1 c.0) counted,
          omega (arith, backs-le g (all_edges g), size),
          (
            λ all e h.
                backs-all g (all_edges g) e (omega (arith, all, size))
                  (omega (arith, h, occurrences-all_edges e g)),
            λ all. omega (
              arith,
              size,
              all-backs g (all_edges g)
                  (λ e h. all e (omega (arith, h, occurrences-all_edges e g))),
            ),
          ),
        )
