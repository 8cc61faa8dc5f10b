-- ===== src/Subgraph/EdgeFound.antt =====
-- The loop of `get_mapping` in src/graph/topology/graph_subgraph_isomorphism.cc over the edges of g,
-- for one edge of a graph `sub` with a copy in g.
use graph_tool.AdjList.{AdjList, Edge, num_vertices, out_edges}
use graph_tool.AdjList.OutEdges.{AllOf, From, out_edges-All, out_edges-From}
use graph_tool.AdjList.Rows.{same}
use graph_tool.AdjList.Unique.{same_source, same_target}
use graph_tool.AdjList.Valid.{IsValid, multiplicity, source_lt, target_lt}
use graph_tool.Common.{
  Bool, Bool-cases, List, [], ap, arith, false, get_or, if◌then◌else◌, inl, inr, refl, store, subst,
  sym, true, ℕ, ◌&&◌, ◌<◌, ◌==◌, ◌∙◌, ◌∷◌, ◌≡◌, ◌≢◌,
}
use graph_tool.Subgraph.{Mapping}
use graph_tool.Subgraph.GetMapping.{in_order, in_order-at, map_to, vertex_for}
use graph_tool.Subgraph.Mappings.{Embeds, target_of}
use native.Mathlib.Decide.{ℕ_discrete}

module _ (vertex_labelling : ℕ → ℕ → Bool) (edge_labelling : Edge → Edge → Bool) (sub g : AdjList)
    (vlist : List ℕ) (f : Mapping) where
  abbrev N : ℕ
  N = num_vertices sub

  abbrev vector : List (ℕ × ℕ)
  vector = in_order f

  -- Whether the loop takes e2 for e.
  abbrev takes : Edge → Edge → Bool
  takes e e2 =
      e2.target == vertex_for edge_labelling sub g vlist vector e.target && edge_labelling e e2

  abbrev run : Edge → List Edge → Bool × (ℕ → ℕ) → Bool × (ℕ → ℕ)
  run = map_to edge_labelling sub g vlist vector

  run-others :
      (e : Edge) (es : List Edge) (acc : Bool × (ℕ → ℕ)) (i : ℕ)
      → e.idx ≢ i
      → (run e es acc).1 i ≡ acc.1 i
  unfolding map_to store
  run-others e [] acc i ne = refl
  run-others e (e2 ∷ es) acc i ne =
      run-others e es (if takes e e2 then (true, store e.idx e2.idx acc.1) else acc) i ne
      ∙ elim (Bool-cases (takes e e2)) [
        | inl taken ↦ ground (arith, taken, ne)
        | inr passed ↦ ground (arith, passed)
      ]

  -- What was found is an edge of the list that the loop takes.
  abbrev Good : (Edge → Type 0) → Edge → (ℕ → ℕ) → Type 0
  Good P e emapping = (e2 : Edge) × (P e2 × ((takes e e2 ≡ true) × (emapping e.idx ≡ e2.idx)))

  run-Good :
      (P : Edge → Type 0) (e : Edge) (es : List Edge) (acc : Bool × (ℕ → ℕ))
      → AllOf P es
      → (acc.0 ≡ true → Good P e acc.1)
      → (run e es acc).0 ≡ true
      → Good P e (run e es acc).1
  unfolding map_to
  run-Good P e [] acc all old h = old h
  run-Good P e (e2 ∷ es) acc all old h = elim (Bool-cases (takes e e2)) [
    | inr passed ↦ rw (map_to, passed) (run-Good P e es acc all.1 old (rw (map_to, passed) at h))
    | inl taken ↦
        rw (map_to, taken)
          (run-Good P e es (true, store e.idx e2.idx acc.1) all.1
            (λ _. (e2, (all.0, (taken, unfold store in ground arith)))) (rw (map_to, taken) at h))
  ]

  run-missed :
      (e : Edge) (es : List Edge) (acc : Bool × (ℕ → ℕ))
      → (run e es acc).0 ≡ false
      → (acc.0 ≡ false) × AllOf (λ e2. takes e e2 ≡ false) es
  unfolding map_to
  run-missed e [] acc h = (h, tt)
  run-missed e (e2 ∷ es) acc h = elim (Bool-cases (takes e e2)) [
    | inl taken ↦
        let (off, _) = run-missed e es (true, store e.idx e2.idx acc.1) (rw (map_to, taken) at h) in
        absurd (ground (arith, off))
    | inr passed ↦
        let (off, rest) = run-missed e es acc (rw (map_to, passed) at h) in (off, (passed, rest))
  ]

  module _ (valid_sub : IsValid sub) (valid : IsValid g)
      (copy : Embeds vertex_labelling edge_labelling sub g vlist N f) where
    pub for_image :
        (u : ℕ)
        → u < N
        → vertex_for edge_labelling sub g vlist vector u
          ≡ target_of vertex_labelling edge_labelling sub g vlist f u
    for_image u h = ap (λ p. get_or vlist p.1 0) (in_order-at f N u copy.assigned h)

    -- The map gives the edge e the index of a counterpart.
    abbrev pub Done : (ℕ → ℕ) → Edge → Type 0
    Done emapping e =
        (e' : Edge) × ((0 < multiplicity e' g)
          × ((e'.source ≡ target_of vertex_labelling edge_labelling sub g vlist f e.source)
              × ((e'.target ≡ target_of vertex_labelling edge_labelling sub g vlist f e.target)
                  × ((edge_labelling e e' ≡ true) × (emapping e.idx ≡ e'.idx)))))

    pub ends_below : (e : Edge) → 0 < multiplicity e sub → (e.source < N) × (e.target < N)
    ends_below e h =
        unfold num_vertices in
        (source_lt valid_sub e h, omega (arith, target_lt valid_sub e h, valid_sub.sizes))

    module _ (e : Edge) (there : 0 < multiplicity e sub) (emapping : ℕ → ℕ) where
      abbrev start : ℕ
      start = vertex_for edge_labelling sub g vlist vector e.source

      abbrev result : Bool × (ℕ → ℕ)
      result = run e (out_edges start g) (false, emapping)

      -- An edge of `sub` is found.
      run-found : result.0 ≡ true
      run-found = elim (Bool-cases result.0) [
        | inl found ↦ found
        | inr missed ↦
            let (e', (there', (from, (to, alike)))) =
              copy.adjacent e there (ends_below e there).0 (ends_below e there).1 in
            let (_, none_taken) = run-missed e (out_edges start g) (false, emapping) missed in
            let at_start : e'.source ≡ start =
              from ∙ sym (for_image e.source (ends_below e there).0) in
            let missed_it : takes e e' ≡ false =
              out_edges-All g (λ e2. takes e e2 ≡ false) e' (rw at_start none_taken) there' in
            let there_too = to ∙ sym (for_image e.target (ends_below e there).1) in
            absurd (ground (arith, missed_it, there_too, alike))
      ]

      run-Done : Done result.1 e
      run-Done =
          let (e', ((from, there'), (taken, value))) =
            run-Good (From g start) e (out_edges start g) (false, emapping) (out_edges-From g start)
              (λ h. absurd (ground (arith, h))) run-found in
          (
            e',
            (
              there',
              (
                from ∙ for_image e.source (ends_below e there).0,
                (
                  ground (arith, taken) ∙ for_image e.target (ends_below e there).1,
                  (ground (arith, taken), value),
                ),
              ),
            ),
          )

      -- The edges that were done stay so.
      run-keeps : (x : Edge) → 0 < multiplicity x sub → Done emapping x → Done result.1 x
      run-keeps x there_x (e', (there', (from, (to, (alike, value))))) =
          elim (ℕ_discrete e.idx x.idx) [
            | no ne ↦ (
              e',
              (
                there',
                (
                  from,
                  (
                    to,
                    (alike, run-others e (out_edges start g) (false, emapping) x.idx ne ∙ value),
                  ),
                ),
              ),
            )
            | yes same ↦
                subst (Done result.1)
                  (edge_ext e x (same_source valid_sub e x there there_x same)
                    (same_target valid_sub e x there there_x same) same)
                  run-Done
          ]
        where
          edge_ext :
              (a b : Edge) → a.source ≡ b.source → a.target ≡ b.target → a.idx ≡ b.idx → a ≡ b
          edge_ext a b s t i j = record { source = s j; target = t j; idx = i j }

    -- What the inner loop leaves for the edge e, at the place i.
    abbrev pub looked : ℕ → Edge → (ℕ → ℕ) → Bool × (ℕ → ℕ)
    looked i e emapping =
        run e (out_edges (vertex_for edge_labelling sub g vlist vector i) g) (false, emapping)

    -- What was done under the first map is done under the second one.
    abbrev pub Keeps : (ℕ → ℕ) → (ℕ → ℕ) → Type 0
    Keeps before after = (x : Edge) → 0 < multiplicity x sub → Done before x → Done after x

    pub looked-Done :
        (i : ℕ) (e : Edge) (emapping : ℕ → ℕ)
        → From sub i e
        → ((looked i e emapping).0 ≡ true)
          × (Done (looked i e emapping).1 e × Keeps emapping (looked i e emapping).1)
    looked-Done i e emapping (at_i, there) =
        subst
          (λ u.
            ((looked u e emapping).0 ≡ true)
            × (Done (looked u e emapping).1 e × Keeps emapping (looked u e emapping).1))
          at_i (run-found e there emapping, (run-Done e there emapping, run-keeps e there emapping))
