-- ===== src/Subgraph/Transferred.antt =====
-- `get_mapping` of src/graph/topology/graph_subgraph_isomorphism.cc on a copy of `sub` in g.
use graph_tool.AdjList.{AdjList, Edge, num_vertices, out_edges}
use graph_tool.AdjList.Clear.{kept}
use graph_tool.AdjList.OutEdges.{AllOf, From, out_edges-All, out_edges-From}
use graph_tool.AdjList.Valid.{IsValid, multiplicity}
use graph_tool.Common.{
  Bool, List, Option, [], ap, arith, get_or, refl, some, store, subst, suc, sym, zero, ℕ, ◌+◌, ◌<◌,
  ◌∙◌, ◌∷◌, ◌≡◌,
}
use graph_tool.Subgraph.{Mapping}
use graph_tool.Subgraph.EdgeFound.{Done, Keeps, ends_below, for_image, looked, looked-Done}
use graph_tool.Subgraph.GetMapping.{
  get_mapping, in_order, in_order-at, length-in_order, map_edges_at, map_places, vertex_for,
}
use graph_tool.Subgraph.Mappings.{Embeds, target_of}
use native.Mathlib.Decide.{ℕ_discrete}

module _ (vertex_labelling : ℕ → ℕ → Bool) (edge_labelling : Edge → Edge → Bool) (sub g : AdjList)
    (vlist : List ℕ) (f : Mapping) where
  abbrev N : ℕ
  N = num_vertices sub

  abbrev vector : List (ℕ × ℕ)
  vector = in_order f

  -- Where the copy has a vertex.
  abbrev image_of : ℕ → ℕ
  image_of = target_of vertex_labelling edge_labelling sub g vlist f

  module _ (valid_sub : IsValid sub) (valid : IsValid g)
      (copy : Embeds vertex_labelling edge_labelling sub g vlist N f) where
    abbrev Mapped : (ℕ → ℕ) → Edge → Type 0
    Mapped = Done vertex_labelling edge_labelling sub g vlist f valid_sub valid copy

    abbrev Kept : (ℕ → ℕ) → (ℕ → ℕ) → Type 0
    Kept = Keeps vertex_labelling edge_labelling sub g vlist f valid_sub valid copy

    -- The loop over edges of `sub` from one source finds all of them and keeps those that were found.
    map_edges_at-Done :
        (i : ℕ) (es : List Edge) (emapping : ℕ → ℕ)
        → AllOf (From sub i) es
        → (after : ℕ → ℕ) × ((map_edges_at edge_labelling sub g vlist vector i es emapping
              ≡ some after)
            × (AllOf (Mapped after) es × Kept emapping after))
    unfolding map_edges_at
    map_edges_at-Done i [] emapping all = (emapping, (refl, (tt, λ x there done. done)))
    map_edges_at-Done i (e ∷ es) emapping all =
        let (found, (done, kept)) =
          looked-Done vertex_labelling edge_labelling sub g vlist f valid_sub valid copy i e
            emapping all.0 in
        let (after, (result, (rest, keeps))) =
          map_edges_at-Done i es
            (looked vertex_labelling edge_labelling sub g vlist f valid_sub valid copy i e
              emapping).1
            all.1 in
        (
          after,
          (
            rw (map_edges_at, found) result,
            ((keeps e all.0.1 done, rest), λ x there before. keeps x there (kept x there before)),
          ),
        )

    abbrev places : ℕ → ℕ → (ℕ → ℕ) → (ℕ → ℕ) → Option ((ℕ → ℕ) × (ℕ → ℕ))
    places = map_places edge_labelling sub g vlist vector

    -- A step of the loop over the places sets the entry of the vertex i.
    vmapping-next :
        (i : ℕ) (vmapping : ℕ → ℕ)
        → i < N
        → ((u : ℕ) → u < i → vmapping u ≡ image_of u)
        → (u : ℕ) → u < suc i
        → store
            (get_or vector i (0, 0)).0
            (vertex_for edge_labelling sub g vlist vector i)
            vmapping
            u
          ≡ image_of u
    unfolding store
    vmapping-next i vmapping low vs u h =
        let at_i = in_order-at f N i copy.assigned low in
        let index : (get_or vector i (0, 0)).0 ≡ i = ap (λ p. p.0) at_i in
        elim (ℕ_discrete u i) [
          | yes e ↦
              ground (arith, e, index)
              ∙ for_image vertex_labelling edge_labelling sub g vlist f valid_sub valid copy i low
              ∙ ap image_of (sym e)
          | no ne ↦ ground (arith, ne, index) ∙ vs u (omega (arith, h, ne))
        ]

    -- The loop over the places from i on never throws.
    map_places-Done :
        (m i : ℕ) (vmapping emapping : ℕ → ℕ)
        → i + m ≡ N
        → ((u : ℕ) → u < i → vmapping u ≡ image_of u)
        → ((x : Edge) → 0 < multiplicity x sub → x.source < i → Mapped emapping x)
        → (maps : (ℕ → ℕ) × (ℕ → ℕ)) × ((places m i vmapping emapping ≡ some maps)
            × (((u : ℕ) → u < N → maps.0 u ≡ image_of u)
                × ((x : Edge) → 0 < multiplicity x sub → Mapped maps.1 x)))
    unfolding map_places
    map_places-Done zero i vmapping emapping end vs es = (
      (vmapping, emapping),
      (
        refl,
        (
          λ u h. vs u (omega (arith, end, h)),
          λ x there. es x there (
              omega (
                arith,
                (ends_below vertex_labelling edge_labelling sub g vlist f valid_sub valid copy x
                    there).0,
                end,
              )),
        ),
      ),
    )
    map_places-Done (suc m) i vmapping emapping end vs es =
        let (after, (result, (done, keeps))) =
          map_edges_at-Done i (out_edges i sub) emapping (out_edges-From sub i) in
        let rest =
          map_places-Done m (suc i)
            (store (get_or vector i (0, 0)).0 (vertex_for edge_labelling sub g vlist vector i)
              vmapping)
            after (omega (arith, end)) (vmapping-next i vmapping (omega (arith, end)) vs)
            (λ x there h. elim (ℕ_discrete x.source i) [
              | yes e ↦
                  out_edges-All sub (Mapped after) x
                    (subst (λ u. AllOf (Mapped after) (out_edges u sub)) (sym e) done) there
              | no ne ↦ keeps x there (es x there (omega (arith, h, ne)))
            ]) in
        (rest.0, (rw (map_places, result) rest.1.0, rest.1.1))

    -- For a copy of a well-formed graph `sub` in a well-formed graph g: the exception "edge not found" is
    -- not thrown, the map of the vertices sends each vertex of `sub` to its place in the copy, and the map
    -- of the edges sends each edge of `sub` to the index of an edge of g between the vertices of its ends,
    -- with a label that fits.
    pub get_mapping_lem :
        (vmapping emapping : ℕ → ℕ)
        → (maps : (ℕ → ℕ) × (ℕ → ℕ)) × ((get_mapping edge_labelling sub g vlist
                (in_order f)
                vmapping
                emapping
              ≡ some maps)
            × (((u : ℕ) → u < N → maps.0 u ≡ image_of u)
                × ((x : Edge) → 0 < multiplicity x sub → Mapped maps.1 x)))
    unfolding get_mapping
    get_mapping_lem vmapping emapping = rw (length-in_order f N copy.assigned) (
        map_places-Done N 0 vmapping emapping (omega arith) (λ u h. absurd (omega (arith, h)))
          (λ x there h. absurd (omega (arith, h))))
