-- ===== src/Subgraph/GetMapping.antt =====
-- `get_mapping` of src/graph/topology/graph_subgraph_isomorphism.cc: the maps of vertices and edges that
-- belong to a mapping that was found, or the exception "edge not found".
use graph_tool.AdjList.{AdjList, Edge, out_edges}
use graph_tool.Common.{
  Bool, List, Option, [], arith, false, get_or, get_or-last, if◌then◌else◌, length, length-append,
  none, some, store, suc, sym, true, zero, ℕ, ◌&&◌, ◌++◌, ◌<◌, ◌==◌, ◌∙◌, ◌∷◌, ◌≡◌,
}
use graph_tool.Subgraph.{Mapping}
use graph_tool.Subgraph.Mappings.{Assigned, image}
use native.Mathlib.Decide.{ℕ_discrete}

-- The vector that a mapping with its back first stands for.
unfoldable pub in_order : Mapping → List (ℕ × ℕ)
in_order [] = []
in_order (p ∷ f) = in_order f ++ p ∷ []

module _ (edge_labelling : Edge → Edge → Bool) (sub g : AdjList) (vlist : List ℕ)
    (mapping : List (ℕ × ℕ)) where
  -- `vlist[F[u].second]`
  abbrev pub vertex_for : ℕ → ℕ
  vertex_for u = get_or vlist (get_or mapping u (0, 0)).1 0

  -- The loop over e2, for the edge e: `found` and the map of the edges.
  unfoldable pub map_to : Edge → List Edge → Bool × (ℕ → ℕ) → Bool × (ℕ → ℕ)
  unfolding store
  map_to e [] acc = acc
  map_to e (e2 ∷ es) acc = map_to e es (
      if e2.target == vertex_for e.target && edge_labelling e e2
      then (true, store e.idx e2.idx acc.1)
      else acc)

  -- The loop over the edges e out of the vertex i.
  unfoldable pub map_edges_at : ℕ → List Edge → (ℕ → ℕ) → Option (ℕ → ℕ)
  unfolding map_to
  map_edges_at i [] emapping = some emapping
  map_edges_at i (e ∷ es) emapping =
      let acc = map_to e (out_edges (vertex_for i) g) (false, emapping) in
      elim acc.0 [ true ↦ map_edges_at i es acc.1 | false ↦ none ]

  -- The loop over m places from i on.
  unfoldable pub map_places : ℕ → ℕ → (ℕ → ℕ) → (ℕ → ℕ) → Option ((ℕ → ℕ) × (ℕ → ℕ))
  unfolding map_edges_at
  map_places zero i vmapping emapping = some (vmapping, emapping)
  map_places (suc m) i vmapping emapping = elim (map_edges_at i (out_edges i sub) emapping) [
    | none ↦ none
    | some next ↦
        map_places m (suc i) (store (get_or mapping i (0, 0)).0 (vertex_for i) vmapping) next
  ]

  unfoldable pub get_mapping : (ℕ → ℕ) → (ℕ → ℕ) → Option ((ℕ → ℕ) × (ℕ → ℕ))
  unfolding map_places
  get_mapping vmapping emapping = map_places (length mapping) 0 vmapping emapping

pub length-in_order : (f : Mapping) (i : ℕ) → Assigned i f → length (in_order f) ≡ i
unfolding in_order
length-in_order [] i h = sym h
length-in_order ((v, c) ∷ f) i h =
    omega (arith, length-append (in_order f) ((v, c) ∷ []), length-in_order f v h.1, h.0)

-- The entry at place u of the vector is that of the vertex u.
pub in_order-at :
    (f : Mapping) (i u : ℕ) → Assigned i f → u < i → get_or (in_order f) u (0, 0) ≡ (u, image f u)
unfolding in_order
in_order-at [] i u h low = absurd (omega (arith, h, low))
in_order-at ((v, c) ∷ f) i u h low =
    let size = length-in_order f v h.1 in
    get_or-last (in_order f) (v, c) (0, 0) u ∙ elim (ℕ_discrete u v) [
      | yes e ↦ ground (arith, e, size)
      | no ne ↦ ground (arith, ne, size, in_order-at f v u h.1 (omega (arith, h.0, low, ne)))
    ]
