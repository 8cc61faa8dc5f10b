-- ===== src/Subgraph/Mappings.antt =====
-- Mappings of src/graph/topology/graph_subgraph_isomorphism.hh: what a partial copy of `sub` is.
use graph_tool.AdjList.{AdjList, Edge, num_vertices}
use graph_tool.AdjList.Rows.{same}
use graph_tool.AdjList.Valid.{multiplicity}
use graph_tool.Common.{
  Bool, List, [], ap, arith, false, get_or, if◌then◌else◌, set, suc, sym, true, ℕ, ◌<◌, ◌==◌, ◌∙◌,
  ◌∷◌, ◌≡◌, ◌≢◌,
}
use graph_tool.Subgraph.{Mapping, erase, insert, member}
use graph_tool.Subgraph.Rows.{member-erase, member-insert}
use native.Mathlib.Decide.{ℕ_discrete}

-- The place that a mapping gives a vertex.
abbrev pub image : Mapping → ℕ → ℕ
image [] u = 0
image ((v, c) ∷ f) u = if v == u then c else image f u

-- The mapping gives places to the vertices below i, the last one first.
abbrev pub Assigned : ℕ → Mapping → Type 0
Assigned i [] = i ≡ 0
Assigned i ((v, c) ∷ f) = (i ≡ suc v) × Assigned v f

-- No vertex has the place c.
abbrev pub Differs : ℕ → Mapping → Type 0
Differs c [] = Unit {0}
Differs c ((v, d) ∷ f) = (c ≢ d) × Differs c f

abbrev pub Distinct : Mapping → Type 0
Distinct [] = Unit {0}
Distinct ((v, c) ∷ f) = Differs c f × Distinct f

-- All places are in the set.
abbrev pub AllMapped : Mapping → List ℕ → Type 0
AllMapped [] set = Unit {0}
AllMapped ((v, c) ∷ f) set = (member c set ≡ true) × AllMapped f set

pub AllMapped-insert :
    (f : Mapping) (c : ℕ) (set : List ℕ) → AllMapped f set → AllMapped f (insert c set)
AllMapped-insert [] c set all = tt
AllMapped-insert ((v, d) ∷ f) c set all =
    (ground (arith, all.0, member-insert d c set), AllMapped-insert f c set all.1)

pub AllMapped-erase :
    (f : Mapping) (c : ℕ) (set : List ℕ) → AllMapped f set → Differs c f → AllMapped f (erase c set)
AllMapped-erase [] c set all other = tt
AllMapped-erase ((v, d) ∷ f) c set all other =
    (ground (arith, all.0, other.0, member-erase d c set), AllMapped-erase f c set all.1 other.1)

pub Differs-unmapped :
    (f : Mapping) (c : ℕ) (set : List ℕ) → AllMapped f set → member c set ≡ false → Differs c f
Differs-unmapped [] c set all out = tt
Differs-unmapped ((v, d) ∷ f) c set all out = (
  λ e. absurd (ground (arith, out, ap (λ x. member x set) e, all.0)),
  Differs-unmapped f c set all.1 out,
)

pub Differs-image : (f : Mapping) (c i u : ℕ) → Assigned i f → Differs c f → u < i → image f u ≢ c
Differs-image [] c i u at_i other h = absurd (omega (arith, at_i, h))
Differs-image ((v, d) ∷ f) c i u at_i other h = elim (ℕ_discrete v u) [
  | yes e ↦ λ same. other.0 (ground (arith, e, same))
  | no ne ↦ λ same.
      Differs-image f c v u at_i.1 other.1 (omega (arith, at_i.0, ne, h)) (ground (arith, ne, same))
]

-- Different vertices have different places.
pub Distinct-image :
    (f : Mapping) (i u w : ℕ)
    → Assigned i f
    → Distinct f
    → u < i
    → w < i
    → image f u ≡ image f w
    → u ≡ w
Distinct-image [] i u w at_i all hu hw same = absurd (omega (arith, at_i, hu))
Distinct-image ((v, c) ∷ f) i u w at_i all hu hw same = elim (ℕ_discrete v u) [
  | yes eu ↦ elim (ℕ_discrete v w) [
    | yes ew ↦ sym eu ∙ ew
    | no nw ↦ absurd (
        Differs-image f c v w at_i.1 all.0 (omega (arith, at_i.0, nw, hw))
          (ground (arith, eu, nw, same)))
  ]
  | no nu ↦ elim (ℕ_discrete v w) [
    | yes ew ↦ absurd (
        Differs-image f c v u at_i.1 all.0 (omega (arith, at_i.0, nu, hu))
          (ground (arith, ew, nu, same)))
    | no nw ↦
        Distinct-image f v u w at_i.1 all.1 (omega (arith, at_i.0, nu, hu))
          (omega (arith, at_i.0, nw, hw)) (ground (arith, nu, nw, same))
  ]
]

module _ (vertex_labelling : ℕ → ℕ → Bool) (edge_labelling : Edge → Edge → Bool) (sub g : AdjList)
    (vlist : List ℕ) where
  -- The vertex of g that a mapping gives the vertex u of `sub`.
  abbrev pub target_of : Mapping → ℕ → ℕ
  target_of f u = get_or vlist (image f u) 0

  -- The edge e has a counterpart between the images of its ends, with the same label.
  abbrev pub Counterpart : Mapping → Edge → Type 0
  Counterpart f e =
      (e' : Edge) × ((0 < multiplicity e' g)
        × ((e'.source ≡ target_of f e.source)
            × ((e'.target ≡ target_of f e.target) × (edge_labelling e e' ≡ true))))

  -- The mapping is a copy of the part of `sub` below i in g: different vertices have different places,
  -- labels agree, and each edge has a counterpart.
  pub record Embeds (i : ℕ) (f : Mapping) : Type 0 where
    pub assigned : Assigned i f
    pub distinct : Distinct f
    pub labelled :
        (u : ℕ) → u < i → (image f u < num_vertices g) × (vertex_labelling u (target_of f u) ≡ true)
    pub adjacent :
        (e : Edge) → 0 < multiplicity e sub → e.source < i → e.target < i → Counterpart f e
