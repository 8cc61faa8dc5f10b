-- ===== src/Subgraph/Frames.antt =====
-- One entry of the stack of `find_mappings` in src/graph/topology/graph_subgraph_isomorphism.hh: its
-- matrix belongs to a copy of a part of `sub`, and each candidate extends that copy by a vertex.
use graph_tool.AdjList.{AdjList, Edge, num_vertices}
use graph_tool.AdjList.Valid.{IsValid, multiplicity, source_lt, target_lt}
use graph_tool.Common.{
  Bool, List, [], ap, arith, get_or, length, refl, suc, sym, true, ℕ, ◌<◌, ◌∙◌, ◌∷◌, ◌≡◌, ◌≢◌, ◌≤◌,
}
use graph_tool.Subgraph.{Mapping, Matrix, candidates, get_vertex, member}
use graph_tool.Subgraph.Check.{check_in, check_out}
use graph_tool.Subgraph.Mappings.{Assigned, Counterpart, Differs, Embeds, image}
use graph_tool.Subgraph.Refine.{check}
use mathlib.Core.Path.{ap₂}
use native.Mathlib.Decide.{ℕ_discrete}

module _ (vertex_labelling : ℕ → ℕ → Bool) (edge_labelling : Edge → Edge → Bool) (sub g : AdjList)
    (vlist vindex : List ℕ) where
  abbrev pub Part : ℕ → Mapping → Type 0
  Part = Embeds vertex_labelling edge_labelling sub g vlist

  -- The matrix m belongs to the mapping f of the vertices below i.
  pub record Belongs (i : ℕ) (f : Mapping) (m : Matrix) : Type 0 where
    pub part : Part i f
    pub size : length m ≡ num_vertices sub
    pub single : (u : ℕ) → u < i → candidates m u ≡ image f u ∷ []
    pub good :
        (u c : ℕ)
        → u < num_vertices sub
        → member c (candidates m u) ≡ true
        → (c < num_vertices g) × (vertex_labelling u (get_or vlist c 0) ≡ true)
    pub tested :
        (u c : ℕ)
        → 0 < i
        → i ≤ u
        → u < num_vertices sub
        → member c (candidates m u) ≡ true
        → Differs c f × (check edge_labelling sub g vlist vindex u c m ≡ true)
    pub short : (u : ℕ) → length (candidates m u) ≤ num_vertices g

  module _ (valid_sub : IsValid sub) (valid : IsValid g)
      (place : (v : ℕ) → v < num_vertices g → get_or vlist (get_or vindex v 0) 0 ≡ v)
      (no_loops : (e : Edge) → 0 < multiplicity e sub → e.source ≢ e.target) where
    member-single : (x c : ℕ) → member x (c ∷ []) ≡ true → x ≡ c
    unfolding member
    member-single x c h = ground (arith, h)

    module _ (i : ℕ) (f : Mapping) (m : Matrix) (c : ℕ) (b : Belongs i f m)
        (inside : i < num_vertices sub) (there : member c (candidates m i) ≡ true) where
      target_below : (e' : Edge) → 0 < multiplicity e' g → e'.target < num_vertices g
      target_below e' h = unfold num_vertices in omega (arith, target_lt valid e' h, valid.sizes)

      below : (u : ℕ) → u < suc i → i ≢ u → u < i
      below u h ne = omega (arith, h, ne)

      old : (u : ℕ) → i ≢ u → image ((i, c) ∷ f) u ≡ image f u
      old u ne = ground (arith, ne)

      at_i : (u : ℕ) → u ≡ i → image ((i, c) ∷ f) u ≡ c
      at_i u e = ground (arith, e)

      no_values : (h : Mapping) → i ≡ 0 → Assigned i h → Differs c h
      no_values [] start at_i = tt
      no_values ((v, d) ∷ h) start at_i = absurd (omega (arith, start, at_i.0))

      differs : Differs c f
      differs = elim (ℕ_discrete i 0) [
        | no more ↦ (b.tested i c (omega (arith, more)) (omega arith) inside there).0
        | yes start ↦ no_values f (start ∙ refl) b.part.assigned
      ]

      -- The vertex at the place of a vertex that is mapped.
      at_place :
          (u v : ℕ)
          → u < i
          → v < num_vertices g
          → member (get_or vindex v 0) (candidates m u) ≡ true
          → v ≡ get_or vlist (image ((i, c) ∷ f) u) 0
      at_place u v low low_v h =
          let only : get_or vindex v 0 ≡ image f u =
            member-single (get_or vindex v 0) (image f u)
              (ap (member (get_or vindex v 0)) (sym (b.single u low)) ∙ h) in
          sym (place v low_v)
          ∙ ap (λ x. get_or vlist x 0) (only ∙ sym (old u (λ e. absurd (omega (arith, e, low)))))

      Counterpart-out :
          (e : Edge)
          → 0 < multiplicity e sub
          → e.source ≡ i
          → e.target < i
          → Counterpart vertex_labelling edge_labelling sub g vlist ((i, c) ∷ f) e
      Counterpart-out e h at_s low =
          let (_, good) = b.tested i c (omega (arith, low)) (omega arith) inside there in
          let (e', ((from, there'), (within, alike))) =
            check_out edge_labelling sub g vlist vindex valid_sub valid i (get_or vlist c 0) m good
              e h at_s in
          (
            e',
            (
              there',
              (
                from ∙ ap (λ x. get_or vlist x 0) (sym (at_i e.source at_s)),
                (
                  at_place e.target e'.target low (target_below e' there')
                      (unfold get_vertex in within),
                  alike,
                ),
              ),
            ),
          )

      Counterpart-in :
          (e : Edge)
          → 0 < multiplicity e sub
          → e.target ≡ i
          → e.source < i
          → Counterpart vertex_labelling edge_labelling sub g vlist ((i, c) ∷ f) e
      Counterpart-in e h at_t low =
          let (_, good) = b.tested i c (omega (arith, low)) (omega arith) inside there in
          let (e', ((to, there'), (within, alike))) =
            check_in edge_labelling sub g vlist vindex valid_sub valid i (get_or vlist c 0) m good e
              h at_t in
          (
            e',
            (
              there',
              (
                at_place e.source e'.source low (unfold num_vertices in source_lt valid e' there')
                    (unfold get_vertex in within),
                (to ∙ ap (λ x. get_or vlist x 0) (sym (at_i e.target at_t)), alike),
              ),
            ),
          )

      -- A candidate of i extends the mapping to i.
      pub extend : Part (suc i) ((i, c) ∷ f)
      extend = record {
        assigned = (refl, b.part.assigned);
        distinct = (differs, b.part.distinct);
        labelled = λ u h. elim (ℕ_discrete i u) [
          | yes e ↦
              let (low, alike) = b.good i c inside there in
              (
                ground (arith, e, low),
                ap₂ (λ x v. vertex_labelling v (get_or vlist x 0)) (ground (arith, e)) (sym e)
                    ∙ alike,
              )
          | no ne ↦
              let (low, alike) = b.part.labelled u (omega (arith, h, ne)) in
              let same : image ((i, c) ∷ f) u ≡ image f u = ground (arith, ne) in
              (
                omega (arith, same, low),
                ap (λ x. vertex_labelling u (get_or vlist x 0)) same ∙ alike,
              )
        ];
        adjacent = λ e h low_s low_t. elim (ℕ_discrete i e.source) [
          | yes at_s ↦
              let low : e.target < i =
                below e.target low_t (λ at_t. no_loops e h (sym at_s ∙ at_t)) in
              Counterpart-out e h (sym at_s) low
          | no ns ↦ elim (ℕ_discrete i e.target) [
            | yes at_t ↦ Counterpart-in e h (sym at_t) (omega (arith, low_s, ns))
            | no nt ↦
                let (e', (there', (from, (to, alike)))) =
                  b.part.adjacent e h (omega (arith, low_s, ns)) (omega (arith, low_t, nt)) in
                (
                  e',
                  (
                    there',
                    (
                      from ∙ ap (λ x. get_or vlist x 0) (sym (old e.source ns)),
                      (to ∙ ap (λ x. get_or vlist x 0) (sym (old e.target nt)), alike),
                    ),
                  ),
                )
          ]
        ];
      }
