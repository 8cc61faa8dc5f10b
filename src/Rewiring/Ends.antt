-- ===== src/Rewiring/Ends.antt =====
-- The swap of src/graph/generation/graph_rewiring.hh: where the ends of the edges in the vector go.
use graph_tool.AdjList.{AdjList, Edge, add_edge}
use graph_tool.AdjList.Adding.{new_edge}
use graph_tool.AdjList.Rows.{same}
use graph_tool.Common.{
  ap, arith, false, get_or-set, if◌then◌else◌, length, length-set, refl, subst, sym, ℕ, ◌<◌, ◌==◌,
  ◌∙◌, ◌≡◌, ◌≢◌,
}
use graph_tool.Rewiring.{Rewired, edge_at, no_edge, replace_edge, swap_target, without_pair}
use graph_tool.Rewiring.Moves.{swap_target-other, swap_target-same}
use graph_tool.Rewiring.Swap.{IsTracked}
use native.Mathlib.Decide.{ℕ_discrete}

replace_edge-at :
    (i s t k : ℕ) (r : Rewired)
    → i < length r.edges
    → edge_at (replace_edge i s t r).edges k
      ≡ (if i == k then new_edge s t r.graph else edge_at r.edges k)
unfolding replace_edge
replace_edge-at i s t k r h = get_or-set r.edges i k (new_edge s t r.graph) no_edge h

new_edge-ends :
    (s t : ℕ) (g : AdjList) → ((new_edge s t g).source ≡ s) × ((new_edge s t g).target ≡ t)
unfolding add_edge
new_edge-ends s t g = (refl, refl)

-- Under a function of vertices both ends of the edge x are as those of the edge y.
abbrev pub SameEnds {ℓ} : {A : Type ℓ} → (ℕ → A) → Edge → Edge → Type ℓ
SameEnds φ x y = (φ x.source ≡ φ y.source) × (φ x.target ≡ φ y.target)

module _ (φ : ℕ → ℕ × ℕ) where
  replace_edge-hit :
      (i s t : ℕ) (y : Edge) (r : Rewired)
      → i < length r.edges
      → φ s ≡ φ y.source
      → φ t ≡ φ y.target
      → SameEnds φ (edge_at (replace_edge i s t r).edges i) y
  replace_edge-hit i s t y r h at_s at_t =
      let here : edge_at (replace_edge i s t r).edges i ≡ new_edge s t r.graph =
        replace_edge-at i s t i r h ∙ ground arith in
      let (at_source, at_target) = new_edge-ends s t r.graph in
      (
        ap (λ e. φ e.source) here ∙ ap φ at_source ∙ at_s,
        ap (λ e. φ e.target) here ∙ ap φ at_target ∙ at_t,
      )

  replace_edge-missed :
      (i s t k : ℕ) (y : Edge) (r : Rewired)
      → i < length r.edges
      → i ≢ k
      → SameEnds φ (edge_at r.edges k) y
      → SameEnds φ (edge_at (replace_edge i s t r).edges k) y
  replace_edge-missed i s t k y r h ne old =
      let there : edge_at (replace_edge i s t r).edges k ≡ edge_at r.edges k =
        replace_edge-at i s t k r h ∙ ground (arith, ne) in
      (ap (λ e. φ e.source) there ∙ old.0, ap (λ e. φ e.target) there ∙ old.1)

  -- A swap with the edge at the place f, whose target is as that of the edge at the place e.
  pub swap_target-ends :
      (e f k : ℕ) (r : Rewired)
      → IsTracked r
      → e < length r.edges
      → f < length r.edges
      → φ (edge_at r.edges f).target ≡ φ (edge_at r.edges e).target
      → SameEnds φ (edge_at (swap_target e (f, false) r).edges k) (edge_at r.edges k)
  swap_target-ends e f k r tracked he hf alike = elim (ℕ_discrete e f) [
    | yes same ↦ rw (swap_target-same e f false r same) (refl, refl)
    | no ne ↦
        let first = edge_at r.edges e in
        let second = edge_at r.edges f in
        let left : Rewired = record r { graph = without_pair e f r } in
        let one = replace_edge e first.source second.target left in
        let hf' : f < length one.edges =
          unfold replace_edge in
          omega
            (arith, hf, length-set r.edges e (new_edge first.source second.target left.graph)) in
        rw (swap_target-other r e f tracked he hf ne false) (elim (ℕ_discrete f k) [
          | yes at_f ↦
              subst
                (λ j.
                  SameEnds φ (edge_at (replace_edge f second.source first.target one).edges j)
                    (edge_at r.edges j))
                at_f (replace_edge-hit f second.source first.target second one hf' refl (sym alike))
          | no not_f ↦
              replace_edge-missed f second.source first.target k (edge_at r.edges k) one hf' not_f
                (elim (ℕ_discrete e k) [
                  | yes at_e ↦
                      subst (λ j. SameEnds φ (edge_at one.edges j) (edge_at r.edges j)) at_e
                        (replace_edge-hit e first.source second.target first left he refl alike)
                  | no not_e ↦
                      replace_edge-missed e first.source second.target k (edge_at r.edges k) left he
                        not_e (refl, refl)
                ])
        ])
  ]
