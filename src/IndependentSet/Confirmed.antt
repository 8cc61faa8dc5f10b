-- ===== src/IndependentSet/Confirmed.antt =====
-- The second loop of a round of src/graph/topology/graph_maximal_vertex_set.cc: who joins the set,
-- and where the others go.
use graph_tool.AdjList.{AdjList}
use graph_tool.AdjList.Valid.{IsValid, pair_count}
use graph_tool.Common.{
  Bool, List, [], arith, count, count-append, false, if◌then◌else◌, inl, inr, refl, subst, sym,
  true, ℕ, ◌++◌, ◌+◌, ◌<◌, ◌==◌, ◌∙◌, ◌∷◌, ◌≡◌, ◌≢◌, ◌⊎◌,
}
use graph_tool.IndependentSet.{VertexSet, assign, confirm, confirm_all, scan}
use graph_tool.IndependentSet.Adjacent.{adjacent_times-eq, scan-free}
use graph_tool.IndependentSet.Selected.{IsIndependent, IsResolved, Within, IsResolved-by}
use graph_tool.Matching.Search.{if_rule}
use graph_tool.Undirected.{undirected_adjacent_vertices}
use native.Mathlib.Decide.{ℕ_discrete}

module _ (g : AdjList) (valid : IsValid g) (high_deg : Bool) where
  -- The two outcomes for a vertex.
  abbrev joined : ℕ → VertexSet → VertexSet
  joined v s = record s { mvs = assign v true s.mvs; marked = assign v false s.marked }

  abbrev refused : ℕ → VertexSet → VertexSet
  refused v s = record s { tmp = s.tmp ++ v ∷ []; marked = assign v false s.marked }

  abbrev included : ℕ → VertexSet → Bool
  included v s = scan high_deg g v s (undirected_adjacent_vertices v g)

  confirm_rule {κ} :
      (P : VertexSet → Type κ) (v : ℕ) (s : VertexSet)
      → (included v s ≡ true → P (joined v s))
      → P (refused v s)
      → P (confirm high_deg g v s)
  unfolding confirm
  confirm_rule P v s p q = if_rule P (included v s) (joined v s) (refused v s) p (λ _. q)

  assign-Within : (v : ℕ) (mvs : ℕ → Bool) → Within g valid mvs (assign v true mvs)
  unfolding assign
  assign-Within v mvs u h = ground (arith, h)

  assign-same : (v : ℕ) (mvs : ℕ → Bool) → assign v true mvs v ≡ true
  unfolding assign
  assign-same v mvs = ground arith

  assign-cases :
      (v : ℕ) (mvs : ℕ → Bool) (u : ℕ) → assign v true mvs u ≡ true → (u ≡ v) ⊎ (mvs u ≡ true)
  unfolding assign
  assign-cases v mvs u h = elim (ℕ_discrete u v) [
    | yes e ↦ inl e
    | no ne ↦ inr (ground (arith, ne, h))
  ]

  -- No member but v itself is adjacent to a vertex that is included.
  apart_from :
      (v u : ℕ) (s : VertexSet)
      → included v s ≡ true
      → u ≢ v
      → s.mvs u ≡ true
      → pair_count v u g + pair_count u v g ≡ 0
  apart_from v u s h ne member = elim (ℕ_discrete (pair_count v u g + pair_count u v g) 0) [
    | yes e ↦ e
    | no near ↦ absurd (
        ground (
          arith,
          member,
          scan-free high_deg g v s (undirected_adjacent_vertices v g) u h ne
              (omega (arith, near, adjacent_times-eq u v g valid)),
        ))
  ]

  joined-IsIndependent :
      (v : ℕ) (s : VertexSet)
      → included v s ≡ true
      → IsIndependent g s.mvs
      → IsIndependent g (assign v true s.mvs)
  joined-IsIndependent v s h ind u w ne in_u in_w = elim (assign-cases v s.mvs u in_u) [
    | inl eu ↦ elim (assign-cases v s.mvs w in_w) [
      | inl ew ↦ absurd (ne (eu ∙ sym ew))
      | inr old ↦
          subst (λ x. (pair_count x w g ≡ 0) × (pair_count w x g ≡ 0)) (sym eu)
            (let none_left = apart_from v w s h (λ e. ne (eu ∙ sym e)) old in
              (omega (arith, none_left), omega (arith, none_left)))
    ]
    | inr old ↦ elim (assign-cases v s.mvs w in_w) [
      | inl ew ↦
          subst (λ x. (pair_count u x g ≡ 0) × (pair_count x u g ≡ 0)) (sym ew)
            (let none_left = apart_from v u s h (λ e. ne (e ∙ sym ew)) old in
              (omega (arith, none_left), omega (arith, none_left)))
      | inr old' ↦ ind u w ne old old'
    ]
  ]

  confirm-IsIndependent :
      (v : ℕ) (s : VertexSet) → IsIndependent g s.mvs → IsIndependent g (confirm high_deg g v s).mvs
  confirm-IsIndependent v s ind =
      confirm_rule (λ t. IsIndependent g t.mvs) v s (λ h. joined-IsIndependent v s h ind) ind

  confirm-Within : (v : ℕ) (s : VertexSet) → Within g valid s.mvs (confirm high_deg g v s).mvs
  confirm-Within v s =
      confirm_rule (λ t. Within g valid s.mvs t.mvs) v s (λ _. assign-Within v s.mvs) (λ u h. h)

  confirm-left :
      (u v : ℕ) (s : VertexSet)
      → (count u (confirm high_deg g v s).tmp ≡ count u s.tmp + (if u == v then 1 else 0))
        ⊎ ((count u (confirm high_deg g v s).tmp ≡ count u s.tmp)
            × IsResolved g (confirm high_deg g v s).mvs v)
  confirm-left u v s =
      confirm_rule
        (λ t.
          (count u t.tmp ≡ count u s.tmp + (if u == v then 1 else 0))
          ⊎ ((count u t.tmp ≡ count u s.tmp) × IsResolved g t.mvs v))
        v s (λ _. inr (refl, inl (assign-same v s.mvs)))
        (inl (omega (arith, count-append u s.tmp (v ∷ []))))

  pub confirm_all-IsIndependent :
      (vs : List ℕ) (s : VertexSet)
      → IsIndependent g s.mvs
      → IsIndependent g (confirm_all high_deg g vs s).mvs
  unfolding confirm_all
  confirm_all-IsIndependent [] s ind = ind
  confirm_all-IsIndependent (v ∷ vs) s ind =
      confirm_all-IsIndependent vs (confirm high_deg g v s) (confirm-IsIndependent v s ind)

  pub confirm_all-Within :
      (vs : List ℕ) (s : VertexSet) → Within g valid s.mvs (confirm_all high_deg g vs s).mvs
  unfolding confirm_all
  confirm_all-Within [] s u h = h
  confirm_all-Within (v ∷ vs) s u h =
      confirm_all-Within vs (confirm high_deg g v s) u (confirm-Within v s u h)

  pub confirm_all-left :
      (u : ℕ) (vs : List ℕ) (s : VertexSet)
      → 0 < count u vs + count u s.tmp
      → (0 < count u (confirm_all high_deg g vs s).tmp)
        ⊎ IsResolved g (confirm_all high_deg g vs s).mvs u
  unfolding confirm_all
  confirm_all-left u [] s h = inl (omega (arith, h))
  confirm_all-left u (v ∷ vs) s h = elim (confirm-left u v s) [
    | inl more ↦ confirm_all-left u vs (confirm high_deg g v s) (ground (arith, h, more))
    | inr (even, resolved) ↦ elim (ℕ_discrete u v) [
      | yes e ↦ inr (
          IsResolved-by g valid _ _ u (confirm_all-Within vs (confirm high_deg g v s))
            (subst (IsResolved g (confirm high_deg g v s).mvs) (sym e) resolved))
      | no ne ↦ confirm_all-left u vs (confirm high_deg g v s) (ground (arith, h, even, ne))
    ]
  ]
