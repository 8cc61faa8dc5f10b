-- ===== src/IndependentSet/Selected.antt =====
-- The first loop of a round of src/graph/topology/graph_maximal_vertex_set.cc: where each vertex
-- goes.
use graph_tool.AdjList.{AdjList}
use graph_tool.AdjList.Valid.{IsValid, pair_count}
use graph_tool.Common.{
  Bool, List, [], arith, count, count-append, false, if◌then◌else◌, inl, inr, ltb, not, refl, subst,
  sym, true, ℕ, ◌++◌, ◌+◌, ◌<◌, ◌==◌, ◌||◌, ◌∙◌, ◌∷◌, ◌≡◌, ◌≢◌, ◌⊎◌,
}
use graph_tool.IndependentSet.{VertexSet, any_member, assign, select, select_all}
use graph_tool.IndependentSet.Adjacent.{adjacent_times-eq, any_member-found}
use graph_tool.Matching.Search.{if_rule}
use graph_tool.Undirected.{undirected_adjacent_vertices, undirected_out_degree}
use native.Mathlib.Decide.{ℕ_discrete}

-- No two vertices of the set are adjacent.
abbrev pub IsIndependent : AdjList → (ℕ → Bool) → Type 0
IsIndependent g mvs =
    (u v : ℕ)
    → u ≢ v
    → mvs u ≡ true
    → mvs v ≡ true
    → (pair_count u v g ≡ 0) × (pair_count v u g ≡ 0)

-- The vertex is in the set or adjacent to one in the set.
abbrev pub IsResolved : AdjList → (ℕ → Bool) → ℕ → Type 0
IsResolved g mvs v =
    (mvs v ≡ true) ⊎ ((a : ℕ) × (mvs a ≡ true) × (0 < pair_count v a g + pair_count a v g))

module _ (g : AdjList) (valid : IsValid g) where
  -- One set contains another.
  abbrev pub Within : (ℕ → Bool) → (ℕ → Bool) → Type 0
  Within small large = (v : ℕ) → small v ≡ true → large v ≡ true

  pub IsResolved-by :
      (small large : ℕ → Bool) (v : ℕ)
      → Within small large
      → IsResolved g small v
      → IsResolved g large v
  IsResolved-by small large v within (inl h) = inl (within v h)
  IsResolved-by small large v within (inr (a, h, near)) = inr (a, within a h, near)

  module _ (accept : ℕ → Bool) where
    -- The three outcomes for a vertex: passed over, selected, put off.
    abbrev passed_over : ℕ → VertexSet → VertexSet
    passed_over v s = record s { marked = assign v false s.marked }

    abbrev chosen : ℕ → VertexSet → VertexSet
    chosen v s = record s { marked = assign v true s.marked; selected = s.selected ++ v ∷ [] }

    abbrev put_off : ℕ → VertexSet → VertexSet
    put_off v s = record s { marked = assign v false s.marked; tmp = s.tmp ++ v ∷ [] }

    select_rule {κ} :
        (P : VertexSet → Type κ) (v : ℕ) (s : VertexSet)
        → (any_member s.mvs (undirected_adjacent_vertices v g) ≡ true → P (passed_over v s))
        → P (chosen v s)
        → P (put_off v s)
        → P (select accept g v s)
    unfolding select
    select_rule P v s p q r =
        let lucky = not (ltb 0 (undirected_out_degree v g)) || accept v in
        if_rule P (any_member s.mvs (undirected_adjacent_vertices v g)) (passed_over v s)
          (if lucky then chosen v s else put_off v s) p
          (λ _. if_rule P lucky (chosen v s) (put_off v s) (λ _. q) (λ _. r))

    select-mvs : (v : ℕ) (s : VertexSet) → (select accept g v s).mvs ≡ s.mvs
    select-mvs v s = select_rule (λ t. t.mvs ≡ s.mvs) v s (λ _. refl) refl refl

    -- A vertex is listed in `selected` or `tmp`.
    abbrev pub listed : ℕ → VertexSet → ℕ
    listed v s = count v s.selected + count v s.tmp

    select-listed :
        (u v : ℕ) (s : VertexSet)
        → (listed u (select accept g v s) ≡ listed u s + (if u == v then 1 else 0))
          ⊎ ((listed u (select accept g v s) ≡ listed u s) × IsResolved g s.mvs v)
    select-listed u v s =
        select_rule
          (λ t.
            (listed u t ≡ listed u s + (if u == v then 1 else 0))
            ⊎ ((listed u t ≡ listed u s) × IsResolved g s.mvs v))
          v s
          (λ found.
            let (a, member, near) =
              any_member-found s.mvs (undirected_adjacent_vertices v g) found in
            inr (refl, inr (a, member, omega (arith, near, adjacent_times-eq a v g valid))))
          (inl (omega (arith, count-append u s.selected (v ∷ []))))
          (inl (omega (arith, count-append u s.tmp (v ∷ []))))

    pub select_all-mvs : (vs : List ℕ) (s : VertexSet) → (select_all accept g vs s).mvs ≡ s.mvs
    unfolding select_all
    select_all-mvs [] s = refl
    select_all-mvs (v ∷ vs) s = select_all-mvs vs (select accept g v s) ∙ select-mvs v s

    pub select_all-listed :
        (u : ℕ) (vs : List ℕ) (s : VertexSet)
        → 0 < count u vs + listed u s
        → (0 < listed u (select_all accept g vs s)) ⊎ IsResolved g s.mvs u
    unfolding select_all
    select_all-listed u [] s h = inl (omega (arith, h))
    select_all-listed u (v ∷ vs) s h =
        let s' = select accept g v s in
        let later : 0 < count u vs + listed u s'
            → (0 < listed u (select_all accept g vs s')) ⊎ IsResolved g s.mvs u =
          λ k.
            subst (λ mvs. (0 < listed u (select_all accept g vs s')) ⊎ IsResolved g mvs u)
              (select-mvs v s) (select_all-listed u vs s' k) in
        elim (select-listed u v s) [
          | inl more ↦ later (ground (arith, h, more))
          | inr (even, resolved) ↦ elim (ℕ_discrete u v) [
            | yes e ↦ inr (subst (IsResolved g s.mvs) (sym e) resolved)
            | no ne ↦ later (ground (arith, h, even, ne))
          ]
        ]
