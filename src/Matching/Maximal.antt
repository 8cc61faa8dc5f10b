-- ===== src/Matching/Maximal.antt =====
-- src/graph/topology/graph_random_matching.cc: the edges that are left unmarked.
use graph_tool.AdjList.{AdjList, Edge, num_vertices, out_edges}
use graph_tool.AdjList.OutEdges.{out_edges-All}
use graph_tool.AdjList.Valid.{IsValid, multiplicity, source_lt}
use graph_tool.Common.{
  Bool, List, [], arith, count, false, get_or, inl, inr, length, refl, subst, true, ℕ, ◌<◌, ◌∷◌,
  ◌≡◌, ◌≤◌, ◌⊎◌,
}
use graph_tool.Matching.{
  Matching, choose, improves, mark, match_vertex, match_vertices, permutation, random_matching,
  search, vertices,
}
use graph_tool.Matching.Correct.{match_vertices-Inv, start-Inv}
use graph_tool.Matching.Permutation.{all_passed, count-vertices}
use graph_tool.Matching.Search.{if_rule, search-none}
use graph_tool.Matching.Step.{IsMatched, mark-keeps, mark_self}
use native.Mathlib.Decide.{ℕ_discrete}

-- Every edge of the graph has an end at which a marked edge ends.
abbrev pub IsMaximal : AdjList → (ℕ → Bool) → Type 0
IsMaximal g match_map =
    (e : Edge)
    → 0 < multiplicity e g
    → IsMatched g match_map e.source ⊎ IsMatched g match_map e.target

module _ {W : Type 0} (lt : W → W → Bool) (eq : W → W → Bool) (bound : W) (minimize : Bool)
    (weight : ℕ → W) (pick : ℕ → ℕ → ℕ) {g : AdjList} (valid : IsValid g) where
  abbrev one_round : ℕ → Matching → Matching
  one_round v m = match_vertex lt eq bound minimize weight pick g v m

  abbrev rounds : List ℕ → Matching → Matching
  rounds vs m = match_vertices lt eq bound minimize weight pick g vs m

  abbrev target_of : ℕ → Edge → List Edge → ℕ
  target_of v c cs = (get_or (c ∷ cs) (pick v (length cs)) c).target

  choose-keeps :
      (v u : ℕ) (cs : List Edge) (m : Matching)
      → m.matched u ≡ true
      → (choose lt eq bound minimize weight pick v cs m).matched u ≡ true
  unfolding choose
  choose-keeps v u [] m h = h
  choose-keeps v u (c ∷ cs) m h =
      mark-keeps (target_of v c cs) (mark v m.matched) u (mark-keeps v m.matched u h)

  choose-takes :
      (v : ℕ) (cs : List Edge) (m : Matching)
      → (cs ≡ []) ⊎ ((choose lt eq bound minimize weight pick v cs m).matched v ≡ true)
  unfolding choose
  choose-takes v [] m = inl refl
  choose-takes v (c ∷ cs) m =
      inr (mark-keeps (target_of v c cs) (mark v m.matched) v (mark_self v m.matched v refl))

  match_vertex-keeps :
      (v u : ℕ) (m : Matching) → m.matched u ≡ true → (one_round v m).matched u ≡ true
  unfolding match_vertex
  match_vertex-keeps v u m h =
      if_rule (λ (n : Matching). n.matched u ≡ true) (m.matched v) _ _ (λ _. h)
        (λ _. choose-keeps v u _ m h)

  match_vertices-keeps :
      (vs : List ℕ) (u : ℕ) (m : Matching) → m.matched u ≡ true → (rounds vs m).matched u ≡ true
  unfolding match_vertices
  match_vertices-keeps [] u m h = h
  match_vertices-keeps (v ∷ vs) u m h =
      match_vertices-keeps vs u (one_round v m) (match_vertex-keeps v u m h)

  -- An edge has a matched end.
  abbrev Settled : Matching → Edge → Type 0
  Settled m e = (m.matched e.source ≡ true) ⊎ (m.matched e.target ≡ true)

  module _ (eq_refl : (w : W) → eq w w ≡ true)
      (reaches : (w : W)
        → improves lt eq bound minimize weight w bound ≡ false
        → eq w bound ≡ true) where
    match_vertex-Settled :
        (e : Edge) (m : Matching) → 0 < multiplicity e g → Settled (one_round e.source m) e
    unfolding match_vertex
    match_vertex-Settled e m in_e =
        if_rule (λ n. Settled n e) (m.matched e.source) _ _ inl
          (λ free.
            elim (choose-takes e.source
              (search lt eq bound minimize weight m.matched (out_edges e.source g) (bound, [])).1
              m) [
                | inr taken ↦ inl taken
                | inl without ↦ inr (
                    choose-keeps e.source e.target _ m (
                      out_edges-All g (λ f. m.matched f.target ≡ true) e
                        (search-none lt eq bound minimize weight eq_refl reaches m.matched
                          (out_edges e.source g) without)
                        in_e))
              ])

    match_vertices-Settled :
        (e : Edge) (vs : List ℕ) (m : Matching)
        → 0 < multiplicity e g
        → 0 < count e.source vs
        → Settled (rounds vs m) e
    unfolding match_vertices
    match_vertices-Settled e [] m in_e h = absurd (omega arith)
    match_vertices-Settled e (v ∷ vs) m in_e h = elim (ℕ_discrete e.source v) [
      | no ne ↦ match_vertices-Settled e vs (one_round v m) in_e (ground (arith, ne))
      | yes at_v ↦
          elim (subst (λ u. Settled (one_round u m) e) at_v (match_vertex-Settled e m in_e)) [
            | inl s ↦ inl (match_vertices-keeps vs e.source _ s)
            | inr t ↦ inr (match_vertices-keeps vs e.target _ t)
          ]
    ]

    -- In a well-formed graph where no edge is marked before, where `==` on weights is reflexive,
    -- the search's bound is equal to every weight that does not improve on it, and draws stay
    -- within their bounds, `random_matching` marks so many edges that every edge of the graph has
    -- an end in common with a marked one.
    pub random_matching-IsMaximal :
        (draw : ℕ → ℕ) (match_map : ℕ → Bool)
        → ((n : ℕ) → draw n ≤ n)
        → ((i : ℕ) → match_map i ≡ false)
        → IsMaximal g (random_matching lt eq bound minimize weight draw pick g match_map)
    unfolding random_matching num_vertices
    random_matching-IsMaximal draw match_map within unset e in_e =
        let n = num_vertices g in
        let order = permutation draw n (vertices 0 n) in
        let start : Matching = record { matched = λ _. false; match_map = match_map } in
        let inv =
          match_vertices-Inv lt eq bound minimize weight pick valid order start
            (start-Inv lt eq bound minimize weight pick valid match_map unset) in
        let seen =
          count-vertices e.source 0 n (omega arith) (omega (arith, source_lt valid e in_e)) in
        elim (match_vertices-Settled e order start in_e (all_passed draw within e.source n seen)) [
          | inl s ↦ inl (inv.witnessed e.source s)
          | inr t ↦ inr (inv.witnessed e.target t)
        ]
