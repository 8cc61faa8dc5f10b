-- ===== src/Matching/Best.antt =====
-- The search for an edge to match in src/graph/topology/graph_random_matching.cc: the weights of the
-- candidates.
use graph_tool.AdjList.{Edge}
use graph_tool.AdjList.OutEdges.{AllOf, append-AllOf}
use graph_tool.Common.{Bool, Bool-cases, List, [], arith, false, inl, inr, true, ℕ, ◌∷◌, ◌≡◌}
use graph_tool.Matching.{consider, improves, search}
use graph_tool.Matching.Search.{if_rule}

module _ {W : Type 0} (lt : W → W → Bool) (eq : W → W → Bool) (bound : W) (minimize : Bool)
    (weight : ℕ → W) where
  abbrev better : W → W → Bool
  better = improves lt eq bound minimize weight

  abbrev considered : (ℕ → Bool) → Edge → W × List Edge → W × List Edge
  considered = consider lt eq bound minimize weight

  abbrev found : (ℕ → Bool) → List Edge → W × List Edge → W × List Edge
  found = search lt eq bound minimize weight

  module _ (eq_refl : (w : W) → eq w w ≡ true) (irrefl : (w : W) → better w w ≡ false)
      (transitive : (a b c : W) → better a b ≡ true → better b c ≡ true → better a c ≡ true) where
    -- Once a weight does not improve on the best one, it never does again.
    better_stays : (w a b : W) → better a b ≡ true → better w b ≡ false → better w a ≡ false
    better_stays w a b h k = elim (Bool-cases (better w a)) [
      | inr no_better ↦ no_better
      | inl yes_better ↦ absurd (ground (arith, transitive w a b yes_better h, k))
    ]

    consider_least :
        (matched : ℕ → Bool) (e : Edge) (c : W × List Edge) (w : W)
        → better w c.0 ≡ false
        → better w (considered matched e c).0 ≡ false
    unfolding consider
    consider_least matched e (m, cs) w h =
        if_rule (λ (c : W × List Edge). better w c.0 ≡ false) (matched e.target) _ _ (λ _. h)
          (λ _.
            if_rule (λ (c : W × List Edge). better w c.0 ≡ false) (better (weight e.idx) m) _ _
              (λ improved. better_stays w (weight e.idx) m improved h) (λ _. h))

    consider_own :
        (matched : ℕ → Bool) (e : Edge) (c : W × List Edge)
        → matched e.target ≡ false
        → better (weight e.idx) (considered matched e c).0 ≡ false
    unfolding consider
    consider_own matched e (m, cs) free =
        if_rule (λ (c : W × List Edge). better (weight e.idx) c.0 ≡ false) (matched e.target) _ _
          (λ busy. absurd (ground (arith, busy, free)))
          (λ _.
            if_rule (λ (c : W × List Edge). better (weight e.idx) c.0 ≡ false)
              (better (weight e.idx) m) _ _ (λ _. irrefl (weight e.idx)) (λ worse. worse))

    consider_equal :
        (matched : ℕ → Bool) (e : Edge) (c : W × List Edge)
        → AllOf (λ f. eq (weight f.idx) c.0 ≡ true) c.1
        → AllOf
            (λ f. eq (weight f.idx) (considered matched e c).0 ≡ true)
            (considered matched e c).1
    unfolding consider
    consider_equal matched e (m, cs) all =
        if_rule (λ (c : W × List Edge). AllOf (λ f. eq (weight f.idx) c.0 ≡ true) c.1)
          (matched e.target) _ _ (λ _. all)
          (λ _.
            if_rule (λ (c : W × List Edge). AllOf (λ f. eq (weight f.idx) c.0 ≡ true) c.1)
              (better (weight e.idx) m) _ _
              (λ _.
                if_rule (AllOf (λ f. eq (weight f.idx) (weight e.idx) ≡ true))
                  (eq (weight e.idx) (weight e.idx)) _ _ (λ same_weight. (same_weight, tt))
                  (λ _. tt))
              (λ _.
                if_rule (AllOf (λ f. eq (weight f.idx) m ≡ true)) (eq (weight e.idx) m) _ _
                  (λ same_weight.
                    append-AllOf (λ f. eq (weight f.idx) m ≡ true) cs e all same_weight)
                  (λ _. all)))

    search_least :
        (matched : ℕ → Bool) (es : List Edge) (c : W × List Edge) (w : W)
        → better w c.0 ≡ false
        → better w (found matched es c).0 ≡ false
    unfolding search
    search_least matched [] c w h = h
    search_least matched (e ∷ es) c w h =
        search_least matched es (considered matched e c) w (consider_least matched e c w h)

    pub search_own :
        (matched : ℕ → Bool) (es : List Edge) (c : W × List Edge)
        → AllOf
            (λ e. matched e.target ≡ false → better (weight e.idx) (found matched es c).0 ≡ false)
            es
    unfolding search
    search_own matched [] c = tt
    search_own matched (e ∷ es) c = (
      λ free.
          search_least matched es (considered matched e c) (weight e.idx)
            (consider_own matched e c free),
      search_own matched es (considered matched e c),
    )

    pub search_equal :
        (matched : ℕ → Bool) (es : List Edge) (c : W × List Edge)
        → AllOf (λ f. eq (weight f.idx) c.0 ≡ true) c.1
        → AllOf (λ f. eq (weight f.idx) (found matched es c).0 ≡ true) (found matched es c).1
    unfolding search
    search_equal matched [] c all = all
    search_equal matched (e ∷ es) c all =
        search_equal matched es (considered matched e c) (consider_equal matched e c all)
