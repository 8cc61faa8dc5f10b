-- ===== src/Matching/Search.antt =====
-- The search for an edge to match in src/graph/topology/graph_random_matching.cc: which edges are
-- candidates.
use graph_tool.AdjList.{Edge}
use graph_tool.AdjList.OutEdges.{AllOf, append-AllOf}
use graph_tool.Common.{
  Bool, Bool-cases, List, [], ap, arith, false, if◌then◌else◌, inl, inr, length, length-append,
  refl, subst, sym, true, ℕ, ◌<◌, ◌∙◌, ◌∷◌, ◌≡◌,
}
use graph_tool.Matching.{consider, improves, search}

empty-lt : ¬ (0 < 0)
empty-lt h = omega arith

-- A property of both branches, each under its test.
pub if_rule {ℓ κ} :
    {A : Type ℓ} (P : A → Type κ) (b : Bool) (x y : A)
    → (b ≡ true → P x)
    → (b ≡ false → P y)
    → P (if b then x else y)
if_rule P true x y p q = p refl
if_rule P false x y p q = q refl

module _ {W : Type 0} (lt : W → W → Bool) (eq : W → W → Bool) (bound : W) (minimize : Bool)
    (weight : ℕ → W) where
  abbrev found : (ℕ → Bool) → List Edge → W × List Edge → W × List Edge
  found matched es c = search lt eq bound minimize weight matched es c

  consider-AllOf :
      (P : Edge → Type 0) (matched : ℕ → Bool) (e : Edge) (c : W × List Edge)
      → AllOf P c.1
      → (matched e.target ≡ false → P e)
      → AllOf P (consider lt eq bound minimize weight matched e c).1
  unfolding consider
  consider-AllOf P matched e (min_w, cs) all p =
      if_rule (λ (c : W × List Edge). AllOf P c.1) (matched e.target) _ _ (λ _. all)
        (λ free.
          if_rule (λ (c : W × List Edge). AllOf P c.1)
            (improves lt eq bound minimize weight (weight e.idx) min_w) _ _
            (λ _.
              if_rule (AllOf P) (eq (weight e.idx) (weight e.idx)) _ _ (λ _. (p free, tt))
                (λ _. tt))
            (λ _.
              if_rule (AllOf P) (eq (weight e.idx) min_w) _ _
                (λ _. append-AllOf P cs e all (p free)) (λ _. all)))

  -- The candidates lead to unmatched vertices, and have every property of the edges passed.
  pub search-AllOf :
      (P : Edge → Type 0) (matched : ℕ → Bool) (es : List Edge) (c : W × List Edge)
      → AllOf (λ e. P e × (matched e.target ≡ false)) c.1
      → AllOf P es
      → AllOf (λ e. P e × (matched e.target ≡ false)) (found matched es c).1
  unfolding search
  search-AllOf P matched [] c all ps = all
  search-AllOf P matched (e ∷ es) c all ps =
      search-AllOf P matched es (consider lt eq bound minimize weight matched e c)
        (consider-AllOf (λ f. P f × (matched f.target ≡ false)) matched e c all
          (λ free. (ps.0, free)))
        ps.1

  module _ (eq_refl : (w : W) → eq w w ≡ true)
      (reaches : (w : W)
        → improves lt eq bound minimize weight w bound ≡ false
        → eq w bound ≡ true) where
    consider-keeps :
        (matched : ℕ → Bool) (e : Edge) (c : W × List Edge)
        → 0 < length c.1
        → 0 < length (consider lt eq bound minimize weight matched e c).1
    unfolding consider
    consider-keeps matched e (min_w, cs) h =
        if_rule (λ (c : W × List Edge). 0 < length c.1) (matched e.target) _ _ (λ _. h)
          (λ _.
            if_rule (λ (c : W × List Edge). 0 < length c.1)
              (improves lt eq bound minimize weight (weight e.idx) min_w) _ _
              (λ _. ground (arith, eq_refl (weight e.idx)))
              (λ _. ground (arith, length-append cs (e ∷ []))))

    search-keeps :
        (matched : ℕ → Bool) (es : List Edge) (c : W × List Edge)
        → 0 < length c.1
        → 0 < length (found matched es c).1
    unfolding search
    search-keeps matched [] c h = h
    search-keeps matched (e ∷ es) c h = search-keeps matched es _ (consider-keeps matched e c h)

    consider-first :
        (matched : ℕ → Bool) (e : Edge)
        → matched e.target ≡ false
        → 0 < length (consider lt eq bound minimize weight matched e (bound, [])).1
    unfolding consider
    consider-first matched e free =
        if_rule (λ (c : W × List Edge). 0 < length c.1) (matched e.target) _ _
          (λ h. absurd (ground (arith, h, free)))
          (λ _.
            if_rule (λ (c : W × List Edge). 0 < length c.1)
              (improves lt eq bound minimize weight (weight e.idx) bound) _ _
              (λ _. ground (arith, eq_refl (weight e.idx)))
              (λ worse. ground (arith, reaches (weight e.idx) worse)))

    consider-busy :
        (matched : ℕ → Bool) (e : Edge) (c : W × List Edge)
        → matched e.target ≡ true
        → consider lt eq bound minimize weight matched e c ≡ c
    unfolding consider
    consider-busy matched e (min_w, cs) busy = rw busy refl

    -- Without candidates, every edge leads to a matched vertex.
    pub search-none :
        (matched : ℕ → Bool) (es : List Edge)
        → (found matched es (bound, [])).1 ≡ []
        → AllOf (λ e. matched e.target ≡ true) es
    unfolding search
    search-none matched [] h = tt
    search-none matched (e ∷ es) h = elim (Bool-cases (matched e.target)) [
      | inl busy ↦ (
        busy,
        search-none matched es
            (ap (λ c. (found matched es c).1) (sym (consider-busy matched e (bound, []) busy)) ∙ h),
      )
      | inr free ↦ absurd (
          empty-lt (
            subst (λ cs. 0 < length cs) h
              (search-keeps matched es _ (consider-first matched e free))))
    ]
