-- ===== src/Rewiring/Targets.antt =====
-- The table of `CorrelatedRewireStrategy` in src/graph/generation/graph_rewiring.hh: what its lists hold.
use graph_tool.AdjList.{AdjList, Edge}
use graph_tool.Common.{
  Bool, Bool-cases, List, [], ap, arith, false, get_or, inl, inr, length, length-append, refl, suc,
  zero, ℕ, ◌&&◌, ◌++◌, ◌+◌, ◌<◌, ◌==◌, ◌∙◌, ◌∷◌, ◌≡◌, ◌≤◌,
}
use graph_tool.Rewiring.{edge_at}
use graph_tool.Rewiring.Correlated.{EdgesByTarget, degrees_of, edges_by_target, push_place}

abbrev pub AllEntries : (ℕ × Bool → Type 0) → List (ℕ × Bool) → Type 0
AllEntries P [] = Unit {0}
AllEntries P (x ∷ xs) = P x × AllEntries P xs

AllEntries-append :
    (P : ℕ × Bool → Type 0) (xs : List (ℕ × Bool)) (x : ℕ × Bool)
    → AllEntries P xs
    → P x
    → AllEntries P (xs ++ x ∷ [])
AllEntries-append P [] x all h = (h, tt)
AllEntries-append P (y ∷ xs) x all h = (all.0, AllEntries-append P xs x all.1 h)

pub get_or-AllEntries :
    (P : ℕ × Bool → Type 0) (xs : List (ℕ × Bool)) (i : ℕ) (d : ℕ × Bool)
    → AllEntries P xs
    → i < length xs
    → P (get_or xs i d)
get_or-AllEntries P [] i d all h = absurd (omega (arith, h))
get_or-AllEntries P (x ∷ xs) zero d all h = all.0
get_or-AllEntries P (x ∷ xs) (suc i) d all h = get_or-AllEntries P xs i d all.1 (omega (arith, h))

pub pair_path {ℓ} : {A B : Type ℓ} (x y : A × B) → x.0 ≡ y.0 → x.1 ≡ y.1 → x ≡ y
pair_path x y p q = λ i. (p i, q i)

module _ (g : AdjList) (edges : List Edge) where
  -- An entry of the list for d is the place of an edge whose target has the degrees d.
  abbrev pub Entry : ℕ × ℕ → ℕ × Bool → Type 0
  Entry d x = (x.0 < length edges) × ((x.1 ≡ false) × (degrees_of (edge_at edges x.0).target g ≡ d))

  push_place-Entry :
      (e : Edge) (ei : ℕ) (table : EdgesByTarget) (d : ℕ × ℕ)
      → ei < length edges
      → edge_at edges ei ≡ e
      → AllEntries (Entry d) (table d)
      → AllEntries (Entry d) (push_place (degrees_of e.target g) ei table d)
  unfolding push_place
  push_place-Entry e ei table d low here all =
      let tdeg = degrees_of e.target g in
      elim (Bool-cases (d.0 == tdeg.0 && d.1 == tdeg.1)) [
        | inr other ↦ rw (push_place, other) all
        | inl hit ↦
            rw (push_place, hit)
              (AllEntries-append (Entry d) (table d) (ei, false) all
                (
                  low,
                  (
                    refl,
                    ap (λ x. degrees_of x.target g) here
                        ∙ pair_path tdeg d (ground (arith, hit)) (ground (arith, hit)),
                  ),
                ))
      ]

  pub edges_by_target-Entry :
      (es : List Edge) (ei : ℕ) (table : EdgesByTarget)
      → ei + length es ≡ length edges
      → ((i : ℕ) → edge_at edges (ei + i) ≡ edge_at es i)
      → ((d : ℕ × ℕ) → AllEntries (Entry d) (table d))
      → (d : ℕ × ℕ) → AllEntries (Entry d) (edges_by_target g ei es table d)
  unfolding edges_by_target
  edges_by_target-Entry [] ei table end agrees all d = all d
  edges_by_target-Entry (e ∷ es) ei table end agrees all d =
      edges_by_target-Entry es (suc ei) (push_place (degrees_of e.target g) ei table)
        (omega (arith, end)) (λ i. ap (edge_at edges) (omega arith) ∙ agrees (suc i))
        (λ d'.
          push_place-Entry e ei table d' (omega (arith, end))
            (ap (edge_at edges) (omega arith) ∙ agrees 0) (all d'))
        d

  push_place-longer :
      (tdeg d : ℕ × ℕ) (ei : ℕ) (table : EdgesByTarget)
      → length (table d) ≤ length (push_place tdeg ei table d)
  unfolding push_place
  push_place-longer tdeg d ei table = ground (arith, length-append (table d) ((ei, false) ∷ []))

  push_place-has :
      (tdeg : ℕ × ℕ) (ei : ℕ) (table : EdgesByTarget) → 0 < length (push_place tdeg ei table tdeg)
  unfolding push_place
  push_place-has tdeg ei table = ground (arith, length-append (table tdeg) ((ei, false) ∷ []))

  edges_by_target-longer :
      (es : List Edge) (ei : ℕ) (table : EdgesByTarget) (d : ℕ × ℕ)
      → length (table d) ≤ length (edges_by_target g ei es table d)
  unfolding edges_by_target
  edges_by_target-longer [] ei table d = omega arith
  edges_by_target-longer (e ∷ es) ei table d =
      let next = push_place (degrees_of e.target g) ei table in
      omega (
        arith,
        edges_by_target-longer es (suc ei) next d,
        push_place-longer (degrees_of e.target g) d ei table,
      )

  -- The list for the target of an edge is not empty.
  pub edges_by_target-has :
      (es : List Edge) (ei k : ℕ) (table : EdgesByTarget)
      → k < length es
      → 0 < length (edges_by_target g ei es table (degrees_of (edge_at es k).target g))
  unfolding edges_by_target
  edges_by_target-has [] ei k table h = absurd (omega (arith, h))
  edges_by_target-has (e ∷ es) ei zero table h = omega (
    arith,
    edges_by_target-longer es (suc ei) (push_place (degrees_of e.target g) ei table)
        (degrees_of e.target g),
    push_place-has (degrees_of e.target g) ei table,
  )
  edges_by_target-has (e ∷ es) ei (suc k) table h =
      edges_by_target-has es (suc ei) k (push_place (degrees_of e.target g) ei table)
        (omega (arith, h))
