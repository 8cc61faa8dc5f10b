-- ===== src/PropertyMap/View.antt =====
-- The vectors of src/graph/fast_vector_property_map.hh as what they stand for, "a vector of infinite
-- size": a total function that reads `T()` beyond the end.
use graph_tool.Common.{
  List, [], ap, arith, get_or, get_or-set, if◌then◌else◌, length, refl, set, suc, zero, ℕ, ◌++◌,
  ◌<◌, ◌==◌, ◌∷◌, ◌≡◌, ◌≤◌,
}
use graph_tool.PropertyMap.{Vectors, resize}
use native.Mathlib.Decide.{ℕ_discrete}

module _ {ℓ} {T : Type ℓ} (default : T) where
  -- The value that a map with the vector at place p has at index i.
  abbrev pub view : Vectors T → ℕ → ℕ → T
  view vectors p i = get_or (get_or vectors p []) i default

  pub get_or-beyond : (xs : List T) (i : ℕ) → length xs ≤ i → get_or xs i default ≡ default
  get_or-beyond [] i h = refl
  get_or-beyond (x ∷ xs) zero h = absurd (omega arith)
  get_or-beyond (x ∷ xs) (suc i) h = get_or-beyond xs i (omega arith)

  pub length-resize : (n : ℕ) (xs : List T) → length (resize default n xs) ≡ n
  unfolding resize
  length-resize zero xs = refl
  length-resize (suc n) [] = ap suc (length-resize n [])
  length-resize (suc n) (x ∷ xs) = ap suc (length-resize n xs)

  -- A vector that does not shrink stands for the same function.
  pub get_or-resize :
      (n : ℕ) (xs : List T) (i : ℕ)
      → length xs ≤ n
      → get_or (resize default n xs) i default ≡ get_or xs i default
  unfolding resize
  get_or-resize zero [] i h = refl
  get_or-resize zero (x ∷ xs) i h = absurd (omega arith)
  get_or-resize (suc n) [] zero h = refl
  get_or-resize (suc n) [] (suc i) h = get_or-resize n [] i (omega arith)
  get_or-resize (suc n) (x ∷ xs) zero h = refl
  get_or-resize (suc n) (x ∷ xs) (suc i) h = get_or-resize n xs i (omega arith)

  -- Replacing the vector at p.
  pub view-set :
      (vectors : Vectors T) (p : ℕ) (xs : List T) (q i : ℕ)
      → p < length vectors
      → view (set vectors p xs) q i ≡ (if p == q then get_or xs i default else view vectors q i)
  view-set vectors p xs q i h = elim (ℕ_discrete p q) [
    | yes e ↦ ground (arith, e, ap (λ ys. get_or ys i default) (get_or-set vectors p q xs [] h))
    | no ne ↦ ground (arith, ne, ap (λ ys. get_or ys i default) (get_or-set vectors p q xs [] h))
  ]

  pub view-resize :
      (vectors : Vectors T) (p n q i : ℕ)
      → p < length vectors
      → length (get_or vectors p []) ≤ n
      → view (set vectors p (resize default n (get_or vectors p []))) q i ≡ view vectors q i
  view-resize vectors p n q i h le = elim (ℕ_discrete p q) [
    | yes e ↦ ground (
      arith,
      e,
      view-set vectors p (resize default n (get_or vectors p [])) q i h,
      get_or-resize n (get_or vectors p []) i le,
      ap (λ r. view vectors r i) e,
    )
    | no ne ↦ ground (arith, ne, view-set vectors p (resize default n (get_or vectors p [])) q i h)
  ]

  -- A new vector at the end changes no other.
  pub view-append :
      (vectors : Vectors T) (xs : List T) (q i : ℕ)
      → view (vectors ++ xs ∷ []) q i
        ≡ (if q == length vectors then get_or xs i default else view vectors q i)
  view-append [] xs zero i = ground arith
  view-append [] xs (suc q) i = ground arith
  view-append (ys ∷ vectors) xs zero i = ground arith
  view-append (ys ∷ vectors) xs (suc q) i = ground (arith, view-append vectors xs q i)

  pub get_or-append_end :
      (vectors : Vectors T) (xs : List T) → get_or (vectors ++ xs ∷ []) (length vectors) [] ≡ xs
  get_or-append_end [] xs = refl
  get_or-append_end (ys ∷ vectors) xs = get_or-append_end vectors xs
