-- ===== src/Matching/Permutation.antt =====
-- `random_permutation_iterator` of src/graph/graph_util.hh: the values that it passes, against those of
-- its range.
use graph_tool.Common.{
  List, [], ap, arith, count, get_or, if◌then◌else◌, length, length-set, refl, set, subst, suc, sym,
  zero, ℕ, ◌+◌, ◌<◌, ◌==◌, ◌∷◌, ◌≡◌, ◌≤◌,
}
use graph_tool.Matching.{iter_swap, permutation, vertices}
use native.Mathlib.Decide.{ℕ_discrete}

count-set :
    (a : ℕ) (xs : List ℕ) (i x : ℕ)
    → i < length xs
    → count a (set xs i x) + (if a == get_or xs i x then 1 else 0)
      ≡ count a xs + (if a == x then 1 else 0)
count-set a [] i x h = absurd (omega arith)
count-set a (y ∷ xs) zero x h = omega arith
count-set a (y ∷ xs) (suc i) x h = omega (arith, count-set a xs i x (omega arith))

length-iter_swap : (j x : ℕ) (xs : List ℕ) → length (iter_swap j x xs).1 ≡ length xs
unfolding iter_swap
length-iter_swap zero x xs = refl
length-iter_swap (suc j) x xs = length-set xs j x

count-iter_swap :
    (a j x : ℕ) (xs : List ℕ)
    → j ≤ length xs
    → (if a == (iter_swap j x xs).0 then 1 else 0) + count a (iter_swap j x xs).1
      ≡ (if a == x then 1 else 0) + count a xs
unfolding iter_swap
count-iter_swap a zero x xs h = refl
count-iter_swap a (suc j) x xs h = omega (arith, count-set a xs j x (omega arith))

-- Where every draw stays within its bounds, the iterator passes exactly the values of the range, each
-- as often as it occurs there.
pub count-permutation :
    (draw : ℕ → ℕ)
    → ((n : ℕ) → draw n ≤ n)
    → (xs : List ℕ) (a : ℕ) → count a (permutation draw (length xs) xs) ≡ count a xs
unfolding permutation
count-permutation draw within xs a = go (length xs) xs refl
  where
    go : (n : ℕ) (ys : List ℕ) → length ys ≡ n → count a (permutation draw n ys) ≡ count a ys
    go zero [] e = refl
    go zero (y ∷ ys) e = absurd (omega arith)
    go (suc n) [] e = refl
    go (suc n) (y ∷ ys) e = omega (
      arith,
      within n,
      e,
      count-iter_swap a (draw n) y ys (omega (arith, within n, e)),
      go n (iter_swap (draw n) y ys).1 (omega (arith, e, length-iter_swap (draw n) y ys)),
    )

pub length-vertices : (v n : ℕ) → length (vertices v n) ≡ n
unfolding vertices
length-vertices v zero = refl
length-vertices v (suc n) = ap suc (length-vertices (suc v) n)

-- Every vertex is in the list.
pub count-vertices : (a v n : ℕ) → v ≤ a → a < v + n → 0 < count a (vertices v n)
unfolding vertices
count-vertices a v zero h k = absurd (omega arith)
count-vertices a v (suc n) h k = elim (ℕ_discrete a v) [
  | yes e ↦ ground (arith, e)
  | no ne ↦ omega (arith, count-vertices a (suc v) n (omega (arith, ne)) (omega arith))
]

-- The iterator over the vertices passes every one of them.
pub all_passed :
    (draw : ℕ → ℕ)
    → ((n : ℕ) → draw n ≤ n)
    → (v n : ℕ) → 0 < count v (vertices 0 n)
    → 0 < count v (permutation draw n (vertices 0 n))
all_passed draw within v n h =
    subst (λ k. 0 < count v (permutation draw k (vertices 0 n))) (length-vertices 0 n)
      (subst (λ c. 0 < c) (sym (count-permutation draw within (vertices 0 n) v)) h)
