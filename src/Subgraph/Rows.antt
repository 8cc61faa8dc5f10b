-- ===== src/Subgraph/Rows.antt =====
-- Sets and matrices of candidates of src/graph/topology/graph_subgraph_isomorphism.hh as lists.
use graph_tool.Common.{
  Bool-cases, List, [], ap, arith, false, get_or-set, if◌then◌else◌, inl, inr, leb, length,
  length-set, ltb, refl, set, suc, sum_by, zero, ℕ, ◌&&◌, ◌+◌, ◌<◌, ◌==◌, ◌||◌, ◌∙◌, ◌∷◌, ◌≡◌, ◌≤◌,
}
use graph_tool.Subgraph.{Matrix, candidates, copy_rows, erase, insert, member}
use native.Mathlib.Decide.{ℕ_discrete}

pub member-erase :
    (x y : ℕ) (ys : List ℕ) → member x (erase y ys) ≡ (if x == y then false else member x ys)
unfolding member erase
member-erase x y [] = ground arith
member-erase x y (z ∷ ys) = ground (arith, member-erase x y ys)

pub member-insert : (x y : ℕ) (ys : List ℕ) → member x (insert y ys) ≡ (x == y || member x ys)
unfolding insert
member-insert x y ys = elim (Bool-cases (member y ys)) [
  | inl there ↦ elim (ℕ_discrete x y) [
    | yes e ↦ ground (arith, there, e, ap (λ z. member z ys) e)
    | no ne ↦ ground (arith, there, ne)
  ]
  | inr missing ↦ unfold member in ground (arith, missing)
]

pub total-le :
    (m m' : Matrix)
    → length m ≡ length m'
    → ((u : ℕ) → length (candidates m u) ≤ length (candidates m' u))
    → sum_by length m ≤ sum_by length m'
total-le [] m' size h = omega arith
total-le (r ∷ m) [] size h = absurd (omega (arith, size))
total-le (r ∷ m) (r' ∷ m') size h =
    omega (arith, h 0, total-le m m' (omega (arith, size)) (λ u. h (suc u)))

-- A table with no longer row and one shorter row has fewer entries.
pub total-lt :
    (m m' : Matrix) (u : ℕ)
    → length m ≡ length m'
    → ((v : ℕ) → length (candidates m v) ≤ length (candidates m' v))
    → length (candidates m u) < length (candidates m' u)
    → sum_by length m < sum_by length m'
total-lt [] [] u size h less = absurd (omega (arith, less))
total-lt [] (r ∷ m') u size h less = absurd (omega (arith, size))
total-lt (r ∷ m) [] u size h less = absurd (omega (arith, size))
total-lt (r ∷ m) (r' ∷ m') zero size h less =
    omega (arith, less, total-le m m' (omega (arith, size)) (λ u. h (suc u)))
total-lt (r ∷ m) (r' ∷ m') (suc u) size h less =
    omega (arith, h 0, total-lt m m' u (omega (arith, size)) (λ v. h (suc v)) less)

pub copy_rows_lem :
    (m : Matrix) (n k : ℕ) (temp : Matrix)
    → k + n ≤ length temp
    → (length (copy_rows m n k temp) ≡ length temp)
      × ((u : ℕ)
          → candidates (copy_rows m n k temp) u
            ≡ (if leb k u && ltb u (k + n) then candidates m u else candidates temp u))
unfolding copy_rows
copy_rows_lem m zero k temp fits = (refl, λ u. ground arith)
copy_rows_lem m (suc n) k temp fits =
    let next = set temp k (candidates m k) in
    let size = length-set temp k (candidates m k) in
    let (size', rows) = copy_rows_lem m n (suc k) next (omega (arith, fits, size)) in
    let written = λ (u : ℕ). get_or-set temp k u (candidates m k) [] (omega (arith, fits)) in
    (
      size' ∙ size,
      λ u. elim (ℕ_discrete k u) [
        | yes e ↦ ground (arith, e, rows u, written u, ap (candidates m) e)
        | no ne ↦ ground (arith, ne, rows u, written u)
      ],
    )
