-- ===== src/GraphInterface/Kept.antt =====
-- The vertices that `PurgeVertices` of src/graph/graph_filtering.cc keeps, as lists of their numbers.
use graph_tool.AdjList.{EdgeList, row}
use graph_tool.AdjList.Edges.{length-map}
use graph_tool.Common.{
  Bool, Bool-cases, List, [], ap, arith, erase_at, false, get_or, get_or-ext, get_or-last,
  if◌then◌else◌, inl, inr, length, length-append, ltb, map, not, refl, suc, sym, zero, ℕ, ◌++◌, ◌+◌,
  ◌-◌, ◌<◌, ◌∙◌, ◌∷◌, ◌≡◌, ◌≤◌,
}
use graph_tool.GraphInterface.PurgeVertices.{deleted_flags}
use graph_tool.PropertyMap.View.{get_or-beyond}
use mathlib.Core.List.{append-nil, filter}
use native.Mathlib.Decide.{ℕ_discrete}

-- The numbers below n, in order.
unfoldable pub below : ℕ → List ℕ
below zero = []
below (suc n) = below n ++ n ∷ []

-- Those that the filter lets through.
abbrev pub kept_below : (ℕ → Bool) → ℕ → List ℕ
kept_below filter zero = []
kept_below filter (suc n) = if filter n then kept_below filter n ++ n ∷ [] else kept_below filter n

-- The same, from the last one down.
abbrev pub kept_down : (ℕ → Bool) → ℕ → List ℕ
kept_down filter zero = []
kept_down filter (suc n) = if filter n then n ∷ kept_down filter n else kept_down filter n

pub get_or-deleted_flags :
    (filter : ℕ → Bool) (n i k : ℕ)
    → k < n
    → get_or (deleted_flags filter i n) k false ≡ not (filter (i + k))
unfolding deleted_flags
get_or-deleted_flags filter zero i k h = absurd (omega (arith, h))
get_or-deleted_flags filter (suc n) i zero h = ap (λ x. not (filter x)) (omega arith)
get_or-deleted_flags filter (suc n) i (suc k) h =
    get_or-deleted_flags filter n (suc i) k (omega (arith, h))
    ∙ ap (λ x. not (filter x)) (omega arith)

length-below : (n : ℕ) → length (below n) ≡ n
unfolding below
length-below zero = refl
length-below (suc n) = omega (arith, length-append (below n) (n ∷ []), length-below n)

erase_at-middle :
    (f : ℕ → EdgeList) (xs ys : List ℕ) (y : ℕ)
    → erase_at (map f (xs ++ y ∷ [] ++ ys)) (length xs) ≡ map f (xs ++ ys)
erase_at-middle f [] ys y = refl
erase_at-middle f (x ∷ xs) ys y = ap (◌∷◌ (f x)) (erase_at-middle f xs ys y)

row-middle :
    (f : ℕ → EdgeList) (xs ys : List ℕ) (y : ℕ) → row (map f (xs ++ y ∷ [] ++ ys)) (length xs) ≡ f y
row-middle f [] ys y = refl
row-middle f (x ∷ xs) ys y = row-middle f xs ys y

pub row-below : (n : ℕ) (xs : List ℕ) (f : ℕ → EdgeList) → row (map f (below (suc n) ++ xs)) n ≡ f n
unfolding below
row-below n xs f =
    ap (row (map f (below n ++ n ∷ [] ++ xs))) (sym (length-below n)) ∙ row-middle f (below n) xs n

pub erase_at-below :
    (n : ℕ) (xs : List ℕ) (f : ℕ → EdgeList)
    → erase_at (map f (below (suc n) ++ xs)) n ≡ map f (below n ++ xs)
unfolding below
erase_at-below n xs f =
    ap (erase_at (map f (below n ++ n ∷ [] ++ xs))) (sym (length-below n))
    ∙ erase_at-middle f (below n) xs n

pub kept_down-at :
    (filter : ℕ → Bool) (n k : ℕ)
    → k < length (kept_below filter n)
    → get_or (kept_down filter n) (length (kept_below filter n) - 1 - k) 0
      ≡ get_or (kept_below filter n) k 0
kept_down-at filter zero k h = absurd (omega (arith, h))
kept_down-at filter (suc n) k h = elim (Bool-cases (filter n)) [
  | inr goes ↦ rw goes (kept_down-at filter n k (rw goes at h))
  | inl stays ↦
      let kept = kept_below filter n in
      let size = length-append kept (n ∷ []) in
      let low : k < length kept + 1 = omega (arith, size, rw stays at h) in
      let first : length (kept ++ n ∷ []) - 1 - k ≡ length kept - k = omega (arith, size) in
      let last = get_or-last kept n 0 k in
      rw (stays, first)
        (elim (ℕ_discrete k (length kept)) [
          | yes e ↦
              let zero_place : length kept - k ≡ 0 = omega (arith, e) in
              rw zero_place (ground (arith, last, e))
          | no ne ↦
              let next_place : length kept - k ≡ suc (length kept - 1 - k) =
                omega (arith, low, ne) in
              rw next_place
                (kept_down-at filter n k (omega (arith, low, ne)) ∙ ground (arith, last, ne))
        ])
]

pub length-kept_down :
    (filter : ℕ → Bool) (n : ℕ) → length (kept_down filter n) ≡ length (kept_below filter n)
length-kept_down filter zero = refl
length-kept_down filter (suc n) =
    ground (arith, length-append (kept_below filter n) (n ∷ []), length-kept_down filter n)

pub length-kept_below : (filter : ℕ → Bool) (n : ℕ) → length (kept_below filter n) ≤ n
length-kept_below filter zero = omega arith
length-kept_below filter (suc n) =
    ground (arith, length-append (kept_below filter n) (n ∷ []), length-kept_below filter n)

row-map :
    (f : ℕ → EdgeList) (xs : List ℕ) (i : ℕ) → i < length xs → row (map f xs) i ≡ f (get_or xs i 0)
row-map f [] i h = absurd (omega (arith, h))
row-map f (x ∷ xs) zero h = refl
row-map f (x ∷ xs) (suc i) h = row-map f xs i (omega (arith, h))

get_or-below : (n i : ℕ) → i < n → get_or (below n) i 0 ≡ i
unfolding below
get_or-below zero i h = absurd (omega (arith, h))
get_or-below (suc n) i h =
    let last = get_or-last (below n) n 0 i in
    let size = length-below n in
    elim (ℕ_discrete i n) [
      | yes e ↦ ground (arith, last, size, e)
      | no ne ↦ ground (arith, last, size, ne, get_or-below n i (omega (arith, h, ne)))
    ]

pub all_rows : (rows : List EdgeList) → rows ≡ map (row rows) (below (length rows) ++ [])
all_rows rows =
    let n = length rows in
    let mapped = map (row rows) (below n) in
    let size : length mapped ≡ n = length-map (row rows) (below n) ∙ length-below n in
    get_or-ext [] rows mapped (sym size) (λ i. elim (Bool-cases (ltb i n)) [
      | inl low ↦
          let h : i < length (below n) = ground (arith, low, length-below n) in
          sym (
            row-map (row rows) (below n) i h
            ∙ ap (row rows) (get_or-below n i (omega (arith, h, length-below n))))
      | inr high ↦
          let h : n ≤ i = ground (arith, high) in
          get_or-beyond [] rows i h ∙ sym (get_or-beyond [] mapped i (omega (arith, h, size)))
    ])
    ∙ ap (map (row rows)) (sym (append-nil (below n)))
