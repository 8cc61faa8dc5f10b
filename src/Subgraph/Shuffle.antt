-- ===== src/Subgraph/Shuffle.antt =====
-- The order of the vertices that `get_subgraphs` of src/graph/topology/graph_subgraph_isomorphism.cc
-- draws; `draw i` is the place that it swaps with place i.
use graph_tool.Common.{
  List, [], ap, arith, get_or, get_or-set, if◌then◌else◌, length, length-set, refl, set, suc, sym,
  zero, ℕ, ◌+◌, ◌-◌, ◌<◌, ◌==◌, ◌∙◌, ◌∷◌, ◌≡◌, ◌≤◌,
}
use graph_tool.Subgraph.Labels.{IsListing}
use native.Mathlib.Decide.{ℕ_discrete}

-- `swap(v[i], v[j])`
unfoldable pub swap_places : ℕ → ℕ → List ℕ → List ℕ
swap_places i j xs = set (set xs i (get_or xs j 0)) j (get_or xs i 0)

-- `vlist[i] = i`, over n places from i on.
unfoldable pub numbered : ℕ → ℕ → List ℕ
numbered i zero = []
numbered i (suc n) = i ∷ numbered (suc i) n

-- The loop over m places from i on.
unfoldable pub shuffle_from : (ℕ → ℕ) → ℕ → ℕ → List ℕ → List ℕ
unfolding swap_places
shuffle_from draw zero i xs = xs
shuffle_from draw (suc m) i xs = shuffle_from draw m (suc i) (swap_places i (draw i) xs)

unfoldable pub shuffled : (ℕ → ℕ) → ℕ → List ℕ
unfolding shuffle_from numbered
shuffled draw n = shuffle_from draw (n - 1) 0 (numbered 0 n)

-- The place that the value at place k came from.
abbrev origin : ℕ → ℕ → ℕ → ℕ
origin i j k = if k == j then i else if k == i then j else k

swap_places-at :
    (i j : ℕ) (xs : List ℕ) (k : ℕ)
    → i < length xs
    → j < length xs
    → get_or (swap_places i j xs) k 0 ≡ get_or xs (origin i j k) 0
unfolding swap_places
swap_places-at i j xs k hi hj =
    let first = get_or-set xs i k (get_or xs j 0) 0 hi in
    let second =
      get_or-set (set xs i (get_or xs j 0)) j k (get_or xs i 0) 0
        (omega (arith, hj, length-set xs i (get_or xs j 0))) in
    elim (ℕ_discrete k j) [
      | yes ej ↦
          let from : i ≡ origin i j k = ground (arith, ej) in
          ground (arith, ej, second) ∙ ap (λ x. get_or xs x 0) from
      | no nj ↦ elim (ℕ_discrete k i) [
        | yes ei ↦
            let from : j ≡ origin i j k = ground (arith, nj, ei) in
            ground (arith, nj, ei, second, first) ∙ ap (λ x. get_or xs x 0) from
        | no ni ↦
            let from : k ≡ origin i j k = ground (arith, nj, ni) in
            ground (arith, nj, ni, second, first) ∙ ap (λ x. get_or xs x 0) from
      ]
    ]

swap_places-IsListing :
    (n i j : ℕ) (xs : List ℕ) → IsListing n xs → i < n → j < n → IsListing n (swap_places i j xs)
swap_places-IsListing n i j xs l hi hj =
    let at =
      λ (k : ℕ). swap_places-at i j xs k (omega (arith, hi, l.size)) (omega (arith, hj, l.size)) in
    record {
      size = same_size;
      below = λ k h. omega (arith, at k, l.below (origin i j k) (ground (arith, h, hi, hj)));
      distinct = λ k k' h h' same.
          let from : origin i j k ≡ origin i j k' =
            l.distinct (origin i j k) (origin i j k') (ground (arith, h, hi, hj))
              (ground (arith, h', hi, hj)) (sym (at k) ∙ same ∙ at k') in
          ground (arith, from);
      onto = λ v h.
          let (k, (low, at_v)) = l.onto v h in
          (
            origin i j k,
            (
              ground (arith, low, hi, hj),
              at (origin i j k) ∙ ap (λ x. get_or xs x 0) (ground arith) ∙ at_v,
            ),
          );
    }
  where
    same_size : length (swap_places i j xs) ≡ n
    same_size =
        unfold swap_places in
        (length-set (set xs i (get_or xs j 0)) j (get_or xs i 0)
          ∙ length-set xs i (get_or xs j 0)
          ∙ l.size)

numbered-at : (i n k : ℕ) → k < n → get_or (numbered i n) k 0 ≡ i + k
unfolding numbered
numbered-at i zero k h = absurd (omega (arith, h))
numbered-at i (suc n) zero h = omega arith
numbered-at i (suc n) (suc k) h = omega (arith, numbered-at (suc i) n k (omega (arith, h)))

length-numbered : (i n : ℕ) → length (numbered i n) ≡ n
unfolding numbered
length-numbered i zero = refl
length-numbered i (suc n) = ap suc (length-numbered (suc i) n)

shuffle_from-IsListing :
    (n : ℕ) (draw : ℕ → ℕ)
    → ((i : ℕ) → i < n → draw i < n)
    → (m i : ℕ) (xs : List ℕ) → m + i ≤ n
    → IsListing n xs
    → IsListing n (shuffle_from draw m i xs)
unfolding shuffle_from
shuffle_from-IsListing n draw within zero i xs fits l = l
shuffle_from-IsListing n draw within (suc m) i xs fits l =
    shuffle_from-IsListing n draw within m (suc i) (swap_places i (draw i) xs) (omega (arith, fits))
      (swap_places-IsListing n i (draw i) xs l (omega (arith, fits))
        (within i (omega (arith, fits))))

-- Whatever is drawn within the bounds, the shuffled list has each vertex once.
pub shuffled-IsListing :
    (draw : ℕ → ℕ) (n : ℕ) → ((i : ℕ) → i < n → draw i < n) → IsListing n (shuffled draw n)
unfolding shuffled
shuffled-IsListing draw n within =
    shuffle_from-IsListing n draw within (n - 1) 0 (numbered 0 n) (omega arith) (record {
      size = length-numbered 0 n;
      below = λ j h. omega (arith, numbered-at 0 n j h, h);
      distinct = λ j k h h' same. omega (arith, numbered-at 0 n j h, numbered-at 0 n k h', same);
      onto = λ v h. (v, (h, omega (arith, numbered-at 0 n v h)));
    })
