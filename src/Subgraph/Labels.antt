-- ===== src/Subgraph/Labels.antt =====
-- The first candidates and `vindex` of `subgraph_isomorphism` in
-- src/graph/topology/graph_subgraph_isomorphism.hh.
use graph_tool.AdjList.{row}
use graph_tool.AdjList.Rows.{same}
use graph_tool.Common.{
  Bool, Bool-cases, List, Option-cases, [], ap, arith, get_or, get_or-set, inl, inr, length,
  length-replicate, length-set, refl, replicate, set, some, subst, suc, sym, true, zero, ℕ, ◌+◌,
  ◌<◌, ◌==◌, ◌∙◌, ◌∷◌, ◌≡◌, ◌≢◌, ◌≤◌,
}
use graph_tool.Subgraph.{Matrix, candidates, member}
use graph_tool.Subgraph.Search.{fill_index, first_candidates, first_matrix}
use mathlib.Core.Option.{none-ne-some, some-injective}
use native.Mathlib.Decide.{ℕ_discrete}

-- `vlist` lists the numbers below n, each once.
pub record IsListing (n : ℕ) (vlist : List ℕ) : Type 0 where
  pub size : length vlist ≡ n
  pub below : (j : ℕ) → j < n → get_or vlist j 0 < n
  pub distinct : (j k : ℕ) → j < n → k < n → get_or vlist j 0 ≡ get_or vlist k 0 → j ≡ k
  pub onto : (v : ℕ) → v < n → (j : ℕ) × ((j < n) × (get_or vlist j 0 ≡ v))

module _ (vlist : List ℕ) (n : ℕ) (listing : IsListing n vlist) where
  fill_index_lem :
      (k j : ℕ) (vindex : List ℕ)
      → k + j ≡ n
      → length vindex ≡ n
      → ((i : ℕ) → i < j → get_or vindex (get_or vlist i 0) 0 ≡ i)
      → (i : ℕ) → i < n
      → get_or (fill_index vlist k j vindex) (get_or vlist i 0) 0 ≡ i
  unfolding fill_index
  fill_index_lem zero j vindex end size before i h = before i (omega (arith, end, h))
  fill_index_lem (suc k) j vindex end size before u low =
      let here : get_or vlist j 0 < length vindex =
        omega (arith, size, listing.below j (omega (arith, end))) in
      fill_index_lem k (suc j) (set vindex (get_or vlist j 0) j) (omega (arith, end))
        (length-set vindex (get_or vlist j 0) j ∙ size)
        (λ i h. elim (ℕ_discrete (get_or vlist j 0) (get_or vlist i 0)) [
          | yes same ↦
              let at : j ≡ i =
                listing.distinct j i (omega (arith, end)) (omega (arith, end, h)) same in
              ground
                (arith, same, at, get_or-set vindex (get_or vlist j 0) (get_or vlist i 0) j 0 here)
          | no other ↦
              let earlier : i < j =
                strictly i j h (λ e. other (ap (λ x. get_or vlist x 0) (sym e))) in
              ground (
                arith,
                other,
                get_or-set vindex (get_or vlist j 0) (get_or vlist i 0) j 0 here,
                before i earlier,
              )
        ])
        u low
    where
      strictly : (i j : ℕ) → i < suc j → i ≢ j → i < j
      strictly i j h ne = omega (arith, h, ne)

  -- The vertex at the place that `vindex` gives a vertex is that vertex.
  pub fill_index-place :
      (v : ℕ) → v < n → get_or vlist (get_or (fill_index vlist n 0 (replicate n 0)) v 0) 0 ≡ v
  fill_index-place v h =
      let (j, (low, at_v)) = listing.onto v h in
      let index =
        fill_index_lem n 0 (replicate n 0) (omega arith) (length-replicate n (0 + 0))
          (λ i q. absurd (omega (arith, q))) j low in
      ap (λ x. get_or vlist x 0)
        (ap (λ u. get_or (fill_index vlist n 0 (replicate n 0)) u 0) (sym at_v) ∙ index)
      ∙ at_v

module _ (vertex_labelling : ℕ → ℕ → Bool) (vlist : List ℕ) where
  first_candidates_lem :
      (i n j c : ℕ)
      → member c (first_candidates vertex_labelling vlist i n j) ≡ true
      → (c < n + j) × (vertex_labelling i (get_or vlist c 0) ≡ true)
  unfolding first_candidates member
  first_candidates_lem i zero j c h = absurd (ground (arith, h))
  first_candidates_lem i (suc n) j c h =
      let later = λ (q : member c (first_candidates vertex_labelling vlist i n (suc j)) ≡ true).
        first_candidates_lem i n (suc j) c q in
      elim (Bool-cases (vertex_labelling i (get_or vlist j 0))) [
        | inr out ↦ let (low, good) = later (rw out at h) in (omega (arith, low), good)
        | inl alike ↦ elim (ℕ_discrete c j) [
          | yes e ↦ (omega (arith, e), ap (λ x. vertex_labelling i (get_or vlist x 0)) e ∙ alike)
          | no ne ↦
              let (low, good) = later (ground (arith, ne, rw alike at h)) in
              (omega (arith, low), good)
        ]
      ]

  first_candidates-length : (i n j : ℕ) → length (first_candidates vertex_labelling vlist i n j) ≤ n
  unfolding first_candidates
  first_candidates-length i zero j = omega arith
  first_candidates-length i (suc n) j = ground (arith, first_candidates-length i n (suc j))

  -- Where the loop does not abort, the rows are as many as the vertices, and hold places with a fitting
  -- label.
  pub first_matrix_lem :
      (n m i : ℕ) (m0 : Matrix)
      → first_matrix vertex_labelling vlist n m i ≡ some m0
      → (length m0 ≡ m)
        × ((u c : ℕ)
            → member c (candidates m0 u) ≡ true
            → (c < n) × (vertex_labelling (i + u) (get_or vlist c 0) ≡ true))
        × ((u : ℕ) → length (candidates m0 u) ≤ n)
  unfolding first_matrix
  first_matrix_lem n zero i m0 h =
      subst
        (λ m.
          (length m ≡ 0)
          × ((u c : ℕ)
              → member c (candidates m u) ≡ true
              → (c < n) × (vertex_labelling (i + u) (get_or vlist c 0) ≡ true))
          × ((u : ℕ) → length (candidates m u) ≤ n))
        (some-injective [] m0 h)
        (refl, λ u c q. absurd (unfold member in ground (arith, q)), λ u. omega arith)
  first_matrix_lem n (suc m) i m0 h =
      elim (Bool-cases (length (first_candidates vertex_labelling vlist i n 0) == 0)) [
        | inl empty_row ↦ absurd (none-ne-some m0 (rw empty_row at h))
        | inr full ↦ elim (Option-cases (first_matrix vertex_labelling vlist n m (suc i))) [
          | inl stopped ↦ absurd (none-ne-some m0 (rw (full, stopped) at h))
          | inr (rows, found) ↦
              let row = first_candidates vertex_labelling vlist i n 0 in
              let same : row ∷ rows ≡ m0 = some-injective (row ∷ rows) m0 (rw (full, found) at h) in
              let (size, good, short) = first_matrix_lem n m (suc i) rows found in
              subst
                (λ m'.
                  (length m' ≡ suc m)
                  × ((u c : ℕ)
                      → member c (candidates m' u) ≡ true
                      → (c < n) × (vertex_labelling (i + u) (get_or vlist c 0) ≡ true))
                  × ((u : ℕ) → length (candidates m' u) ≤ n))
                same (omega (arith, size), cons_good row rows good, cons_short row rows short)
        ]
      ]
    where
      cons_good :
          (row : List ℕ) (rows : Matrix)
          → ((u c : ℕ)
              → member c (candidates rows u) ≡ true
              → (c < n) × (vertex_labelling (suc i + u) (get_or vlist c 0) ≡ true))
          → (u c : ℕ)
          → member c (candidates (first_candidates vertex_labelling vlist i n 0 ∷ rows) u) ≡ true
          → (c < n) × (vertex_labelling (i + u) (get_or vlist c 0) ≡ true)
      cons_good row rows good zero c q =
          let (low, alike) = first_candidates_lem i n 0 c q in
          (
            omega (arith, low),
            ap (λ x. vertex_labelling x (get_or vlist c 0)) (omega arith) ∙ alike,
          )
      cons_good row rows good (suc u) c q =
          let (low, alike) = good u c q in
          (low, ap (λ x. vertex_labelling x (get_or vlist c 0)) (omega arith) ∙ alike)

      cons_short :
          (row : List ℕ) (rows : Matrix)
          → ((u : ℕ) → length (candidates rows u) ≤ n)
          → (u : ℕ)
          → length (candidates (first_candidates vertex_labelling vlist i n 0 ∷ rows) u) ≤ n
      cons_short row rows short zero = first_candidates-length i n 0
      cons_short row rows short (suc u) = short u
