-- ===== src/Subgraph/Refined.antt =====
-- The loop of `refine_check` in src/graph/topology/graph_subgraph_isomorphism.hh: the fuel is enough,
-- and the matrix that it leaves passes its own test.
use graph_tool.AdjList.{AdjList, Edge, num_vertices}
use graph_tool.Common.{
  Bool, Bool-cases, List, Option, [], ap, arith, false, get_or-ext, inl, inr, length,
  length-replicate, ltb, refl, replicate, some, suc, sum_by, sym, true, zero, ℕ, ◌-◌, ◌<◌, ◌∙◌, ◌≡◌,
  ◌≤◌,
}
use graph_tool.GraphInterface.Kept.{below}
use graph_tool.PropertyMap.View.{get_or-beyond}
use graph_tool.Subgraph.{Matrix, Pass, candidates, copy_rows, member, refine_check, refine_loop}
use graph_tool.Subgraph.Refine.{
  Passed, check, fresh, fresh_row-all, fresh_row-length, fresh_row-member, pass, pass-Passed,
}
use graph_tool.Subgraph.Rows.{copy_rows_lem, total-lt}

module _ (edge_labelling : Edge → Edge → Bool) (sub g : AdjList) (vlist vindex : List ℕ) (count : ℕ)
    (mapped : List ℕ) (few : count ≤ num_vertices sub) where
  -- What a refinement of m that succeeds leaves.
  pub record Refined (m m' : Matrix) : Type 0 where
    pub size : length m' ≡ num_vertices sub
    pub first : (u : ℕ) → u < count → candidates m' u ≡ candidates m u
    pub fewer : (u c : ℕ) → member c (candidates m' u) ≡ true → member c (candidates m u) ≡ true
    pub short : (u : ℕ) → length (candidates m' u) ≤ length (candidates m u)
    pub free :
        (u c : ℕ)
        → count ≤ u
        → u < num_vertices sub
        → member c (candidates m' u) ≡ true
        → (member c mapped ≡ false) × (check edge_labelling sub g vlist vindex u c m' ≡ true)

  abbrev N : ℕ
  N = num_vertices sub

  abbrev pub first_pass : Matrix → Pass
  first_pass temp = record { temp = temp; n_mod = 0; aborted = false }

  module _ (m temp : Matrix) (size : length m ≡ N) (size_temp : length temp ≡ N)
      (first : (u : ℕ) → u < count → candidates temp u ≡ candidates m u) where
    abbrev pub after : Pass
    after = pass edge_labelling sub g vlist vindex m mapped (N - count) count (first_pass temp)

    module _ (on : after.aborted ≡ false) where
      pub passed :
          Passed edge_labelling sub g vlist vindex m mapped
            (N - count)
            count
            (first_pass temp)
            after
      passed =
          pass-Passed edge_labelling sub g vlist vindex m mapped (N - count) count (first_pass temp)
            (omega (arith, few, size_temp)) on

      beyond : (u : ℕ) → N ≤ u → (candidates after.temp u ≡ []) × (candidates m u ≡ [])
      beyond u h = (
        get_or-beyond [] after.temp u (omega (arith, h, passed.size, size_temp)),
        get_or-beyond [] m u (omega (arith, h, size)),
      )

      pub first_after : (u : ℕ) → u < count → candidates after.temp u ≡ candidates m u
      first_after u h = ground (arith, h, passed.rows u, first u)

      pub row_after :
          (u : ℕ)
          → count ≤ u
          → u < N
          → candidates after.temp u ≡ fresh edge_labelling sub g vlist vindex m mapped u
      row_after u low high = ground (arith, low, high, passed.rows u)

      -- A split on where a vertex stands.
      by_place :
          (P : ℕ → Type 0)
          → ((u : ℕ) → u < count → P u)
          → ((u : ℕ) → count ≤ u → u < N → P u)
          → ((u : ℕ) → N ≤ u → P u)
          → (u : ℕ) → P u
      by_place P low mid high u = elim (Bool-cases (ltb u count)) [
        | inl below ↦ low u (ground (arith, below))
        | inr above ↦ elim (Bool-cases (ltb u N)) [
          | inl within ↦ mid u (ground (arith, above)) (ground (arith, within))
          | inr out ↦ high u (ground (arith, out))
        ]
      ]

      short_after : (u : ℕ) → length (candidates after.temp u) ≤ length (candidates m u)
      short_after =
          by_place (λ u. length (candidates after.temp u) ≤ length (candidates m u))
            (λ u h. omega (arith, ap length (first_after u h)))
            (λ u low high. omega (
              arith,
              ap length (row_after u low high),
              fresh_row-length edge_labelling sub g vlist vindex m mapped u (candidates m u),
            ))
            (λ u h. omega (arith, ap length (beyond u h).0))

      fewer_after :
          (u c : ℕ) → member c (candidates after.temp u) ≡ true → member c (candidates m u) ≡ true
      fewer_after u c =
          by_place
            (λ v. member c (candidates after.temp v) ≡ true → member c (candidates m v) ≡ true)
            (λ v h q. ap (member c) (sym (first_after v h)) ∙ q)
            (λ v low high q.
              (fresh_row-member edge_labelling sub g vlist vindex m mapped v (candidates m v) c
                (ap (member c) (sym (row_after v low high)) ∙ q)).0)
            (λ v h q. ap (member c) ((beyond v h).1 ∙ sym (beyond v h).0) ∙ q) u

      -- Where some set shrank the matrix has fewer entries.
      pub smaller : 0 < after.n_mod → sum_by length after.temp < sum_by length m
      smaller more =
          let (u, (range, less)) = passed.shorter more in
          total-lt after.temp m u (omega (arith, passed.size, size_temp, size)) short_after (
            omega (
              arith,
              less,
              ap length (row_after u (ground (arith, range)) (ground (arith, range))),
            ))

      -- Where none did, it is the same.
      unchanged : after.n_mod ≡ 0 → after.temp ≡ m
      unchanged still = get_or-ext [] after.temp m (omega (arith, passed.size, size_temp, size)) (
          by_place (λ u. candidates after.temp u ≡ candidates m u) first_after
            (λ u low high.
              row_after u low high
              ∙ fresh_row-all edge_labelling sub g vlist vindex m mapped u (candidates m u)
                  (passed.same u still (ground (arith, low, high))))
            (λ u h. (beyond u h).0 ∙ sym (beyond u h).1))

      fixed : after.n_mod ≡ 0 → Refined m after.temp
      fixed still = record {
        size = omega (arith, passed.size, size_temp);
        first = first_after;
        fewer = fewer_after;
        short = short_after;
        free = λ u c low high h.
            let (_, unmapped, good) =
              fresh_row-member edge_labelling sub g vlist vindex m mapped u (candidates m u) c
                (ap (member c) (sym (row_after u low high)) ∙ h) in
            (unmapped, ap (check edge_labelling sub g vlist vindex u c) (unchanged still) ∙ good);
      }

  Refined-trans :
      (m m1 m2 : Matrix)
      → ((u : ℕ) → u < count → candidates m1 u ≡ candidates m u)
      → ((u c : ℕ) → member c (candidates m1 u) ≡ true → member c (candidates m u) ≡ true)
      → ((u : ℕ) → length (candidates m1 u) ≤ length (candidates m u))
      → Refined m1 m2
      → Refined m m2
  Refined-trans m m1 m2 first fewer short r = record {
    size = r.size;
    first = λ u h. r.first u h ∙ first u h;
    fewer = λ u c h. fewer u c (r.fewer u c h);
    short = λ u. omega (arith, r.short u, short u);
    free = r.free;
  }

  -- What a refinement gives: a result, and a refined matrix where it succeeds.
  abbrev pub Outcome : Matrix → Option (Bool × Matrix) → Type 0
  Outcome m r = (b : Bool) × ((m' : Matrix) × ((r ≡ some (b, m')) × (b ≡ true → Refined m m')))

  refine_loop-Outcome :
      (fuel : ℕ) (m temp : Matrix)
      → sum_by length m < fuel
      → length m ≡ N
      → length temp ≡ N
      → ((u : ℕ) → u < count → candidates temp u ≡ candidates m u)
      → Outcome m (refine_loop edge_labelling sub g vlist vindex fuel count mapped m temp)
  unfolding refine_loop
  refine_loop-Outcome zero m temp enough size size_temp first = absurd (omega (arith, enough))
  refine_loop-Outcome (suc fuel) m temp enough size size_temp first =
      let q = after m temp size size_temp first in
      elim (Bool-cases q.aborted) [
        | inl off ↦ (false, (m, (rw (refine_loop, off) refl, λ h. absurd (ground (arith, h)))))
        | inr on ↦ elim (Bool-cases (ltb 0 q.n_mod)) [
          | inr still ↦ (
            true,
            (
              q.temp,
              (
                rw (refine_loop, on, still) refl,
                λ _. fixed m temp size size_temp first on (ground (arith, still)),
              ),
            ),
          )
          | inl more ↦
              let less = smaller m temp size size_temp first on (ground (arith, more)) in
              let old = first_after m temp size size_temp first on in
              let (b, (m', (result, refined))) =
                refine_loop-Outcome fuel q.temp m (omega (arith, enough, less))
                  (omega (arith, (passed m temp size size_temp first on).size, size_temp)) size
                  (λ u h. sym (old u h)) in
              (
                b,
                (
                  m',
                  (
                    rw (refine_loop, on, more) result,
                    λ h.
                        Refined-trans m q.temp m' old (fewer_after m temp size size_temp first on)
                          (short_after m temp size size_temp first on) (refined h),
                  ),
                ),
              )
        ]
      ]

  -- For a matrix with a row for each vertex of `sub`, and at most as many mapped vertices as there are:
  -- `refine_check` ends, and where it returns true, it left the rows of the mapped vertices as they
  -- were and took candidates away from the others, so that each candidate that stays is of no mapped
  -- place and passes `check_adjacency` on the matrix that is left.
  pub refine_check-Outcome :
      (m : Matrix)
      → length m ≡ N
      → Outcome m (refine_check edge_labelling sub g vlist vindex m count mapped)
  unfolding refine_check
  refine_check-Outcome m size =
      let blank = length-replicate {A = List ℕ} N [] in
      let (size_temp, rows) =
        copy_rows_lem m count 0 (replicate N []) (omega (arith, few, blank)) in
      refine_loop-Outcome (suc (sum_by length m)) m (copy_rows m count 0 (replicate N []))
        (omega arith) size (size_temp ∙ blank) (λ u h. ground (arith, h, rows u))
