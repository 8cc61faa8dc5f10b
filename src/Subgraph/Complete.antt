-- ===== src/Subgraph/Complete.antt =====
-- The loop of `refine_check` in src/graph/topology/graph_subgraph_isomorphism.hh with a copy of `sub`
-- among the candidates.
use graph_tool.AdjList.{AdjList, Edge, num_vertices}
use graph_tool.AdjList.Valid.{IsValid}
use graph_tool.Common.{
  Bool, Bool-cases, List, [], ap, arith, false, inl, inr, length, length-replicate, ltb, refl,
  replicate, some, suc, sum_by, sym, true, zero, ℕ, ◌+◌, ◌-◌, ◌<◌, ◌==◌, ◌∙◌, ◌≡◌, ◌≤◌,
}
use graph_tool.GraphInterface.Kept.{below}
use graph_tool.Rewiring.Pair.{first}
use graph_tool.Subgraph.{
  Matrix, Pass, candidates, copy_rows, member, refine_check, refine_loop, refine_pass,
  refine_vertex,
}
use graph_tool.Subgraph.Pruning.{Fits, IsPlacedCopy, check-Fits, fresh_row-keeps, member-length}
use graph_tool.Subgraph.Refine.{fresh, pass}
use graph_tool.Subgraph.Refined.{after, first_after, first_pass, passed, row_after, smaller}
use graph_tool.Subgraph.Rows.{copy_rows_lem}

module _ (edge_labelling : Edge → Edge → Bool) (sub g : AdjList) (vlist vindex : List ℕ)
    (valid_sub : IsValid sub) (valid : IsValid g) (φ : ℕ → ℕ)
    (copy : IsPlacedCopy edge_labelling sub g vlist vindex φ) (count : ℕ) (mapped : List ℕ)
    (few : count ≤ num_vertices sub)
    (untaken : (u : ℕ) → count ≤ u → u < num_vertices sub → member (φ u) mapped ≡ false) where
  abbrev N : ℕ
  N = num_vertices sub

  abbrev Fitting : Matrix → Type 0
  Fitting = Fits edge_labelling sub g vlist vindex φ

  fresh-Fitting :
      (m : Matrix) (u : ℕ)
      → Fitting m
      → count ≤ u
      → u < N
      → member (φ u) (fresh edge_labelling sub g vlist vindex m mapped u) ≡ true
  fresh-Fitting m u fits low high =
      fresh_row-keeps edge_labelling sub g vlist vindex m mapped u (candidates m u) (φ u)
        (fits u high) (untaken u low high)
        (check-Fits edge_labelling sub g vlist vindex valid_sub valid φ copy m u fits)

  pass-on :
      (m : Matrix) (n k : ℕ) (p : Pass)
      → Fitting m
      → count ≤ k
      → k + n ≤ N
      → p.aborted ≡ false
      → (pass edge_labelling sub g vlist vindex m mapped n k p).aborted ≡ false
  unfolding refine_pass
  pass-on m zero k p fits low high on = on
  pass-on m (suc n) k p fits low high on =
      let left = fresh-Fitting m k fits low (omega (arith, high)) in
      let some_left : (length (fresh edge_labelling sub g vlist vindex m mapped k) == 0) ≡ false =
        ground
          (arith, member-length (φ k) (fresh edge_labelling sub g vlist vindex m mapped k) left) in
      pass-on m n (suc k) (refine_vertex edge_labelling sub g vlist vindex m mapped k p) fits
        (omega (arith, low)) (omega (arith, high)) (unfold refine_vertex in rw (on, some_left) refl)

  module _ (m temp : Matrix) (size : length m ≡ N) (size_temp : length temp ≡ N)
      (first : (u : ℕ) → u < count → candidates temp u ≡ candidates m u) (fits : Fitting m) where
    abbrev q : Pass
    q = after edge_labelling sub g vlist vindex count mapped few m temp size size_temp first

    q-on : q.aborted ≡ false
    q-on =
        pass-on m (N - count) count
          (first_pass edge_labelling sub g vlist vindex count mapped few temp) fits (omega arith)
          (omega (arith, few)) refl

    q-Fitting : Fitting q.temp
    q-Fitting u high = elim (Bool-cases (ltb u count)) [
      | inl below ↦
          ap (member (φ u)) (
            first_after edge_labelling sub g vlist vindex count mapped few m temp size size_temp
              first q-on u (ground (arith, below)))
          ∙ fits u high
      | inr above ↦
          ap (member (φ u)) (
            row_after edge_labelling sub g vlist vindex count mapped few m temp size size_temp first
              q-on u (ground (arith, above)) high)
          ∙ fresh-Fitting m u fits (ground (arith, above)) high
    ]

  refine_loop-Fitting :
      (fuel : ℕ) (m temp : Matrix)
      → sum_by length m < fuel
      → length m ≡ N
      → length temp ≡ N
      → ((u : ℕ) → u < count → candidates temp u ≡ candidates m u)
      → Fitting m
      → (m' : Matrix) × ((refine_loop edge_labelling sub g vlist vindex fuel count mapped m temp
            ≡ some (true, m'))
          × Fitting m')
  unfolding refine_loop
  refine_loop-Fitting zero m temp enough size size_temp first fits = absurd (omega (arith, enough))
  refine_loop-Fitting (suc fuel) m temp enough size size_temp first fits =
      let p = q m temp size size_temp first fits in
      let on = q-on m temp size size_temp first fits in
      let fits' = q-Fitting m temp size size_temp first fits in
      elim (Bool-cases (ltb 0 p.n_mod)) [
        | inr still ↦ (p.temp, (rw (refine_loop, on, still) refl, fits'))
        | inl more ↦
            let less =
              smaller edge_labelling sub g vlist vindex count mapped few m temp size size_temp first
                on (ground (arith, more)) in
            let old =
              first_after edge_labelling sub g vlist vindex count mapped few m temp size size_temp
                first on in
            let kept =
              passed edge_labelling sub g vlist vindex count mapped few m temp size size_temp first
                on in
            let (m', (result, fits'')) =
              refine_loop-Fitting fuel p.temp m (omega (arith, enough, less))
                (omega (arith, kept.size, size_temp)) size (λ u h. sym (old u h)) fits' in
            (m', (rw (refine_loop, on, more) result, fits''))
      ]

  -- For well-formed graphs and a copy of `sub` in g, whose places are candidates, with none of the
  -- places of the vertices that are still to be mapped taken: `refine_check` returns true, and the
  -- places of the copy are among the candidates that it leaves.
  pub refine_check-Fits :
      (m : Matrix)
      → length m ≡ N
      → Fitting m
      → (m' : Matrix) × ((refine_check edge_labelling sub g vlist vindex m count mapped
            ≡ some (true, m'))
          × Fitting m')
  unfolding refine_check
  refine_check-Fits m size fits =
      let blank = length-replicate {A = List ℕ} N [] in
      let (size_temp, rows) =
        copy_rows_lem m count 0 (replicate N []) (omega (arith, few, blank)) in
      refine_loop-Fitting (suc (sum_by length m)) m (copy_rows m count 0 (replicate N []))
        (omega arith) size (size_temp ∙ blank) (λ u h. ground (arith, h, rows u)) fits
