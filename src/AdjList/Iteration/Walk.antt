-- ===== src/AdjList/Iteration/Walk.antt =====
-- The loop over `edges` of src/graph/graph_adjacency.hh, iterator by iterator, against the order of
-- the table.
use mathlib.Core.Option
use graph_tool.AdjList.{AdjList, Edge, EdgeList, make_out_edge, row}
use graph_tool.AdjList.Iteration.{
  EdgeIterator, all_edges, at_end, dereference, edges_begin, edges_end, edges_from, equal,
  increment, next_row, skip, visited,
}
use graph_tool.Common.{
  List, [], ap, arith, false, get_or, length, map, not, refl, some, suc, sym, true, zero, ℕ, ◌&&◌,
  ◌++◌, ◌+◌, ◌-◌, ◌<◌, ◌==◌, ◌∙◌, ◌∷◌, ◌≡◌, ◌≤◌,
}
use native.Mathlib.Decide.{dec_lt}

-- The part of a list from place p on.
abbrev drop {ℓ} : {A : Type ℓ} → ℕ → List A → List A
drop zero xs = xs
drop (suc n) [] = []
drop (suc n) (x ∷ xs) = drop n xs

drop-length {ℓ} : {A : Type ℓ} (p : ℕ) (xs : List A) → length xs ≤ p → drop p xs ≡ []
drop-length zero [] h = refl
drop-length zero (x ∷ xs) h = absurd (omega arith)
drop-length (suc p) [] h = refl
drop-length (suc p) (x ∷ xs) h = drop-length p xs (omega arith)

drop-get_or {ℓ} :
    {A : Type ℓ} (p : ℕ) (xs : List A) (d : A)
    → p < length xs
    → drop p xs ≡ get_or xs p d ∷ drop (suc p) xs
drop-get_or p [] d h = absurd (omega arith)
drop-get_or zero (x ∷ xs) d h = refl
drop-get_or (suc p) (x ∷ xs) d h = drop-get_or p xs d (omega arith)

module _ (rows : List EdgeList) where
  abbrev at : ℕ → ℕ → EdgeIterator
  at k p = record { vi = k; list = k; pos = p }

  -- The edges that are still to come at place p of vertex k, with m vertices after k.
  abbrev remaining : ℕ → ℕ → ℕ → List Edge
  remaining m k p = map (make_out_edge k) (drop p (row rows k)) ++ edges_from m (suc k) rows

  -- Where `skip` stops: past the last edge, or at an edge with the same edges to come.
  data Lands (it : EdgeIterator) (rem : List Edge) : Type 0 where
    finished :
        (k : ℕ)
        → length rows ≡ suc k
        → it ≡ record { vi = suc k; list = k; pos = length (row rows k) }
        → rem ≡ []
        → Lands it rem
    standing :
        (m k p : ℕ)
        → k + suc m ≡ length rows
        → p < length (row rows k)
        → it ≡ at k p
        → rem ≡ remaining m k p
        → Lands it rem

  skip_stays : (f k p : ℕ) → p < length (row rows k) → skip f rows (at k p) ≡ at k p
  unfolding skip
  skip_stays zero k p h = refl
  skip_stays (suc f) k p h = ground arith

  skip_moves :
      (f k p : ℕ)
      → k < length rows
      → length (row rows k) ≡ p
      → skip (suc f) rows (at k p) ≡ skip f rows (next_row rows (at k p))
  unfolding skip
  skip_moves f k p h e =
      let go : (not (k == length rows) && at_end rows (at k p)) ≡ true = ground arith in
      rw (go, skip)

  skip_past : (f : ℕ) (it : EdgeIterator) → length rows ≡ it.vi → skip f rows it ≡ it
  unfolding skip
  skip_past zero it e = refl
  skip_past (suc f) it e = ground arith

  next_row_last :
      (k p : ℕ)
      → length rows ≡ suc k
      → next_row rows (at k p) ≡ record { vi = suc k; list = k; pos = p }
  unfolding next_row
  next_row_last k p e = ground arith

  next_row_more : (k p : ℕ) → suc k < length rows → next_row rows (at k p) ≡ at (suc k) 0
  unfolding next_row
  next_row_more k p h = ground arith

  remaining_none :
      (m k p : ℕ) → length (row rows k) ≡ p → remaining m k p ≡ edges_from m (suc k) rows
  remaining_none m k p e = rw (drop-length p (row rows k) (omega arith)) refl

  -- One round of `skip` at the end of a list, with the rest of the loop as a hypothesis.
  onward :
      (f m k p : ℕ)
      → k + suc m ≡ length rows
      → length (row rows k) ≡ p
      → ((n : ℕ)
          → suc k + suc n ≡ length rows
          → suc n ≤ f
          → Lands (skip f rows (at (suc k) 0)) (remaining n (suc k) 0))
      → suc m ≤ suc f
      → Lands (skip f rows (next_row rows (at k p))) (edges_from m (suc k) rows)
  unfolding edges_from
  onward f zero k p e full loop enough =
      let last : length rows ≡ suc k = omega arith in
      rw (next_row_last k p last, skip_past f (record { vi = suc k; list = k; pos = p }) last)
        (finished k last (ap (λ n. record { vi = suc k; list = k; pos = n }) (sym full)) refl)
  onward f (suc m) k p e full loop enough =
      rw (next_row_more k p (omega arith)) (loop m (omega arith) (omega arith))

  skip-Lands :
      (f m k p : ℕ)
      → k + suc m ≡ length rows
      → p ≤ length (row rows k)
      → suc m ≤ f
      → Lands (skip f rows (at k p)) (remaining m k p)
  skip-Lands zero m k p e h enough = absurd (omega arith)
  skip-Lands (suc f) m k p e h enough = elim (dec_lt p (length (row rows k))) [
    | yes lt ↦ standing m k p e lt (skip_stays (suc f) k p lt) refl
    | no not_lt ↦
        let full : length (row rows k) ≡ p = omega arith in
        rw (skip_moves f k p (omega arith) full, remaining_none m k p full)
          (onward f m k p e full (λ n e' enough'. skip-Lands f n (suc k) 0 e' (omega arith) enough')
            enough)
  ]

  edges_end-eq :
      (k : ℕ)
      → length rows ≡ suc k
      → edges_end rows ≡ record { vi = suc k; list = k; pos = length (row rows k) }
  unfolding edges_end
  edges_end-eq k e =
      let before : length rows - 1 ≡ k = omega arith in
      rw (before, e)
        (skip_moves k k (length (row rows k)) (omega arith) refl
          ∙ ap (skip k rows) (next_row_last k (length (row rows k)) e)
          ∙ skip_past k (record { vi = suc k; list = k; pos = length (row rows k) }) e)

  -- An edge is not the end.
  equal_end-standing :
      (k p K : ℕ)
      → length rows ≡ suc K
      → k < length rows
      → equal rows (at k p) (edges_end rows) ≡ false
  unfolding equal
  equal_end-standing k p K e h = ground (arith, edges_end-eq K e)

  equal_end-finished :
      (K : ℕ)
      → length rows ≡ suc K
      → equal rows (record { vi = suc K; list = K; pos = length (row rows K) }) (edges_end rows)
        ≡ true
  unfolding equal
  equal_end-finished K e = ground (arith, edges_end-eq K e)

  increment-Lands :
      (m k p : ℕ)
      → k + suc m ≡ length rows
      → p < length (row rows k)
      → Lands (increment rows (at k p)) (remaining m k (suc p))
  unfolding increment
  increment-Lands m k p e h = skip-Lands (length rows) m k (suc p) e (omega arith) (omega arith)

  remaining-cons :
      (m k p : ℕ)
      → p < length (row rows k)
      → remaining m k p ≡ dereference rows (at k p) ∷ remaining m k (suc p)
  unfolding dereference
  remaining-cons m k p h = rw (drop-get_or p (row rows k) (0, 0) h) refl

  visited_stop :
      (fuel : ℕ) (it e_end : EdgeIterator)
      → equal rows it e_end ≡ true
      → visited (suc fuel) rows it e_end ≡ some []
  unfolding visited
  visited_stop fuel it e_end h = rw (h, visited)

  visited_step :
      (fuel : ℕ) (it e_end : EdgeIterator)
      → equal rows it e_end ≡ false
      → visited (suc fuel) rows it e_end
        ≡ Option.map (◌∷◌ (dereference rows it)) (visited fuel rows (increment rows it) e_end)
  unfolding visited
  visited_step fuel it e_end h = rw (h, visited)

  visited_rest :
      (fuel : ℕ) (K : ℕ) (it : EdgeIterator) (rem : List Edge)
      → length rows ≡ suc K
      → Lands it rem
      → length rem < fuel
      → visited fuel rows it (edges_end rows) ≡ some rem
  visited_rest zero K it rem e l h = absurd (omega arith)
  visited_rest (suc fuel) K it rem e (finished k last is none_left) h =
      rw (is, none_left)
        (visited_stop fuel (record { vi = suc k; list = k; pos = length (row rows k) })
          (edges_end rows) (equal_end-finished k last))
  visited_rest (suc fuel) K it rem e (standing m k p inside lt is left) h =
      let cons = remaining-cons m k p lt in
      let rest =
        visited_rest fuel K (increment rows (at k p)) (remaining m k (suc p)) e
          (increment-Lands m k p inside lt) (omega (arith, ap length left, ap length cons)) in
      rw (is, left, cons)
        (visited_step fuel (at k p) (edges_end rows) (equal_end-standing k p K e (omega arith))
          ∙ rw (rest, Option.map))

visited-rows :
    (rows : List EdgeList) (fuel : ℕ)
    → length (edges_from (length rows) 0 rows) < fuel
    → visited fuel rows (edges_begin rows) (edges_end rows) ≡ some (edges_from (length rows) 0 rows)
unfolding visited equal edges_begin edges_end edges_from
visited-rows [] zero h = absurd (omega arith)
visited-rows [] (suc fuel) h = refl
visited-rows (es ∷ rows) fuel h =
    visited_rest (es ∷ rows) fuel (length rows) (edges_begin (es ∷ rows))
      (remaining (es ∷ rows) (length rows) 0 0) refl
      (skip-Lands (es ∷ rows) (suc (length rows)) (length rows) 0 0 (omega arith) (omega arith)
        (omega arith))
      h

-- With more fuel than there are edges, the loop from the first to the last iterator of `edges(g)`
-- ends, and it passes the out-edges of each vertex in turn, in their order.
pub visited-all_edges :
    (g : AdjList) (fuel : ℕ)
    → length (all_edges g) < fuel
    → visited fuel g.out_edges (edges_begin g.out_edges) (edges_end g.out_edges)
      ≡ some (all_edges g)
unfolding all_edges
visited-all_edges g fuel h = visited-rows g.out_edges fuel h
