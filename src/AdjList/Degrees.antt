-- ===== src/AdjList/Degrees.antt =====
-- Degrees in src/graph/graph_adjacency.hh: what the lists hold in all.
use graph_tool.AdjList.{
  AdjList, EdgeList, degree, in_degree, num_edges, num_vertices, out_degree, row,
}
use graph_tool.AdjList.Rows.{times, vertex_times, vertex_times-eq, vertex_times-nil}
use graph_tool.AdjList.Valid.{IsValid, source_lt}
use graph_tool.Common.{
  List, [], ap, arith, get_or, if◌then◌else◌, leb, length, ltb, refl, suc, sum_by, sym, zero, ℕ,
  ◌*◌, ◌+◌, ◌-◌, ◌<◌, ◌∙◌, ◌∷◌, ◌≡◌, ◌≤◌,
}
use native.Mathlib.Nat.{add-zero}

-- How many entries of a list have a vertex below n.
below_times : ℕ → EdgeList → ℕ
below_times n [] = 0
below_times n ((u, j) ∷ es) = (if ltb u n then 1 else 0) + below_times n es

below_times-zero : (es : EdgeList) → below_times 0 es ≡ 0
unfolding below_times
below_times-zero [] = refl
below_times-zero ((u, j) ∷ es) = ground (arith, below_times-zero es)

below_times-suc :
    (n : ℕ) (es : EdgeList) → below_times (suc n) es ≡ below_times n es + vertex_times n es
unfolding below_times vertex_times
below_times-suc n [] = refl
below_times-suc n ((u, j) ∷ es) = ground (arith, below_times-suc n es)

below_times-length :
    (n : ℕ) (es : EdgeList) → ((t i : ℕ) → 0 < times t i es → t < n) → below_times n es ≡ length es
unfolding below_times times
below_times-length n [] h = refl
below_times-length n ((u, j) ∷ es) h =
    ground (arith, h u j, below_times-length n es (λ t i p. h t i (omega arith)))

-- How many entries of a list have a vertex from k on.
from_times : ℕ → EdgeList → ℕ
from_times n [] = 0
from_times n ((u, j) ∷ es) = (if leb n u then 1 else 0) + from_times n es

from_times-zero : (es : EdgeList) → from_times 0 es ≡ length es
unfolding from_times
from_times-zero [] = refl
from_times-zero ((u, j) ∷ es) = ground (arith, from_times-zero es)

from_times-suc :
    (n : ℕ) (es : EdgeList) → from_times n es ≡ vertex_times n es + from_times (suc n) es
unfolding from_times vertex_times
from_times-suc n [] = refl
from_times-suc n ((u, j) ∷ es) = ground (arith, from_times-suc n es)

from_times-none :
    (n : ℕ) (es : EdgeList) → ((t : ℕ) → n ≤ t → vertex_times t es ≡ 0) → from_times n es ≡ 0
unfolding from_times vertex_times
from_times-none n [] h = refl
from_times-none n ((u, j) ∷ es) h =
    ground (arith, h u, from_times-none n es (λ t p. omega (arith, h t p)))

-- The entries for s in the rows of a table from row k on are the entries for those rows in a list
-- that mirrors it.
column_total :
    (s k : ℕ) (rows : List EdgeList) (es : EdgeList)
    → ((t : ℕ) → vertex_times s (row rows t) ≡ vertex_times (k + t) es)
    → sum_by (vertex_times s) rows ≡ from_times k es
column_total s k [] es h = sym (
    from_times-none k es λ t p.
      omega (arith, h (t - k), vertex_times-nil s, ap (λ (n : ℕ). vertex_times n es) (back t p)))
  where
    back : (t : ℕ) → k ≤ t → k + (t - k) ≡ t
    back t p = omega arith
column_total s k (r ∷ rows) es h = omega (
  arith,
  from_times-suc k es,
  h 0,
  ap (λ (n : ℕ). vertex_times n es) (add-zero k),
  column_total s (suc k) rows es (λ t. h (suc t) ∙ ap (λ n. vertex_times n es) (omega arith)),
)

-- The sum of f over the numbers below n.
abbrev pub total_over : ℕ → (ℕ → ℕ) → ℕ
total_over zero f = 0
total_over (suc n) f = total_over n f + f n

total_over-cons :
    (n : ℕ) (es : EdgeList) (rows : List EdgeList)
    → total_over (suc n) (λ v. length (row (es ∷ rows) v))
      ≡ length es + total_over n (λ v. length (row rows v))
total_over-cons zero es rows = omega arith
total_over-cons (suc n) es rows = omega (arith, total_over-cons n es rows)

total_over-rows :
    (rows : List EdgeList)
    → total_over (length rows) (λ v. length (row rows v)) ≡ sum_by length rows
total_over-rows [] = refl
total_over-rows (es ∷ rows) =
    omega (arith, total_over-cons (length rows) es rows, total_over-rows rows)

sum_by-congr {ℓ} :
    {A : Type ℓ} (f g : A → ℕ) (d : A) (xs : List A)
    → ((t : ℕ) → t < length xs → f (get_or xs t d) ≡ g (get_or xs t d))
    → sum_by f xs ≡ sum_by g xs
sum_by-congr f g d [] h = refl
sum_by-congr f g d (x ∷ xs) h =
    omega (arith, h 0 (omega arith), sum_by-congr f g d xs (λ t p. h (suc t) (omega arith)))

sum_by-add {ℓ} :
    {A : Type ℓ} (f g h : A → ℕ)
    → ((a : A) → h a ≡ f a + g a)
    → (xs : List A) → sum_by h xs ≡ sum_by f xs + sum_by g xs
sum_by-add f g h e [] = refl
sum_by-add f g h e (x ∷ xs) = omega (arith, e x, sum_by-add f g h e xs)

module _ (g : AdjList) (v : IsValid g) where
  -- The in-edges from s in all rows are the out-edges of s.
  pub in_edges_from : (s : ℕ) → sum_by (vertex_times s) g.in_edges ≡ length (row g.out_edges s)
  in_edges_from s =
      column_total s 0 g.in_edges (row g.out_edges s) (λ t.
        sym (vertex_times-eq t s (row g.out_edges s) (row g.in_edges t) (v.mirror s t))
        ∙ ap (λ n. vertex_times n (row g.out_edges s)) (omega arith))
      ∙ from_times-zero (row g.out_edges s)

  in_edges_below :
      (n : ℕ) → sum_by (below_times n) g.in_edges ≡ total_over n (λ s. length (row g.out_edges s))
  in_edges_below zero = zero_of g.in_edges
    where
      zero_of : (rows : List EdgeList) → sum_by (below_times 0) rows ≡ 0
      zero_of [] = refl
      zero_of (es ∷ rows) = omega (arith, below_times-zero es, zero_of rows)
  in_edges_below (suc n) = omega (
    arith,
    sum_by-add (below_times n) (vertex_times n) (below_times (suc n)) (below_times-suc n)
        g.in_edges,
    in_edges_below n,
    in_edges_from n,
  )

  in_total : sum_by length g.in_edges ≡ g.n_edges
  in_total =
      sum_by-congr length (below_times (length g.out_edges)) [] g.in_edges (λ t p. sym (
        below_times-length (length g.out_edges) (row g.in_edges t) (λ s i h.
          source_lt v (record { source = s; target = t; idx = i })
            (omega (arith, v.mirror s t i)))))
      ∙ in_edges_below (length g.out_edges)
      ∙ total_over-rows g.out_edges
      ∙ sym v.counted

  -- In a well-formed graph the out-degrees of the vertices add up to the number of edges, the
  -- in-degrees too, and the degrees to twice that number.
  pub degree_totals :
      (total_over (num_vertices g) (λ u. out_degree u g) ≡ num_edges g)
      × (total_over (num_vertices g) (λ u. in_degree u g) ≡ num_edges g)
      × (total_over (num_vertices g) (λ u. degree u g) ≡ 2 * num_edges g)
  unfolding num_vertices num_edges out_degree in_degree degree
  degree_totals =
      let out : total_over (length g.out_edges) (λ u. length (row g.out_edges u)) ≡ g.n_edges =
        total_over-rows g.out_edges ∙ sym v.counted in
      let inn : total_over (length g.out_edges) (λ u. length (row g.in_edges u)) ≡ g.n_edges =
        rw v.sizes (total_over-rows g.in_edges ∙ in_total) in
      (out, inn, omega (arith, out, inn, both (length g.out_edges)))
    where
      both :
          (n : ℕ)
          → total_over n (λ u. length (row g.in_edges u) + length (row g.out_edges u))
            ≡ total_over n (λ u. length (row g.in_edges u))
              + total_over n (λ u. length (row g.out_edges u))
      both zero = refl
      both (suc n) = omega (arith, both n)
