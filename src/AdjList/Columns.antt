-- ===== src/AdjList/Columns.antt =====
-- Counting an index over the in-lists of src/graph/graph_adjacency.hh: the in-edges from s with the
-- index i, over all vertices.
use graph_tool.AdjList.{EdgeList, row}
use graph_tool.AdjList.Rows.{index_times, times, times-nil}
use graph_tool.Common.{
  List, [], ap, arith, if◌then◌else◌, leb, refl, suc, sum_by, sym, ℕ, ◌&&◌, ◌+◌, ◌-◌, ◌==◌, ◌∙◌,
  ◌∷◌, ◌≡◌, ◌≤◌,
}
use native.Mathlib.Nat.{add-zero}

-- How many entries of a list have the index i and a vertex from k on.
index_from : ℕ → ℕ → EdgeList → ℕ
index_from k i [] = 0
index_from k i ((u, j) ∷ es) = (if leb k u && i == j then 1 else 0) + index_from k i es

index_from-zero : (i : ℕ) (es : EdgeList) → index_from 0 i es ≡ index_times i es
unfolding index_from index_times
index_from-zero i [] = refl
index_from-zero i ((u, j) ∷ es) = ground (arith, index_from-zero i es)

index_from-suc :
    (k i : ℕ) (es : EdgeList) → index_from k i es ≡ times k i es + index_from (suc k) i es
unfolding index_from times
index_from-suc k i [] = refl
index_from-suc k i ((u, j) ∷ es) = ground (arith, index_from-suc k i es)

index_from-none :
    (k i : ℕ) (es : EdgeList) → ((t : ℕ) → k ≤ t → times t i es ≡ 0) → index_from k i es ≡ 0
unfolding index_from times
index_from-none k i [] h = refl
index_from-none k i ((u, j) ∷ es) h =
    ground (arith, h u, index_from-none k i es (λ t p. omega (arith, h t p)))

column_index_total :
    (s i k : ℕ) (rows : List EdgeList) (es : EdgeList)
    → ((t : ℕ) → times s i (row rows t) ≡ times (k + t) i es)
    → sum_by (times s i) rows ≡ index_from k i es
column_index_total s i k [] es h = sym (
    index_from-none k i es
      λ t p. omega (arith, h (t - k), times-nil s i, ap (λ (n : ℕ). times n i es) (back t p)))
  where
    back : (t : ℕ) → k ≤ t → k + (t - k) ≡ t
    back t p = omega arith
column_index_total s i k (r ∷ rows) es h = omega (
  arith,
  index_from-suc k i es,
  h 0,
  ap (λ (n : ℕ). times n i es) (add-zero k),
  column_index_total s i (suc k) rows es (λ t. h (suc t) ∙ ap (λ n. times n i es) (omega arith)),
)

pub column_index :
    (s i : ℕ) (rows : List EdgeList) (es : EdgeList)
    → ((t : ℕ) → times s i (row rows t) ≡ times t i es)
    → sum_by (times s i) rows ≡ index_times i es
column_index s i rows es h =
    column_index_total s i 0 rows es (λ t. h t ∙ ap (λ n. times n i es) (omega arith))
    ∙ index_from-zero i es
