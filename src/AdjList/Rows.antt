-- ===== src/AdjList/Rows.antt =====
-- Counting in the edge lists of the adjacency list: the entries with a vertex and an index, with a
-- vertex, or with an index.
use graph_tool.AdjList.{EdgeList, erase_first}
use graph_tool.Common.{
  Bool-cases, [], arith, if◌then◌else◌, inl, inr, length, refl, suc, ℕ, ◌&&◌, ◌++◌, ◌+◌, ◌-◌, ◌<◌,
  ◌==◌, ◌∷◌, ◌≡◌, ◌≤◌,
}

-- 1 at equal numbers.
abbrev pub same : ℕ → ℕ → ℕ
same a b = if a == b then 1 else 0

-- How many entries are (t, i).
unfoldable pub times : ℕ → ℕ → EdgeList → ℕ
times t i [] = 0
times t i ((u, j) ∷ es) = (if t == u && i == j then 1 else 0) + times t i es

-- How many entries have the vertex t.
unfoldable pub vertex_times : ℕ → EdgeList → ℕ
vertex_times t [] = 0
vertex_times t ((u, j) ∷ es) = same t u + vertex_times t es

-- How many entries have the index i.
unfoldable pub index_times : ℕ → EdgeList → ℕ
index_times i [] = 0
index_times i ((u, j) ∷ es) = same i j + index_times i es

pub times-nil : (t i : ℕ) → times t i [] ≡ 0
unfolding times
times-nil t i = refl

pub index_times-nil : (i : ℕ) → index_times i [] ≡ 0
unfolding index_times
index_times-nil i = refl

pub vertex_times-nil : (t : ℕ) → vertex_times t [] ≡ 0
unfolding vertex_times
vertex_times-nil t = refl

pub times-append_one :
    (t i u j : ℕ) (es : EdgeList)
    → times t i (es ++ (u, j) ∷ []) ≡ times t i es + (if t == u && i == j then 1 else 0)
unfolding times
times-append_one t i u j [] = omega arith
times-append_one t i u j ((w, k) ∷ es) = omega (arith, times-append_one t i u j es)

pub index_times-append_one :
    (i u j : ℕ) (es : EdgeList) → index_times i (es ++ (u, j) ∷ []) ≡ index_times i es + same i j
unfolding index_times
index_times-append_one i u j [] = omega arith
index_times-append_one i u j ((w, k) ∷ es) = omega (arith, index_times-append_one i u j es)

pub times-erase_first :
    (t i u j : ℕ) (es : EdgeList)
    → times t i (erase_first u j es) ≡ times t i es - (if t == u && i == j then 1 else 0)
unfolding times erase_first
times-erase_first t i u j [] = omega arith
times-erase_first t i u j ((w, k) ∷ es) = ground (arith, times-erase_first t i u j es)

-- One entry with the index is erased, if there is one at all.
pub index_times-erase_first :
    (i u j : ℕ) (es : EdgeList)
    → 0 < times u j es
    → index_times i (erase_first u j es) + same i j ≡ index_times i es
unfolding times index_times erase_first
index_times-erase_first i u j [] h = absurd (omega arith)
index_times-erase_first i u j ((w, k) ∷ es) h = ground (arith, index_times-erase_first i u j es)

pub vertex_times-erase_first :
    (t u j : ℕ) (es : EdgeList)
    → 0 < times u j es
    → vertex_times t (erase_first u j es) + same t u ≡ vertex_times t es
unfolding times vertex_times erase_first
vertex_times-erase_first t u j [] h = absurd (omega arith)
vertex_times-erase_first t u j ((w, k) ∷ es) h = ground (arith, vertex_times-erase_first t u j es)

pub length-erase_first :
    (u j : ℕ) (es : EdgeList) → 0 < times u j es → suc (length (erase_first u j es)) ≡ length es
unfolding times erase_first
length-erase_first u j [] h = absurd (omega arith)
length-erase_first u j ((w, k) ∷ es) h = ground (arith, length-erase_first u j es)

pub times-le-length : (t i : ℕ) (es : EdgeList) → times t i es ≤ length es
unfolding times
times-le-length t i [] = omega arith
times-le-length t i ((u, j) ∷ es) = ground (arith, times-le-length t i es)

pub times-le-index_times : (t i : ℕ) (es : EdgeList) → times t i es ≤ index_times i es
unfolding times index_times
times-le-index_times t i [] = omega arith
times-le-index_times t i ((u, j) ∷ es) = ground (arith, times-le-index_times t i es)

-- Without an entry for a vertex there is none to count.
pub vertex_times-eq-zero :
    (t : ℕ) (es : EdgeList) → ((i : ℕ) → times t i es ≡ 0) → vertex_times t es ≡ 0
unfolding times vertex_times
vertex_times-eq-zero t [] h = refl
vertex_times-eq-zero t ((u, j) ∷ es) h =
    ground (arith, h j, vertex_times-eq-zero t es (λ i. omega (arith, h i)))

pub times-le-vertex_times : (t i : ℕ) (es : EdgeList) → times t i es ≤ vertex_times t es
unfolding times vertex_times
times-le-vertex_times t i [] = omega arith
times-le-vertex_times t i ((u, j) ∷ es) = ground (arith, times-le-vertex_times t i es)

-- Two lists that hold the entries of t and of s under the same indices hold as many of them.
pub vertex_times-eq :
    (t s : ℕ) (es fs : EdgeList)
    → ((i : ℕ) → times t i es ≡ times s i fs)
    → vertex_times t es ≡ vertex_times s fs
unfolding times vertex_times
vertex_times-eq t s es [] h = vertex_times-eq-zero t es h
vertex_times-eq t s es ((u, j) ∷ fs) h = elim (Bool-cases (s == u)) [
  | inl e ↦
      let one : 0 < times t j es = ground (arith, h j) in
      let rest =
        vertex_times-eq t s (erase_first t j es) fs
          (λ i. ground (arith, h i, times-erase_first t i t j es)) in
      ground (arith, rest, vertex_times-erase_first t t j es one)
  | inr e ↦ ground (arith, vertex_times-eq t s es fs (λ i. ground (arith, h i)))
]

pub vertex_times-append_one :
    (t u j : ℕ) (es : EdgeList) → vertex_times t (es ++ (u, j) ∷ []) ≡ vertex_times t es + same t u
unfolding vertex_times
vertex_times-append_one t u j [] = omega arith
vertex_times-append_one t u j ((w, k) ∷ es) = omega (arith, vertex_times-append_one t u j es)
