-- ===== src/AdjList/Reindex.antt =====
-- `reindex_edges` of src/graph/graph_adjacency.hh: the new indices, and the in-lists.
use graph_tool.AdjList.{
  AdjList, EdgeList, Reindexed, num_edges, put_row, reindex_edges, reindex_row, reindex_rows, row,
}
use graph_tool.AdjList.Rows.{index_times, times, times-append_one, times-nil}
use graph_tool.AdjList.Valid.{IsValid, row-put_row, target_lt}
use graph_tool.Common.{
  List, [], ap, arith, get_or-replicate, if◌then◌else◌, leb, length, length-replicate, length-set,
  ltb, map, refl, replicate, size_add, size_add_lem, size_mod, subst, suc, sum_by, sym, zero, ℕ,
  ◌&&◌, ◌++◌, ◌+◌, ◌-◌, ◌<◌, ◌==◌, ◌∷◌, ◌≡◌,
}
use graph_tool.GraphInterface.Kept.{below}
use mathlib.Core.Path.{ap₂}

-- Every entry leads to one of n vertices.
abbrev pub TargetsBelow : ℕ → EdgeList → Type 0
TargetsBelow n [] = Unit {0}
TargetsBelow n ((u, _) ∷ es) = (u < n) × TargetsBelow n es

abbrev pub AllTargetsBelow : ℕ → List EdgeList → Type 0
AllTargetsBelow n [] = Unit {0}
AllTargetsBelow n (es ∷ rows) = TargetsBelow n es × AllTargetsBelow n rows

-- The vertices of an edge list, without the indices.
abbrev pub ends : EdgeList → List ℕ
ends es = map (λ e. e.0) es

-- 1 for the indexes from a up to b.
abbrev pub within : ℕ → ℕ → ℕ → ℕ
within a b j = if leb a j && ltb j b then 1 else 0

-- What the renumbering of the edges out of i has done.
record RowDone (i : ℕ) (es : EdgeList) (r : Reindexed) (es' : EdgeList) (r' : Reindexed)
    : Type 0 where
  targets : ends es' ≡ ends es
  size : length es' ≡ length es
  next : r'.next ≡ r.next + length es
  table : length r'.incoming ≡ length r.incoming
  indexes : (j : ℕ) → index_times j es' ≡ within r.next r'.next j
  incoming :
      (a b j : ℕ)
      → times a j (row r'.incoming b)
        ≡ times a j (row r.incoming b) + (if a == i then times b j es' else 0)

reindex_row-RowDone :
    (i : ℕ) (es : EdgeList) (r : Reindexed)
    → TargetsBelow (length r.incoming) es
    → r.next + length es < size_mod
    → RowDone i es r (reindex_row i es r).0 (reindex_row i es r).1
unfolding reindex_row times index_times
reindex_row-RowDone i [] r below room = record {
  targets = refl;
  size = refl;
  next = omega arith;
  table = refl;
  indexes = λ j. ground arith;
  incoming = λ a b j. ground arith;
}
reindex_row-RowDone i ((v, k) ∷ es) r below room =
    let table = length-set r.incoming v (row r.incoming v ++ (i, r.next) ∷ []) in
    let r' : Reindexed = record {
      incoming = put_row r.incoming v (row r.incoming v ++ (i, r.next) ∷ []);
      next = size_add r.next 1;
    } in
    let step = size_add_lem r.next 1 (omega arith) in
    let done =
      reindex_row-RowDone i es r' (subst (λ n. TargetsBelow n es) (sym table) below.1)
        (omega (arith, step)) in
    record {
      targets = ap (◌∷◌ v) done.targets;
      size = omega (arith, done.size);
      next = omega (arith, done.next, step);
      table = omega (arith, done.table, table);
      indexes = λ j. ground (arith, done.indexes j, done.next, step);
      incoming = λ a b j. ground (
        arith,
        done.incoming a b j,
        row-put_row r.incoming v b (row r.incoming v ++ (i, r.next) ∷ []) below.0,
        times-append_one a j i r.next (row r.incoming v),
      );
    }

-- The row of a vertex in a table that begins with vertex k.
abbrev row_from : ℕ → List EdgeList → ℕ → EdgeList
row_from k rows a = if leb k a then row rows (a - k) else []

record RowsDone (k : ℕ) (rows : List EdgeList) (r : Reindexed) (rows' : List EdgeList)
    (r' : Reindexed) : Type 0 where
  targets : map ends rows' ≡ map ends rows
  size : length rows' ≡ length rows
  total : sum_by length rows' ≡ sum_by length rows
  next : r'.next ≡ r.next + sum_by length rows
  table : length r'.incoming ≡ length r.incoming
  indexes : (j : ℕ) → sum_by (index_times j) rows' ≡ within r.next r'.next j
  incoming :
      (a b j : ℕ)
      → times a j (row r'.incoming b)
        ≡ times a j (row r.incoming b) + times b j (row_from k rows' a)

row-cons :
    (n : ℕ) (es : EdgeList) (rows : List EdgeList)
    → row (es ∷ rows) n ≡ (if n == 0 then es else row rows (n - 1))
row-cons zero es rows = refl
row-cons (suc n) es rows = ground arith

row_from-cons :
    (k a : ℕ) (es : EdgeList) (rows : List EdgeList)
    → row_from k (es ∷ rows) a ≡ (if a == k then es else row_from (suc k) rows a)
row_from-cons k a es rows = ground (arith, row-cons (a - k) es rows)

reindex_rows-RowsDone :
    (k : ℕ) (rows : List EdgeList) (r : Reindexed)
    → AllTargetsBelow (length r.incoming) rows
    → r.next + sum_by length rows < size_mod
    → RowsDone k rows r (reindex_rows k rows r).0 (reindex_rows k rows r).1
unfolding reindex_rows
reindex_rows-RowsDone k [] r below room = record {
  targets = refl;
  size = refl;
  total = refl;
  next = omega arith;
  table = refl;
  indexes = λ j. ground arith;
  incoming = λ a b j. ground (arith, times-nil b j);
}
reindex_rows-RowsDone k (es ∷ rows) r below room =
    let one = reindex_row-RowDone k es r below.0 (omega arith) in
    let r' = (reindex_row k es r).1 in
    let done =
      reindex_rows-RowsDone (suc k) rows r'
        (subst (λ n. AllTargetsBelow n rows) (sym one.table) below.1) (omega (arith, one.next)) in
    record {
      targets = ap₂ ◌∷◌ one.targets done.targets;
      size = omega (arith, done.size);
      total = omega (arith, done.total, one.size);
      next = omega (arith, done.next, one.next);
      table = omega (arith, done.table, one.table);
      indexes = λ j. ground (arith, done.indexes j, one.indexes j, done.next, one.next);
      incoming = λ a b j. ground (
        arith,
        done.incoming a b j,
        one.incoming a b j,
        row_from-cons k a (reindex_row k es r).0 (reindex_rows (suc k) rows r').0,
        times-nil b j,
      );
    }

module _ (g : AdjList) (below : AllTargetsBelow (length g.out_edges) g.out_edges)
    (counted : g.n_edges ≡ sum_by length g.out_edges) (bounded : g.n_edges < size_mod) where
  abbrev blank : Reindexed
  blank = record { incoming = replicate (length g.out_edges) []; next = 0 }

  abbrev blank_size : length blank.incoming ≡ length g.out_edges
  blank_size = length-replicate (length g.out_edges) []

  done :
      RowsDone 0 g.out_edges blank
        (reindex_rows 0 g.out_edges blank).0
        (reindex_rows 0 g.out_edges blank).1
  done =
      reindex_rows-RowsDone 0 g.out_edges blank
        (subst (λ n. AllTargetsBelow n g.out_edges) (sym blank_size) below) (omega arith)

  -- Where every out-edge leads to a vertex and `_n_edges`, which `reindex_edges` does not set, is
  -- already the number of the out-edges and within the range of size_t: whatever the in-lists, the
  -- indices and the free indices were, `reindex_edges` makes the graph well formed.
  pub reindex_edges-IsValid : IsValid (reindex_edges g)
  unfolding reindex_edges times
  reindex_edges-IsValid = record {
    sizes = omega (arith, done.size, done.table, blank_size);
    mirror = λ s t i.
        ground
          (arith, done.incoming s t i, ap (times s i) (get_or-replicate (length g.out_edges) t []));
    counted = omega (arith, done.total);
    bounded = bounded;
    indexed = λ i. ground (arith, done.indexes i);
  }

  -- Where every out-edge leads to a vertex and `_n_edges` is their number, `reindex_edges` keeps
  -- the out-edges of each vertex with their targets and their order, leaves no free index, and uses
  -- exactly the indices below the number of edges, each once.
  pub reindex_edges_lem :
      (map ends (reindex_edges g).out_edges ≡ map ends g.out_edges)
      × (num_edges (reindex_edges g) ≡ num_edges g)
      × ((reindex_edges g).last_idx ≡ num_edges g)
      × ((reindex_edges g).free_indexes ≡ [])
      × ((i : ℕ)
          → sum_by (index_times i) (reindex_edges g).out_edges
            ≡ (if ltb i (num_edges g) then 1 else 0))
  unfolding reindex_edges num_edges
  reindex_edges_lem = (
    done.targets,
    refl,
    omega (arith, done.next),
    refl,
    λ i. ground (arith, done.indexes i, done.next),
  )

-- A well-formed graph has no edge that leads out of it.
TargetsBelow-intro :
    (n : ℕ) (es : EdgeList) → ((t i : ℕ) → 0 < times t i es → t < n) → TargetsBelow n es
unfolding times
TargetsBelow-intro n [] h = tt
TargetsBelow-intro n ((u, j) ∷ es) h =
    (h u j (ground arith), TargetsBelow-intro n es (λ t i p. h t i (omega arith)))

AllTargetsBelow-intro :
    (n : ℕ) (rows : List EdgeList)
    → ((s t i : ℕ) → 0 < times t i (row rows s) → t < n)
    → AllTargetsBelow n rows
AllTargetsBelow-intro n [] h = tt
AllTargetsBelow-intro n (es ∷ rows) h =
    (TargetsBelow-intro n es (h 0), AllTargetsBelow-intro n rows (λ s. h (suc s)))

pub IsValid-AllTargetsBelow :
    (g : AdjList) → IsValid g → AllTargetsBelow (length g.out_edges) g.out_edges
IsValid-AllTargetsBelow g v =
    AllTargetsBelow-intro (length g.out_edges) g.out_edges
      λ s t i h. omega (arith, v.sizes, target_lt v (record { source = s; target = t; idx = i }) h)

-- Reindexing a well-formed graph keeps it well formed.
pub reindex_edges-keeps_IsValid : (g : AdjList) → IsValid g → IsValid (reindex_edges g)
reindex_edges-keeps_IsValid g v =
    reindex_edges-IsValid g (IsValid-AllTargetsBelow g v) v.counted v.bounded
