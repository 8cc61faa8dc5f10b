-- ===== src/AdjList/Clear/Passes.antt =====
-- One pass of the erasing loops of src/graph/graph_adjacency.hh, and the first loop of
-- `clear_vertex`, which makes a pass for every edge out of the vertex.
use graph_tool.AdjList.{AdjList, EdgeList, row}
use graph_tool.AdjList.Clear.{clear_target, clear_targets, freed, kept}
use graph_tool.AdjList.Reindex.{TargetsBelow}
use graph_tool.AdjList.Rows.{index_times, times, vertex_times}
use graph_tool.AdjList.Valid.{row-put_row}
use graph_tool.Common.{
  Bool, [], arith, count, count-append, false, if◌then◌else◌, length, length-set, not, refl, subst,
  sum_by, sum_by-set, sym, ℕ, ◌&&◌, ◌+◌, ◌-◌, ◌<◌, ◌==◌, ◌∷◌, ◌≡◌, ◌≢◌, ◌≤◌,
}

pub times-kept_other :
    (skip : Bool) (v s i : ℕ) (es : EdgeList) → s ≢ v → times s i (kept skip v es) ≡ times s i es
unfolding kept times
times-kept_other skip v s i [] ne = refl
times-kept_other skip v s i ((u, j) ∷ es) ne =
    ground (arith, times-kept_other (not skip && u == v) v s i es)

-- The entries of v that a pass does not keep are those whose index it frees.
pub times-kept-freed :
    (skip : Bool) (v i : ℕ) (es : EdgeList)
    → times v i (kept skip v es) + count i (freed skip v es) ≡ times v i es
unfolding kept freed times
times-kept-freed skip v i [] = refl
times-kept-freed skip v i ((u, j) ∷ es) =
    ground (arith, times-kept-freed (not skip && u == v) v i es)

pub index_times-kept-freed :
    (skip : Bool) (v i : ℕ) (es : EdgeList)
    → index_times i (kept skip v es) + count i (freed skip v es) ≡ index_times i es
unfolding kept freed index_times
index_times-kept-freed skip v i [] = refl
index_times-kept-freed skip v i ((u, j) ∷ es) =
    ground (arith, index_times-kept-freed (not skip && u == v) v i es)

vertex_times-kept-le :
    (skip : Bool) (v : ℕ) (es : EdgeList) → vertex_times v (kept skip v es) ≤ vertex_times v es
unfolding kept vertex_times
vertex_times-kept-le skip v [] = omega arith
vertex_times-kept-le skip v ((u, j) ∷ es) =
    ground (arith, vertex_times-kept-le (not skip && u == v) v es)

-- A pass takes at least one entry of v away, if there is one.
pub vertex_times-kept :
    (v : ℕ) (es : EdgeList) → vertex_times v (kept false v es) ≤ vertex_times v es - 1
unfolding kept vertex_times
vertex_times-kept v [] = omega arith
vertex_times-kept v ((u, j) ∷ es) =
    ground (arith, vertex_times-kept v es, vertex_times-kept-le (u == v) v es)

pub length-kept-freed :
    (skip : Bool) (v : ℕ) (es : EdgeList)
    → length (kept skip v es) + length (freed skip v es) ≡ length es
unfolding kept freed
length-kept-freed skip v [] = refl
length-kept-freed skip v ((u, j) ∷ es) = ground (arith, length-kept-freed (not skip && u == v) v es)

-- What the first loop leaves as it is.
pub record SameOut (g h : AdjList) : Type 0 where
  pub outgoing : h.out_edges ≡ g.out_edges
  pub number : h.n_edges ≡ g.n_edges
  pub last : h.last_idx ≡ g.last_idx
  pub table : length h.in_edges ≡ length g.in_edges

pub clear_targets-SameOut :
    (v : ℕ) (oes : EdgeList) (g : AdjList) → SameOut g (clear_targets v oes g)
unfolding clear_targets
clear_targets-SameOut v [] g = record { outgoing = refl; number = refl; last = refl; table = refl }
clear_targets-SameOut v ((t, k) ∷ oes) g =
    let rest = clear_targets-SameOut v oes (clear_target v t g) in
    record {
      outgoing = rest.outgoing;
      number = rest.number;
      last = rest.last;
      table = omega (arith, rest.table, length-set g.in_edges t (kept false v (row g.in_edges t)));
    }

module _ (v b : ℕ) where
  clear_target-row :
      (t : ℕ) (g : AdjList)
      → t < length g.in_edges
      → row (clear_target v t g).in_edges b
        ≡ (if t == b then kept false v (row g.in_edges t) else row g.in_edges b)
  unfolding clear_target
  clear_target-row t g h = row-put_row g.in_edges t b (kept false v (row g.in_edges t)) h

  clear_target-table :
      (t : ℕ) (g : AdjList) → length (clear_target v t g).in_edges ≡ length g.in_edges
  unfolding clear_target
  clear_target-table t g = length-set g.in_edges t (kept false v (row g.in_edges t))

  -- The loop leaves the in-edges from other sources.
  pub clear_targets-other :
      (s i : ℕ) (oes : EdgeList) (g : AdjList)
      → TargetsBelow (length g.in_edges) oes
      → s ≢ v
      → times s i (row (clear_targets v oes g).in_edges b) ≡ times s i (row g.in_edges b)
  unfolding clear_targets
  clear_targets-other s i [] g below ne = refl
  clear_targets-other s i ((t, k) ∷ oes) g below ne =
      let below' = subst (λ n. TargetsBelow n oes) (sym (clear_target-table t g)) below.1 in
      ground (
        arith,
        clear_targets-other s i oes (clear_target v t g) below' ne,
        clear_target-row t g below.0,
        times-kept_other false v s i (row g.in_edges t) ne,
      )

  -- It takes at least as many in-edges from v away as it makes passes over the list.
  pub clear_targets-fewer :
      (oes : EdgeList) (g : AdjList)
      → TargetsBelow (length g.in_edges) oes
      → vertex_times v (row (clear_targets v oes g).in_edges b)
        ≤ vertex_times v (row g.in_edges b) - vertex_times b oes
  unfolding clear_targets vertex_times
  clear_targets-fewer [] g below = omega arith
  clear_targets-fewer ((t, k) ∷ oes) g below =
      let below' = subst (λ n. TargetsBelow n oes) (sym (clear_target-table t g)) below.1 in
      ground (
        arith,
        clear_targets-fewer oes (clear_target v t g) below',
        clear_target-row t g below.0,
        vertex_times-kept v (row g.in_edges t),
      )

-- Each index that it frees belongs to an in-edge from v that it takes away.
pub clear_targets-freed :
    (v i : ℕ) (oes : EdgeList) (g : AdjList)
    → TargetsBelow (length g.in_edges) oes
    → sum_by (times v i) (clear_targets v oes g).in_edges
        + count i (clear_targets v oes g).free_indexes
      ≡ sum_by (times v i) g.in_edges + count i g.free_indexes
unfolding clear_targets
clear_targets-freed v i [] g below = refl
clear_targets-freed v i ((t, k) ∷ oes) g below =
    let below' = subst (λ n. TargetsBelow n oes) (sym (clear_target-table v t t g)) below.1 in
    omega (
      arith,
      clear_targets-freed v i oes (clear_target v t g) below',
      sum_by-set (times v i) g.in_edges t (kept false v (row g.in_edges t)) [] below.0,
      times-kept-freed false v i (row g.in_edges t),
      count-append i g.free_indexes (freed false v (row g.in_edges t)),
    )
