-- ===== src/GraphInterface/Purged.antt =====
-- `PurgeVertices` of src/graph/graph_filtering.cc: the graph that is left, and `old_index`.
use graph_tool.AdjList.{AdjList, EdgeList, num_vertices, row}
use graph_tool.AdjList.Clear.{remove_vertex}
use graph_tool.AdjList.Clear.Erased.{remove_vertex-out_edges, remove_vertex-table}
use graph_tool.AdjList.Valid.{IsValid}
use graph_tool.Common.{
  Bool, Bool-cases, List, [], ap, arith, erase_at, false, get_or, if◌then◌else◌, inl, inr,
  int_rounds_down, int_rounds_down_lem, length, ltb, map, not, refl, some, store, suc, sym, true,
  zero, ℕ, ◌++◌, ◌+◌, ◌-◌, ◌<◌, ◌^◌, ◌∙◌, ◌∷◌, ◌≡◌, ◌≤◌,
}
use graph_tool.GraphInterface.{GraphInterface, mask_filter}
use graph_tool.GraphInterface.Kept.{
  all_rows, below, erase_at-below, get_or-deleted_flags, kept_below, kept_down, kept_down-at,
  length-kept_below, length-kept_down, row-below,
}
use graph_tool.GraphInterface.PurgeVertices.{
  deleted_flags, purge_masked, purge_vertices, remove_deleted, targets_within, visit_deleted,
  write_old,
}
use mathlib.Core.List.{append-nil, append_assoc, filter}
use mathlib.Core.Path.{ap₂}
use native.Mathlib.Decide.{ℕ_discrete}

module _ (g₀ : AdjList) (filter : ℕ → Bool) (n : ℕ) where
  abbrev deleted : List Bool
  deleted = deleted_flags filter 0 n

  abbrev old_row : ℕ → EdgeList
  old_row i = row g₀.out_edges i

  -- How many of m vertices from v on stay.
  abbrev pub stay_count : ℕ → ℕ → ℕ
  stay_count zero v = 0
  stay_count (suc m) v = (if filter v then 1 else 0) + stay_count m (suc v)

  -- When the turn of a masked vertex comes, with the vertices below it and those above it that stay,
  -- its edges lead to numbers of these.
  abbrev pub IsWithin : Type 0
  IsWithin =
      (v : ℕ)
      → v < n
      → filter v ≡ false
      → targets_within (suc v + stay_count (n - suc v) (suc v)) (old_row v) ≡ true

  stay_count-step :
      (v : ℕ)
      → v < n
      → stay_count (n - v) v ≡ (if filter v then 1 else 0) + stay_count (n - suc v) (suc v)
  stay_count-step v h =
      let size : n - v ≡ suc (n - suc v) = omega (arith, h) in ap (λ m. stay_count m v) size

  -- The state before the vertices below i are looked at: those from i on that stay are xs.
  record Purging (i : ℕ) (g : AdjList) (xs : List ℕ) : Type 0 where
    low : i ≤ n
    rows : g.out_edges ≡ map old_row (below i ++ xs)
    table : length g.in_edges ≡ i + length xs
    count : length xs ≡ stay_count (n - i) i

  Purging-stays :
      (i : ℕ) (g : AdjList) (xs : List ℕ)
      → filter i ≡ true
      → Purging (suc i) g xs
      → Purging i g (i ∷ xs)
  unfolding below
  Purging-stays i g xs stays p = record {
    low = omega (arith, p.low);
    rows = p.rows ∙ ap (map old_row) (append_assoc (below i) (i ∷ []) xs);
    table = omega (arith, p.table);
    count = ground (arith, p.count, stay_count-step i p.low, stays);
  }

  Purging-goes :
      (i : ℕ) (g : AdjList) (xs : List ℕ)
      → filter i ≡ false
      → Purging (suc i) g xs
      → Purging i (remove_vertex i g) xs
  Purging-goes i g xs goes p = record {
    low = omega (arith, p.low);
    rows =
        remove_vertex-out_edges i g
        ∙ ap (λ rows. erase_at rows i) p.rows
        ∙ erase_at-below i xs old_row;
    table = omega (arith, p.table, remove_vertex-table i g (omega (arith, p.table)));
    count = ground (arith, p.count, stay_count-step i p.low, goes);
  }

  remove_deleted_lem :
      (i : ℕ) (g : AdjList) (old_indexes xs : List ℕ)
      → IsWithin
      → Purging i g xs
      → (g' : AdjList) × ((remove_deleted deleted i (g, old_indexes)
            ≡ some (g', old_indexes ++ kept_down filter i))
          × (g'.out_edges ≡ map old_row (kept_below filter i ++ xs)))
  unfolding remove_deleted visit_deleted below
  remove_deleted_lem zero g old_indexes xs all p =
      (g, (ap (λ o. some (g, o)) (sym (append-nil old_indexes)), p.rows))
  remove_deleted_lem (suc i) g old_indexes xs all p =
      let flag : get_or deleted i false ≡ not (filter i) =
        get_or-deleted_flags filter n 0 i p.low ∙ ap (λ x. not (filter x)) (omega arith) in
      elim (Bool-cases (filter i)) [
        | inl stays ↦
            let at_i : get_or deleted i false ≡ false = flag ∙ ap not stays in
            let (g', (result, out)) =
              remove_deleted_lem i g (old_indexes ++ i ∷ []) (i ∷ xs) all
                (Purging-stays i g xs stays p) in
            (
              g',
              (
                rw (remove_deleted, visit_deleted, at_i, stays)
                    (result
                      ∙ ap (λ o. some (g', o))
                          (append_assoc old_indexes (i ∷ []) (kept_down filter i))),
                rw stays
                    (out ∙ ap (map old_row) (sym (append_assoc (kept_below filter i) (i ∷ []) xs))),
              ),
            )
        | inr goes ↦
            let at_i : get_or deleted i false ≡ true = flag ∙ ap not goes in
            let places : length g.in_edges ≡ suc i + stay_count (n - suc i) (suc i) =
              p.table ∙ ap (λ k. suc i + k) p.count in
            let edges : row g.out_edges i ≡ old_row i =
              ap (λ rows. row rows i) p.rows ∙ row-below i xs old_row in
            let fits : targets_within (length g.in_edges) (row g.out_edges i) ≡ true =
              ap₂ targets_within places edges ∙ all i p.low goes in
            let (g', (result, out)) =
              remove_deleted_lem i (remove_vertex i g) old_indexes xs all
                (Purging-goes i g xs goes p) in
            (g', (rw (remove_deleted, visit_deleted, at_i, fits, goes) result, rw goes out))
      ]

write_old_lem :
    (old_indexes : List ℕ) (n i j : ℕ) (old_index : ℕ → ℕ)
    → i ≤ n
    → j < n
    → write_old old_indexes n i old_index j
      ≡ (if ltb j (n - i) then old_index j else get_or old_indexes (n - 1 - j) 0)
unfolding write_old
write_old_lem old_indexes n zero j old_index h low = ground (arith, low)
write_old_lem old_indexes n (suc i) j old_index h low =
    write_old_lem old_indexes n i j (store (n - 1 - i) (get_or old_indexes i 0) old_index)
      (omega (arith, h)) low
    ∙ elim (ℕ_discrete (n - 1 - i) j) [
      | yes here ↦
          let place : n - 1 - j ≡ i = omega (arith, h, here) in
          unfold store in ground (arith, h, low, here, ap (λ p. get_or old_indexes p 0) place)
      | no other ↦ unfold store in ground (arith, h, low, other)
    ]

write_old-kept :
    (filter : ℕ → Bool) (n : ℕ) (old_index : ℕ → ℕ) (k : ℕ)
    → n < 2 ^ 31
    → k < length (kept_below filter n)
    → write_old
        (kept_down filter n)
        (length (kept_down filter n))
        (int_rounds_down (length (kept_down filter n)))
        old_index
        k
      ≡ get_or (kept_below filter n) k 0
write_old-kept filter n old_index k few h =
    let old = kept_down filter n in
    let m = length old in
    let size = length-kept_down filter n in
    let rounds = int_rounds_down_lem m (omega (arith, few, size, length-kept_below filter n)) in
    let written = write_old_lem old m m k old_index (omega arith) (omega (arith, h, size)) in
    ap (λ r. write_old old m r old_index k) rounds
    ∙ written
    ∙ ground arith
    ∙ ap (λ l. get_or old (l - 1 - k) 0) size
    ∙ kept_down-at filter n k h

purge_vertices-active :
    (gi : GraphInterface) (old_index : ℕ → ℕ)
    → gi.vertex_filter_active ≡ true
    → purge_vertices old_index gi ≡ purge_masked old_index gi
unfolding purge_vertices
purge_vertices-active gi old_index active = rw active refl

-- With an active vertex filter on a well-formed graph of fewer than 2 ^ 31 vertices, where each edge
-- out of a masked vertex leads to a number below that of the vertices that are there when the loop,
-- which goes down, comes to the masked vertex: `PurgeVertices` reads nothing out of bounds and
-- leaves as many vertices as the filter lets through, in the same order: each has the list of
-- out-edges that it had, in which the targets keep their old numbers, and `old_index` has its old
-- number. The filter stays active.
pub purge_vertices_lem :
    (gi : GraphInterface) (old_index : ℕ → ℕ)
    → IsValid gi.mg
    → gi.vertex_filter_active ≡ true
    → num_vertices gi.mg < 2 ^ 31
    → IsWithin gi.mg (mask_filter gi.vertex_filter_map gi.vertex_filter_invert) (num_vertices gi.mg)
    → let kept =
        kept_below
          (mask_filter gi.vertex_filter_map gi.vertex_filter_invert)
          (num_vertices gi.mg) in
      (purged : GraphInterface) × ((old_index' : ℕ → ℕ) × ((purge_vertices old_index gi
            ≡ some (purged, old_index'))
          × ((purged.mg.out_edges ≡ map (row gi.mg.out_edges) kept)
              × (((k : ℕ) → k < length kept → old_index' k ≡ get_or kept k 0)
                  × (purged.vertex_filter_active ≡ true)))))
unfolding purge_masked num_vertices
purge_vertices_lem gi old_index valid active few all =
    let n = length gi.mg.out_edges in
    let filter = mask_filter gi.vertex_filter_map gi.vertex_filter_invert in
    let old = kept_down filter n in
    let all_seen : n - n ≡ 0 = omega arith in
    let (g', (result, out)) = remove_deleted_lem gi.mg filter n n gi.mg [] [] all (record {
      low = omega arith;
      rows = all_rows gi.mg.out_edges;
      table = omega (arith, valid.sizes);
      count = sym (ap (λ m. stay_count gi.mg filter n m n) all_seen);
    }) in
    let masked : purge_masked old_index gi
        ≡ some (
          record gi { mg = g' },
          write_old old (length old) (int_rounds_down (length old)) old_index,
        ) =
      rw (purge_masked, int_rounds_down_lem n few, result) refl in
    (
      record gi { mg = g' },
      (
        write_old old (length old) (int_rounds_down (length old)) old_index,
        (
          purge_vertices-active gi old_index active ∙ masked,
          (
            out ∙ ap (map (row gi.mg.out_edges)) (append-nil (kept_below filter n)),
            (λ k h. write_old-kept filter n old_index k few h, active),
          ),
        ),
      ),
    )
