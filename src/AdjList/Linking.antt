-- ===== src/AdjList/Linking.antt =====
-- The two halves of `add_edge` of src/graph/graph_adjacency.hh: the choice of an index, and the
-- insertion into both lists.
use graph_tool.AdjList.{AdjList, Edge, link, row, take_index}
use graph_tool.AdjList.Rows.{index_times, index_times-append_one, same, times, times-append_one}
use graph_tool.AdjList.Valid.{IsValid, multiplicity, row-put_row, uses}
use graph_tool.Common.{
  List, [], ap, arith, count, if◌then◌else◌, length, length-append, ltb, refl, size_add_lem,
  size_mod, sum_by, sum_by-set, ℕ, ◌&&◌, ◌++◌, ◌+◌, ◌<◌, ◌==◌, ◌∷◌, ◌≡◌,
}

-- 1 if the two descriptors are equal.
abbrev pub same_edge : Edge → Edge → ℕ
same_edge e f = if e.source == f.source && (e.target == f.target && e.idx == f.idx) then 1 else 0

-- Index i was neither in use nor free in g, or free and is taken out: h is g without it.
pub record Takes (g : AdjList) (i : ℕ) (h : AdjList) : Type 0 where
  pub outgoing : h.out_edges ≡ g.out_edges
  pub incoming : h.in_edges ≡ g.in_edges
  pub number : h.n_edges ≡ g.n_edges
  pub uses_left : (j : ℕ) → uses j h + same j i ≡ (if ltb j h.last_idx then 1 else 0)

pub take_index-Takes :
    (g : AdjList)
    → IsValid g
    → g.last_idx + 1 < size_mod
    → (free : List ℕ) → g.free_indexes ≡ free
    → Takes g (take_index free g).0 (take_index free g).1
unfolding take_index
take_index-Takes g v room [] e = record {
  outgoing = refl;
  incoming = refl;
  number = refl;
  uses_left = λ j. ground (arith, v.indexed j, size_add_lem g.last_idx 1 room);
}
take_index-Takes g v room (i ∷ free) e = record {
  outgoing = refl;
  incoming = refl;
  number = refl;
  uses_left = λ j. ground (arith, v.indexed j, ap (count j) e);
}

module _ (s t i : ℕ) (h : AdjList) (in_s : s < length h.out_edges)
    (in_t : t < length h.in_edges) where
  pub link-multiplicity :
      (e : Edge)
      → multiplicity e (link s t i h)
        ≡ multiplicity e h + same_edge (record { source = s; target = t; idx = i }) e
  unfolding link
  link-multiplicity e = ground (
    arith,
    row-put_row h.out_edges s e.source (row h.out_edges s ++ (t, i) ∷ []) in_s,
    times-append_one e.target e.idx t i (row h.out_edges s),
  )

  pub link-uses : (j : ℕ) → uses j (link s t i h) ≡ uses j h + same j i
  unfolding link
  link-uses j = omega (
    arith,
    sum_by-set (index_times j) h.out_edges s (row h.out_edges s ++ (t, i) ∷ []) [] in_s,
    index_times-append_one j t i (row h.out_edges s),
  )

  pub link-mirror :
      ((a b j : ℕ) → times b j (row h.out_edges a) ≡ times a j (row h.in_edges b))
      → (a b j : ℕ)
      → times b j (row (link s t i h).out_edges a) ≡ times a j (row (link s t i h).in_edges b)
  unfolding link
  link-mirror m a b j = ground (
    arith,
    m a b j,
    row-put_row h.out_edges s a (row h.out_edges s ++ (t, i) ∷ []) in_s,
    row-put_row h.in_edges t b (row h.in_edges t ++ (s, i) ∷ []) in_t,
    times-append_one b j t i (row h.out_edges s),
    times-append_one a j s i (row h.in_edges t),
  )

  pub link-counted :
      h.n_edges ≡ sum_by length h.out_edges
      → h.n_edges + 1 < size_mod
      → ((link s t i h).n_edges ≡ h.n_edges + 1)
        × ((link s t i h).n_edges ≡ sum_by length (link s t i h).out_edges)
  unfolding link
  link-counted c room =
      let n = size_add_lem h.n_edges 1 room in
      let total = sum_by-set length h.out_edges s (row h.out_edges s ++ (t, i) ∷ []) [] in_s in
      let more = length-append (row h.out_edges s) ((t, i) ∷ []) in
      (n, omega (arith, n, total, more))
