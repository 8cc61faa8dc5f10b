-- ===== src/Generation/Predecessor/Links.antt =====
-- What src/graph/generation/graph_predecessor.hh builds: one edge for each vertex with a predecessor.
use graph_tool.AdjList.{AdjList, add_vertex, null_vertex, num_vertices}
use graph_tool.AdjList.Adding.{added}
use graph_tool.AdjList.Building.{
  AllEnds, add_edges, add_edges-Grown, add_vertices, add_vertices_lem, pairs,
}
use graph_tool.AdjList.Valid.{IsValid, pair_count}
use graph_tool.Common.{
  Bool-cases, List, [], ap, arith, count, false, if◌then◌else◌, inl, inr, leb, length, ltb, not,
  refl, size_add, size_mod, store, subst, suc, sym, true, zero, ℕ, ◌%◌, ◌&&◌, ◌+◌, ◌<◌, ◌==◌, ◌∙◌,
  ◌∷◌, ◌≡◌, ◌≤◌,
}
use graph_tool.Generation.Predecessor.{add_indexed, get_predecessor_graph, link_predecessors}
use native.Mathlib.Decide.{ℕ_discrete}

module _ (n : ℕ) (pred_map : ℕ → ℕ) where
  -- The edges that the second loop adds.
  abbrev links : ℕ → ℕ → List (ℕ × ℕ)
  links zero v = []
  links (suc m) v =
      let rest = links m (suc v) in
      if ltb (pred_map v) n && not (pred_map v == v) then (pred_map v, v) ∷ rest else rest

  length-links : (m v : ℕ) → length (links m v) ≤ m
  length-links zero v = omega arith
  length-links (suc m) v = elim (Bool-cases (ltb (pred_map v) n && not (pred_map v == v))) [
    | inl linked ↦ ground (arith, linked, length-links m (suc v))
    | inr alone ↦ ground (arith, alone, length-links m (suc v))
  ]

  links-AllEnds : (k m v : ℕ) → v + m ≤ n → AllEnds (k + n) (links m v)
  links-AllEnds k zero v h = tt
  links-AllEnds k (suc m) v h = elim (Bool-cases (ltb (pred_map v) n && not (pred_map v == v))) [
    | inl linked ↦
        rw linked
          (ground (arith, linked), (omega (arith, h), links-AllEnds k m (suc v) (omega (arith, h))))
    | inr alone ↦ rw alone (links-AllEnds k m (suc v) (omega (arith, h)))
  ]

  pairs-links :
      (a b m v : ℕ)
      → pairs a b (links m v)
        ≡ (if leb v b && ltb b (v + m) && pred_map b == a && ltb a n && not (a == b) then 1 else 0)
  pairs-links a b zero v = ground arith
  pairs-links a b (suc m) v = elim (Bool-cases (ltb (pred_map v) n && not (pred_map v == v))) [
    | inl linked ↦ elim (ℕ_discrete v b) [
      | yes e ↦ ground (arith, linked, e, ap pred_map e, pairs-links a b m (suc v))
      | no ne ↦ ground (arith, linked, ne, pairs-links a b m (suc v))
    ]
    | inr alone ↦ elim (ℕ_discrete v b) [
      | yes e ↦ ground (arith, alone, e, ap pred_map e, pairs-links a b m (suc v))
      | no ne ↦ ground (arith, alone, ne, pairs-links a b m (suc v))
    ]
  ]

  module _ (index_map : ℕ → ℕ) (same : (u : ℕ) → u < n → index_map u ≡ u) (few : n < size_mod) where
    link_predecessors-links :
        (m v : ℕ) (pg : AdjList)
        → v + m ≤ n
        → link_predecessors n pred_map index_map m v pg ≡ add_edges (links m v) pg
    unfolding link_predecessors
    link_predecessors-links zero v pg h = refl
    link_predecessors-links (suc m) v pg h =
        let rest = link_predecessors-links m (suc v) in
        elim (Bool-cases (leb n (pred_map v))) [
          | inl outside ↦
              let off : (ltb (pred_map v) n && not (pred_map v == v)) ≡ false =
                ground (arith, outside) in
              rw (outside, off) (rest pg (omega (arith, h)))
          | inr inside ↦
              let real : (pred_map v == null_vertex) ≡ false = ground (arith, inside, few) in
              let below : ltb (pred_map v) n ≡ true = ground (arith, inside) in
              let at_v = same v (omega (arith, h)) in
              let at_pred = same (pred_map v) (ground (arith, inside)) in
              elim (Bool-cases (pred_map v == v)) [
                | inl own ↦ rw (inside, real, below, own) (rest pg (omega (arith, h)))
                | inr other ↦
                    rw (inside, real, below, other, at_v, at_pred)
                      (rest (added (pred_map v) v pg) (omega (arith, h)))
              ]
        ]

add_indexed_lem :
    (m v : ℕ) (index_map : ℕ → ℕ) (pg : AdjList)
    → v + m < size_mod
    → ((add_indexed m v v index_map pg).1 ≡ add_vertices m pg)
      × ((u : ℕ)
          → (add_indexed m v v index_map pg).0 u
            ≡ (if leb v u && ltb u (v + m) then u else index_map u))
unfolding add_indexed store size_add
add_indexed_lem zero v index_map pg h = (refl, λ u. ground arith)
add_indexed_lem (suc m) v index_map pg h =
    let next : (v + 1) % size_mod ≡ suc v = omega (arith, h) in
    let (graph, index) =
      add_indexed_lem m (suc v) (store v v index_map) (add_vertex pg).0 (omega (arith, h)) in
    rw (add_indexed, next) (graph, λ u. ground (arith, index u))

-- With room for a new vertex and a new edge for each vertex of g, `get_predecessor_graph` adds as many
-- vertices as g has to a well-formed graph, and one edge from a to b for each vertex b of g whose
-- predecessor is a vertex a of g other than b; the graph stays well formed.
pub get_predecessor_graph_lem :
    (g : AdjList) (pred_map index_map : ℕ → ℕ) (pg : AdjList)
    → IsValid pg
    → num_vertices g < size_mod
    → pg.last_idx + num_vertices g < size_mod
    → pg.n_edges + num_vertices g < size_mod
    → let n = num_vertices g in
      let after = get_predecessor_graph g pred_map index_map pg in
      IsValid after
      × (num_vertices after ≡ num_vertices pg + n)
      × ((a b : ℕ)
          → pair_count a b after
            ≡ pair_count a b pg
              + (if ltb b n && pred_map b == a && ltb a n && not (a == b) then 1 else 0))
unfolding get_predecessor_graph
get_predecessor_graph_lem g pred_map index_map pg valid few room_idx room =
    let n = num_vertices g in
    let (graph, index) = add_indexed_lem n 0 index_map pg (omega (arith, few)) in
    let (w, number, last, count, before) = add_vertices_lem n pg valid in
    let short = length-links n pred_map n 0 in
    let same =
      link_predecessors-links n pred_map (add_indexed n 0 0 index_map pg).0
        (λ u h. ground (arith, h, index u)) few n 0 (add_vertices n pg) (omega arith) in
    let grown =
      add_edges-Grown (links n pred_map n 0) (add_vertices n pg) w
        (subst (λ k. AllEnds k (links n pred_map n 0)) (sym number)
          (links-AllEnds n pred_map (num_vertices pg) n 0 (omega arith)))
        (omega (arith, short, last, room_idx)) (omega (arith, short, count, room)) in
    rw (graph, same)
      (
        grown.valid,
        grown.vertices ∙ number,
        λ a b. ground (arith, grown.counts a b, before a b, pairs-links n pred_map a b n 0),
      )
