-- ===== src/AdjList/Clear/Erased.antt =====
-- `remove_vertex` of src/graph/graph_adjacency.hh: what it does to the lists of the out-edges, of any
-- graph.
use graph_tool.AdjList.{AdjList, EdgeList, put_row, row}
use graph_tool.AdjList.Clear.{clear_targets, clear_vertex, drop_in, drop_out, remove_vertex}
use graph_tool.AdjList.Clear.Passes.{clear_targets-SameOut}
use graph_tool.AdjList.Clear.Vertex.{clear_sources-none}
use graph_tool.Common.{
  List, [], ap, arith, erase_at, length, length-set, refl, suc, zero, ℕ, ◌+◌, ◌<◌, ◌∙◌, ◌∷◌, ◌≡◌,
}

row-put_empty : (rows : List EdgeList) (v : ℕ) → row (put_row rows v []) v ≡ []
row-put_empty [] v = refl
row-put_empty (es ∷ rows) zero = refl
row-put_empty (es ∷ rows) (suc v) = row-put_empty rows v

erase_at-put_row :
    (rows : List EdgeList) (v : ℕ) (es : EdgeList)
    → erase_at (put_row rows v es) v ≡ erase_at rows v
erase_at-put_row [] v es = refl
erase_at-put_row (x ∷ rows) zero es = refl
erase_at-put_row (x ∷ rows) (suc v) es = ap (◌∷◌ x) (erase_at-put_row rows v es)

length-erase_at {ℓ} :
    {A : Type ℓ} (xs : List A) (i : ℕ) → i < length xs → length (erase_at xs i) + 1 ≡ length xs
length-erase_at [] i h = absurd (omega (arith, h))
length-erase_at (x ∷ xs) zero h = omega arith
length-erase_at (x ∷ xs) (suc i) h = omega (arith, length-erase_at xs i (omega (arith, h)))

-- The second loop of `clear_vertex` does nothing.
clear_vertex-drop :
    (v : ℕ) (g : AdjList)
    → clear_vertex v g ≡ drop_in v (drop_out v (clear_targets v (row g.out_edges v) g))
unfolding clear_vertex drop_out
clear_vertex-drop v g =
    let scanned = clear_targets v (row g.out_edges v) g in
    ap (drop_in v) (
      clear_sources-none (suc (length (row (drop_out v scanned).out_edges v))) v
        (drop_out v scanned) (row-put_empty scanned.out_edges v))

clear_vertex-out_edges :
    (v : ℕ) (g : AdjList) → (clear_vertex v g).out_edges ≡ put_row g.out_edges v []
unfolding drop_in drop_out
clear_vertex-out_edges v g =
    ap (λ h. h.out_edges) (clear_vertex-drop v g)
    ∙ ap (λ rows. put_row rows v []) (clear_targets-SameOut v (row g.out_edges v) g).outgoing

clear_vertex-table : (v : ℕ) (g : AdjList) → length (clear_vertex v g).in_edges ≡ length g.in_edges
unfolding drop_in drop_out
clear_vertex-table v g =
    let scanned = clear_targets v (row g.out_edges v) g in
    ap (λ h. length h.in_edges) (clear_vertex-drop v g)
    ∙ length-set scanned.in_edges v []
    ∙ (clear_targets-SameOut v (row g.out_edges v) g).table

pub remove_vertex-table :
    (v : ℕ) (g : AdjList)
    → v < length g.in_edges
    → length (remove_vertex v g).in_edges + 1 ≡ length g.in_edges
unfolding remove_vertex
remove_vertex-table v g h =
    let table = clear_vertex-table v g in
    omega (arith, table, length-erase_at (clear_vertex v g).in_edges v (omega (arith, table, h)))

pub remove_vertex-out_edges :
    (v : ℕ) (g : AdjList) → (remove_vertex v g).out_edges ≡ erase_at g.out_edges v
unfolding remove_vertex
remove_vertex-out_edges v g =
    ap (λ rows. erase_at rows v) (clear_vertex-out_edges v g) ∙ erase_at-put_row g.out_edges v []
