-- ===== src/GraphCopy/Vertices.antt =====
-- The properties and the loop over the vertices of `do_graph_copy` in src/graph/graph_copy.cc.
use graph_tool.AdjList.{add_vertex, num_vertices}
use graph_tool.AdjList.Adding.{add_vertex-IsValid}
use graph_tool.AdjList.Building.{add_vertices}
use graph_tool.AdjList.Rows.{same}
use graph_tool.AdjList.Valid.{IsValid}
use graph_tool.Common.{
  [], ap, arith, false, get_or, get_or-set, if◌then◌else◌, leb, length, length-set, ltb, refl, set,
  store, subst, suc, sym, zero, ℕ, ◌&&◌, ◌+◌, ◌<◌, ◌==◌, ◌∙◌, ◌∷◌, ◌≡◌, ◌≤◌,
}
use graph_tool.GraphCopy.{
  Copying, Properties, copy_properties, copy_property, copy_vertex, copy_vertices,
}
use native.Mathlib.Decide.{ℕ_discrete}

module _ {ℓ} {A : Type ℓ} (d : (ℕ → A) × (ℕ → A)) where
  pub length-copy_properties :
      (a b : ℕ) (props : Properties A) → length (copy_properties a b props) ≡ length props
  unfolding copy_properties
  length-copy_properties a b [] = refl
  length-copy_properties a b (p ∷ props) = ap suc (length-copy_properties a b props)

  -- One property after the loop over the properties.
  pub copy_properties-at :
      (a b : ℕ) (props : Properties A) (p i : ℕ)
      → p < length props
      → ((get_or (copy_properties a b props) p d).0 ≡ (get_or props p d).0)
        × ((get_or (copy_properties a b props) p d).1 i
            ≡ (if b == i then (get_or props p d).0 a else (get_or props p d).1 i))
  unfolding copy_properties copy_property store
  copy_properties-at a b [] p i h = absurd (omega arith)
  copy_properties-at a b (q ∷ props) zero i h = (refl, refl)
  copy_properties-at a b (q ∷ props) (suc p) i h = copy_properties-at a b props p i (omega arith)

  -- What the loop over m vertices from v on leaves, for vertices whose copies have the same number.
  pub record VerticesCopied (m v : ℕ) (c t : Copying A) : Type ℓ where
    pub graph : t.tgt ≡ add_vertices m c.tgt
    pub eprops : t.eprops ≡ c.eprops
    pub size : length t.index_map ≡ length c.index_map
    pub index :
        (u : ℕ)
        → get_or t.index_map u 0 ≡ (if leb v u && ltb u (v + m) then u else get_or c.index_map u 0)
    pub number : length t.vprops ≡ length c.vprops
    pub source : (p : ℕ) → p < length c.vprops → (get_or t.vprops p d).0 ≡ (get_or c.vprops p d).0
    pub value :
        (p u : ℕ)
        → p < length c.vprops
        → (get_or t.vprops p d).1 u ≡ (
            if leb v u && ltb u (v + m)
            then (get_or c.vprops p d).0 u
            else (get_or c.vprops p d).1 u)

  copy_vertex-same :
      (v : ℕ) (c : Copying A)
      → v < length c.index_map
      → num_vertices c.tgt ≡ v
      → copy_vertex v c ≡ record c {
        tgt = (add_vertex c.tgt).0;
        index_map = set c.index_map v v;
        vprops = copy_properties v v c.vprops;
      }
  unfolding copy_vertex add_vertex num_vertices
  copy_vertex-same v c inside same =
      let long : leb (length c.index_map) v ≡ false = ground (arith, inside) in rw (long, same) refl

  pub copy_vertices-VerticesCopied :
      (m v : ℕ) (c : Copying A)
      → IsValid c.tgt
      → num_vertices c.tgt ≡ v
      → v + m ≤ length c.index_map
      → VerticesCopied m v c (copy_vertices m v c)
  unfolding copy_vertices
  copy_vertices-VerticesCopied zero v c valid same fits = record {
    graph = refl;
    eprops = refl;
    size = refl;
    index = λ u. ground arith;
    number = refl;
    source = λ p h. refl;
    value = λ p u h. ground arith;
  }
  copy_vertices-VerticesCopied (suc m) v c valid same fits =
      let (w, _, one_more, _) = add_vertex-IsValid c.tgt valid in
      let next : Copying A = record c {
        tgt = (add_vertex c.tgt).0;
        index_map = set c.index_map v v;
        vprops = copy_properties v v c.vprops;
      } in
      let count = length-copy_properties v v c.vprops in
      let size = length-set c.index_map v v in
      let rest =
        copy_vertices-VerticesCopied m (suc v) next w (omega (arith, one_more, same))
          (omega (arith, fits, size)) in
      subst (λ x. VerticesCopied (suc m) v c (copy_vertices m (suc v) x))
        (sym (copy_vertex-same v c (omega (arith, fits)) same))
        (record {
          graph = rest.graph;
          eprops = rest.eprops;
          size = rest.size ∙ size;
          index = λ u.
              ground (arith, rest.index u, get_or-set c.index_map v u v 0 (omega (arith, fits)));
          number = rest.number ∙ count;
          source = λ p h.
              rest.source p (omega (arith, h, count)) ∙ (copy_properties-at v v c.vprops p 0 h).0;
          value = λ p u h.
              value_at m v c p u h ((get_or (copy_vertices m (suc v) next).vprops p d).1 u)
                (get_or next.vprops p d) (rest.value p u (omega (arith, h, count)))
                (copy_properties-at v v c.vprops p u h).0 (copy_properties-at v v c.vprops p u h).1;
        })
    where
      value_at :
          (m v : ℕ) (c : Copying A) (p u : ℕ)
          → p < length c.vprops
          → (x : A) (q : (ℕ → A) × (ℕ → A))
          → x ≡ (if leb (suc v) u && ltb u (suc v + m) then q.0 u else q.1 u)
          → q.0 ≡ (get_or c.vprops p d).0
          → q.1 u ≡ (if v == u then (get_or c.vprops p d).0 v else (get_or c.vprops p d).1 u)
          → x ≡ (
              if leb v u && ltb u (v + suc m)
              then (get_or c.vprops p d).0 u
              else (get_or c.vprops p d).1 u)
      value_at m v c p u h x q e0 e1 e2 = elim (ℕ_discrete v u) [
        | yes e ↦ ground (arith, e, e0, ap (λ f. f u) e1, e2, ap (get_or c.vprops p d).0 e)
        | no ne ↦ ground (arith, ne, e0, ap (λ f. f u) e1, e2)
      ]
