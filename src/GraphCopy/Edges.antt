-- ===== src/GraphCopy/Edges.antt =====
-- The loop over the edges of `do_graph_copy` in src/graph/graph_copy.cc.
-- In a graph without free indices a new edge takes the next one.
use graph_tool.AdjList.{AdjList, Edge, add_edge, link, num_edges, num_vertices, take_index}
use graph_tool.AdjList.Adding.{add_edge-IsValid, add_edge-vertices, add_edge_lem, added, new_edge}
use graph_tool.AdjList.Building.{AllEnds, add_edges, add_edges-Grown, length-renamed, renamed}
use graph_tool.AdjList.Linking.{same_edge}
use graph_tool.AdjList.Valid.{IsValid, multiplicity}
use graph_tool.Common.{
  List, [], ap, arith, get_or, length, refl, size_add, size_mod, subst, suc, sym, zero, ℕ, ◌+◌, ◌<◌,
  ◌∙◌, ◌∷◌, ◌≡◌,
}
use graph_tool.GraphCopy.{Copying, copy_edge, copy_edges, copy_properties}
use graph_tool.GraphCopy.Vertices.{copy_properties-at, length-copy_properties}

new_edge-next :
    (s t : ℕ) (g : AdjList)
    → g.free_indexes ≡ []
    → g.last_idx + 1 < size_mod
    → ((new_edge s t g).idx ≡ g.last_idx)
      × ((added s t g).last_idx ≡ g.last_idx + 1)
      × ((added s t g).free_indexes ≡ [])
unfolding add_edge take_index link size_add
new_edge-next s t g none_free room = rw none_free (refl, omega (arith, room), refl)

n_edges-added :
    (s t : ℕ) (g : AdjList)
    → num_edges (added s t g) ≡ num_edges g + 1
    → (added s t g).n_edges ≡ g.n_edges + 1
unfolding num_edges
n_edges-added s t g h = h

new_there :
    (s t : ℕ) (g : AdjList)
    → ((e : Edge) → multiplicity e (added s t g) ≡ multiplicity e g + same_edge (new_edge s t g) e)
    → (new_edge s t g).idx ≡ g.last_idx
    → 0 < multiplicity (record { source = s; target = t; idx = g.last_idx }) (added s t g)
unfolding add_edge
new_there s t g more takes =
    ground (arith, takes, more (record { source = s; target = t; idx = g.last_idx }))

-- The copy of the edge at place j of a list, where the first copy has index k.
abbrev pub copied_edge : Edge → List Edge → ℕ → ℕ → Edge
copied_edge e0 es k j = record {
  source = (get_or es j e0).source;
  target = (get_or es j e0).target;
  idx = k + j;
}

module _ {ℓ} {A : Type ℓ} (d : (ℕ → A) × (ℕ → A)) (e0 : Edge) where
  -- What the loop over the listed edges leaves, where vertices keep their numbers.
  pub record EdgesCopied (es : List Edge) (c t : Copying A) : Type ℓ where
    pub graph : t.tgt ≡ add_edges (renamed (λ v. v) es) c.tgt
    pub vprops : t.vprops ≡ c.vprops
    pub number : length t.eprops ≡ length c.eprops
    pub edge : (j : ℕ) → j < length es → 0 < multiplicity (copied_edge e0 es c.tgt.last_idx j) t.tgt
    pub source : (p : ℕ) → p < length c.eprops → (get_or t.eprops p d).0 ≡ (get_or c.eprops p d).0
    pub before :
        (p i : ℕ)
        → p < length c.eprops
        → i < c.tgt.last_idx
        → (get_or t.eprops p d).1 i ≡ (get_or c.eprops p d).1 i
    pub value :
        (p j : ℕ)
        → p < length c.eprops
        → j < length es
        → (get_or t.eprops p d).1 (c.tgt.last_idx + j)
          ≡ (get_or c.eprops p d).0 (get_or es j e0).idx

  edge_at :
      (e : Edge) (es : List Edge) (k l : ℕ) (tgt : AdjList)
      → l ≡ k + 1
      → 0 < multiplicity (record { source = e.source; target = e.target; idx = k }) tgt
      → ((j : ℕ) → j < length es → 0 < multiplicity (copied_edge e0 es l j) tgt)
      → (j : ℕ) → j < length (e ∷ es)
      → 0 < multiplicity (copied_edge e0 (e ∷ es) k j) tgt
  edge_at e es k l tgt last here rest zero h =
      subst (λ i. 0 < multiplicity (record { source = e.source; target = e.target; idx = i }) tgt)
        (omega arith) here
  edge_at e es k l tgt last here rest (suc j) h =
      let f = get_or es j e0 in
      subst (λ i. 0 < multiplicity (record { source = f.source; target = f.target; idx = i }) tgt)
        (omega (arith, last)) (rest j (omega (arith, h)))

  value_at :
      (e : Edge) (es : List Edge) (k l : ℕ) (from to : ℕ → A)
      → l ≡ k + 1
      → to k ≡ from e.idx
      → ((j : ℕ) → j < length es → to (l + j) ≡ from (get_or es j e0).idx)
      → (j : ℕ) → j < length (e ∷ es)
      → to (k + j) ≡ from (get_or (e ∷ es) j e0).idx
  value_at e es k l from to last here rest zero h = ap to (omega arith) ∙ here
  value_at e es k l from to last here rest (suc j) h =
      ap to (omega (arith, last)) ∙ rest j (omega (arith, h))

  copy_edge-same :
      (e : Edge) (c : Copying A)
      → get_or c.index_map e.source 0 ≡ e.source
      → get_or c.index_map e.target 0 ≡ e.target
      → (new_edge e.source e.target c.tgt).idx ≡ c.tgt.last_idx
      → copy_edge e c ≡ record c {
        tgt = added e.source e.target c.tgt;
        eprops = copy_properties e.idx c.tgt.last_idx c.eprops;
      }
  unfolding copy_edge
  copy_edge-same e c at_s at_t takes = rw (at_s, at_t, takes) refl

  pub copy_edges-EdgesCopied :
      (es : List Edge) (c : Copying A)
      → IsValid c.tgt
      → c.tgt.free_indexes ≡ []
      → AllEnds (num_vertices c.tgt) (renamed (λ v. v) es)
      → ((v : ℕ) → v < num_vertices c.tgt → get_or c.index_map v 0 ≡ v)
      → c.tgt.last_idx + length es < size_mod
      → c.tgt.n_edges + length es < size_mod
      → EdgesCopied es c (copy_edges es c)
  unfolding copy_edges
  copy_edges-EdgesCopied [] c valid none_free all index room_idx room = record {
    graph = refl;
    vprops = refl;
    number = refl;
    edge = λ j h. absurd (omega (arith, h));
    source = λ p h. refl;
    before = λ p i h q. refl;
    value = λ p j h q. absurd (omega (arith, q));
  }
  copy_edges-EdgesCopied (e ∷ es) c valid none_free all index room_idx room =
      let ri : c.tgt.last_idx + 1 < size_mod = omega (arith, room_idx) in
      let rn : c.tgt.n_edges + 1 < size_mod = omega (arith, room) in
      let g = added e.source e.target c.tgt in
      let w = add_edge-IsValid e.source e.target c.tgt valid all.0 all.1.0 ri rn in
      let vertices = add_edge-vertices e.source e.target c.tgt valid all.0 all.1.0 ri rn in
      let (_, _, _, number, more) =
        add_edge_lem e.source e.target c.tgt valid all.0 all.1.0 ri rn in
      let (takes, last, free) = new_edge-next e.source e.target c.tgt none_free ri in
      let ends = subst (λ n. AllEnds n (renamed (λ v. v) es)) (sym vertices) all.1.1 in
      let k = c.tgt.last_idx in
      let next : Copying A = record c { tgt = g; eprops = copy_properties e.idx k c.eprops } in
      let count = length-copy_properties d e.idx k c.eprops in
      let one_more = n_edges-added e.source e.target c.tgt number in
      let li = length-renamed (λ v. v) es in
      let rest =
        copy_edges-EdgesCopied es next w free ends (λ v h. index v (omega (arith, h, vertices)))
          (omega (arith, room_idx, last)) (omega (arith, room, one_more)) in
      let grown =
        add_edges-Grown (renamed (λ v. v) es) g w ends (omega (arith, room_idx, last, li))
          (omega (arith, room, one_more, li)) in
      subst (λ x. EdgesCopied (e ∷ es) c (copy_edges es x))
        (sym (copy_edge-same e c (index e.source all.0) (index e.target all.1.0) takes))
        (record {
          graph = rest.graph;
          vprops = rest.vprops;
          number = rest.number ∙ count;
          source = λ p h.
              rest.source p (omega (arith, h, count))
              ∙ (copy_properties-at d e.idx k c.eprops p 0 h).0;
          before = λ p i h q.
              rest.before p i (omega (arith, h, count)) (omega (arith, q, last))
              ∙ (copy_properties-at d e.idx k c.eprops p i h).1
              ∙ ground (arith, q);
          edge =
              edge_at e es k g.last_idx (copy_edges es next).tgt last
                (omega (
                  arith,
                  new_there e.source e.target c.tgt more takes,
                  grown.more (record { source = e.source; target = e.target; idx = k }),
                  ap (multiplicity (record { source = e.source; target = e.target; idx = k }))
                      rest.graph,
                ))
                rest.edge;
          value = λ p j h.
              value_at e es k g.last_idx (get_or c.eprops p d).0
                (get_or (copy_edges es next).eprops p d).1 last
                (rest.before p k (omega (arith, h, count)) (omega (arith, last))
                  ∙ (copy_properties-at d e.idx k c.eprops p k h).1
                  ∙ ground arith)
                (λ i q.
                  rest.value p i (omega (arith, h, count)) q
                  ∙ ap (λ f. f (get_or es i e0).idx)
                      (copy_properties-at d e.idx k c.eprops p 0 h).0)
                j;
        })
