-- ===== src/GraphCopy/Copied.antt =====
-- The copy that `do_graph_copy` of src/graph/graph_copy.cc makes in an empty graph.
use graph_tool.AdjList.{AdjList, Edge, empty, num_edges, num_vertices}
use graph_tool.AdjList.Building.{
  AllEnds, add_edges-Grown, add_vertices-free, add_vertices_lem, length-renamed, pairs-all_edges,
  renamed, renamed-AllEnds,
}
use graph_tool.AdjList.Edges.{length-all_edges, occurrences-all_edges}
use graph_tool.AdjList.Iteration.{all_edges}
use graph_tool.AdjList.Rows.{vertex_times}
use graph_tool.AdjList.Valid.{
  IsValid, empty-IsValid, multiplicity, pair_count, source_lt, target_lt,
}
use graph_tool.Common.{
  [], ap, arith, count, get_or, length, length-replicate, refl, replicate, size_mod, subst, sym, ℕ,
  ◌<◌, ◌∙◌, ◌≡◌,
}
use graph_tool.GraphCopy.{Copying, Properties, copy_vertices, do_graph_copy}
use graph_tool.GraphCopy.Edges.{EdgesCopied, copied_edge, copy_edges-EdgesCopied}
use graph_tool.GraphCopy.Vertices.{VerticesCopied, copy_vertices-VerticesCopied}

module _ {ℓ} {A : Type ℓ} (d : (ℕ → A) × (ℕ → A)) (e0 : Edge) (src : AdjList)
    (vprops eprops : Properties A) where
  -- A copy of the graph `src`: as many vertices, and from a to b as many edges; the values of the
  -- vertices; for the edge at place j of the loop over the edges, an edge between the same vertices
  -- with index j, and its values.
  pub record IsCopy (t : Copying A) : Type ℓ where
    pub valid : IsValid t.tgt
    pub vertices : num_vertices t.tgt ≡ num_vertices src
    pub counts : (a b : ℕ) → pair_count a b t.tgt ≡ pair_count a b src
    pub vertex_value :
        (p v : ℕ)
        → p < length vprops
        → v < num_vertices src
        → (get_or t.vprops p d).1 v ≡ (get_or vprops p d).0 v
    pub edge :
        (j : ℕ)
        → j < length (all_edges src)
        → 0 < multiplicity (copied_edge e0 (all_edges src) 0 j) t.tgt
    pub edge_value :
        (p j : ℕ)
        → p < length eprops
        → j < length (all_edges src)
        → (get_or t.eprops p d).1 j ≡ (get_or eprops p d).0 (get_or (all_edges src) j e0).idx

  module _ (valid : IsValid src) (room : num_edges src < size_mod) where
    abbrev n : ℕ
    n = num_vertices src

    abbrev start : Copying A
    start = record { tgt = empty; index_map = replicate n 0; vprops = vprops; eprops = eprops }

    abbrev middle : Copying A
    middle = copy_vertices n 0 start

    placed : VerticesCopied d n 0 start middle
    unfolding num_vertices
    placed =
        copy_vertices-VerticesCopied d n 0 start empty-IsValid refl
          (omega (arith, length-replicate n (num_vertices empty)))

    added_vertices :
        IsValid middle.tgt
        × (num_vertices middle.tgt ≡ n)
        × (middle.tgt.last_idx ≡ 0)
        × (middle.tgt.n_edges ≡ 0)
        × ((a b : ℕ) → pair_count a b middle.tgt ≡ 0)
        × (middle.tgt.free_indexes ≡ [])
    unfolding num_vertices vertex_times
    added_vertices =
        let (w, number, last, count, before) = add_vertices_lem n empty empty-IsValid in
        rw placed.graph (w, omega (arith, number), last, count, before, add_vertices-free n empty)

    same_number : (v : ℕ) → v < num_vertices middle.tgt → get_or middle.index_map v 0 ≡ v
    same_number v h =
        let (_, number, _, _, _, _) = added_vertices in ground (arith, placed.index v, h, number)

    ends_below : AllEnds (num_vertices middle.tgt) (renamed (λ v. v) (all_edges src))
    unfolding num_vertices
    ends_below =
        let (_, number, _, _, _, _) = added_vertices in
        renamed-AllEnds n (num_vertices middle.tgt) (λ v. v) (all_edges src)
          (λ v h. omega (arith, h, number))
          (λ e h.
            let in_g : 0 < multiplicity e src = omega (arith, h, occurrences-all_edges e src) in
            (source_lt valid e in_g, omega (arith, target_lt valid e in_g, valid.sizes)))

    copied : EdgesCopied d e0 (all_edges src) middle (do_graph_copy src empty vprops eprops)
    unfolding do_graph_copy
    copied =
        let (w, _, last, count, _, free) = added_vertices in
        let size = length-all_edges src valid in
        copy_edges-EdgesCopied d e0 (all_edges src) middle w free ends_below same_number
          (omega (arith, last, size, room)) (omega (arith, count, size, room))

    -- With room for the edges of a well-formed graph, `do_graph_copy` in an empty graph makes a
    -- well-formed copy of it, with copies of the properties of vertices and edges.
    pub do_graph_copy-IsCopy : IsCopy (do_graph_copy src empty vprops eprops)
    do_graph_copy-IsCopy =
        let (w, number, last, count, none_yet, _) = added_vertices in
        let size = length-all_edges src valid in
        let li = length-renamed (λ v. v) (all_edges src) in
        let grown =
          add_edges-Grown (renamed (λ v. v) (all_edges src)) middle.tgt w ends_below
            (omega (arith, last, size, room, li)) (omega (arith, count, size, room, li)) in
        record {
          valid = subst IsValid (sym copied.graph) grown.valid;
          vertices = ap num_vertices copied.graph ∙ grown.vertices ∙ number;
          counts = λ a b.
              ap (pair_count a b) copied.graph
              ∙ omega (arith, grown.counts a b, none_yet a b, pairs-all_edges a b src);
          vertex_value = λ p v h q.
              ap (λ props. (get_or props p d).1 v) copied.vprops
              ∙ placed.value p v h
              ∙ ground (arith, q);
          edge = λ j h.
              subst
                (λ k.
                  0
                  < multiplicity (copied_edge e0 (all_edges src) k j)
                      (do_graph_copy src empty vprops eprops).tgt)
                last (copied.edge j h);
          edge_value = λ p j h q.
              let same = placed.eprops in
              let at : (get_or (do_graph_copy src empty vprops eprops).eprops p d).1 j
                  ≡ (get_or middle.eprops p d).0 (get_or (all_edges src) j e0).idx =
                ap (get_or (do_graph_copy src empty vprops eprops).eprops p d).1
                  (omega (arith, last))
                ∙ copied.value p j (omega (arith, h, ap length same)) q in
              at ∙ ap (λ props. (get_or props p d).0 (get_or (all_edges src) j e0).idx) same;
        }
