-- ===== src/Generation/Union/Merged.antt =====
-- What `graph_union` and `property_union` of src/graph/generation/graph_union.hh build.
use graph_tool.AdjList.{AdjList, Edge, num_edges, num_vertices}
use graph_tool.AdjList.Adding.{add_edge-IsValid, add_edge-vertices, add_edge_lem, added}
use graph_tool.AdjList.Building.{
  AllEnds, add_edge-last, add_edges-Grown, add_vertices_lem, length-renamed, renamed,
  renamed-AllEnds,
}
use graph_tool.AdjList.Edges.{length-all_edges, occurrences, occurrences-all_edges}
use graph_tool.AdjList.Iteration.{all_edges}
use graph_tool.AdjList.Unique.{same_source, same_target}
use graph_tool.AdjList.Valid.{
  IsValid, multiplicity, multiplicity-le-one, pair_count, source_lt, target_lt,
}
use graph_tool.Common.{
  Bool-cases, List, [], ap, arith, count, inl, inr, length, refl, size_mod, store, subst, sym, true,
  ℕ, ◌+◌, ◌<◌, ◌^◌, ◌∙◌, ◌∷◌, ◌≡◌, ◌≤◌, ◌⊎◌,
}
use graph_tool.Generation.Union.{
  UnionState, graph_union, map_edge, map_edges, map_vertices, union_edge_property,
}
use graph_tool.Generation.Union.Edges.{Apart, Linked, Linked-cons, tail-Apart}
use graph_tool.Generation.Union.Vertices.{Placed, map_vertices-Placed, new_vertices, stands}
use graph_tool.GraphInterface.{new}
use native.Mathlib.Decide.{ℕ_discrete}

map_edges-Linked :
    (es : List Edge) (s : UnionState)
    → IsValid s.ug
    → Apart es
    → AllEnds (num_vertices s.ug) (renamed s.vmap es)
    → s.ug.last_idx + length es < size_mod
    → s.ug.n_edges + length es < size_mod
    → Linked es s (map_edges es s)
unfolding map_edges occurrences num_edges
map_edges-Linked [] s valid apart all room_idx room = record {
  graph = refl;
  vmap = refl;
  others = λ i h. refl;
  ends = λ e h. absurd (omega (arith, h));
  fresh = λ e x h q. absurd (omega (arith, h));
  injective = λ e f h q. absurd (omega (arith, h));
}
map_edges-Linked (e ∷ es) s valid apart all room_idx room =
    let ri : s.ug.last_idx + 1 < size_mod = omega (arith, room_idx) in
    let rn : s.ug.n_edges + 1 < size_mod = omega (arith, room) in
    let a = s.vmap e.source in
    let b = s.vmap e.target in
    let w = add_edge-IsValid a b s.ug valid all.0 all.1.0 ri rn in
    let vertices = add_edge-vertices a b s.ug valid all.0 all.1.0 ri rn in
    let (_, _, _, number, _) = add_edge_lem a b s.ug valid all.0 all.1.0 ri rn in
    let ends = subst (λ n. AllEnds n (renamed s.vmap es)) (sym vertices) all.1.1 in
    let li = length-renamed s.vmap es in
    let room_idx' : (added a b s.ug).last_idx + length es < size_mod =
      omega (arith, room_idx, add_edge-last a b s.ug) in
    let room' : (added a b s.ug).n_edges + length es < size_mod = omega (arith, room, number) in
    let p = map_edges-Linked es (map_edge e s) w (tail-Apart e es apart) ends room_idx' room' in
    let grown =
      add_edges-Grown (renamed s.vmap es) (added a b s.ug) w ends (omega (arith, room_idx', li))
        (omega (arith, room', li)) in
    Linked-cons e es s valid apart all.0 all.1.0 ri rn (map_edges es (map_edge e s)) p
      (λ x. omega (arith, grown.more x, ap (multiplicity x) p.graph))

all_edges-Apart : (g : AdjList) → IsValid g → Apart (all_edges g)
all_edges-Apart g valid = record {
  once = λ e. omega (arith, occurrences-all_edges e g, multiplicity-le-one valid e);
  by_idx = λ e f h q same.
      let in_e : 0 < multiplicity e g = omega (arith, h, occurrences-all_edges e g) in
      let in_f : 0 < multiplicity f g = omega (arith, q, occurrences-all_edges f g) in
      ground
        (arith, same, same_source valid e f in_e in_f same, same_target valid e f in_e in_f same);
}

union_edge_property-at {ℓ} :
    {A : Type ℓ} (es : List Edge) (emap : ℕ → Edge) (prop uprop : ℕ → A) (i j : ℕ)
    → ((f : Edge) → 0 < occurrences f es → (emap f.idx).idx ≡ i → f.idx ≡ j)
    → uprop i ≡ prop j ⊎ ((e : Edge) × ((0 < occurrences e es) × ((emap e.idx).idx ≡ i)))
    → union_edge_property es emap prop uprop i ≡ prop j
unfolding union_edge_property store occurrences
union_edge_property-at [] emap prop uprop i j only (inl done) = done
union_edge_property-at [] emap prop uprop i j only (inr (e, (h, q))) = absurd (omega (arith, h))
union_edge_property-at (f ∷ es) emap prop uprop i j only start =
    let next = store (emap f.idx).idx (prop f.idx) uprop in
    let only' : (x : Edge) → 0 < occurrences x es → (emap x.idx).idx ≡ i → x.idx ≡ j =
      λ x h q. only x (omega (arith, h)) q in
    elim (ℕ_discrete (emap f.idx).idx i) [
      | yes here ↦
          union_edge_property-at es emap prop next i j only'
            (inl (ground (arith, here, ap prop (only f (ground arith) here))))
      | no elsewhere ↦ elim start [
        | inl done ↦
            union_edge_property-at es emap prop next i j only'
              (inl (ground (arith, elsewhere, done)))
        | inr (e, (h, q)) ↦ elim (ℕ_discrete (occurrences e es) 0) [
          | no later ↦
              union_edge_property-at es emap prop next i j only'
                (inr (e, (omega (arith, later), q)))
          | yes gone ↦
              let same : f.idx ≡ e.idx = ground (arith, h, gone) in
              absurd (elsewhere (ap (λ k. (emap k).idx) same ∙ q))
        ]
      ]
    ]

module _ (g : AdjList) (s : UnionState) (valid_g : IsValid g) (valid : IsValid s.ug)
    (mapped : (v : ℕ) → v < num_vertices g → s.vmap v ≤ num_vertices s.ug)
    (few : num_vertices s.ug + num_vertices g < 2 ^ 31)
    (room_idx : s.ug.last_idx + num_edges g < size_mod)
    (room : s.ug.n_edges + num_edges g < size_mod) where
  abbrev n : ℕ
  n = num_vertices g

  abbrev middle : UnionState
  middle = map_vertices n n 0 s

  placed : Placed n s.vmap n 0 s middle
  placed =
      map_vertices-Placed n s.vmap (omega (arith, few)) n 0 s valid (omega (arith, few))
        (λ u h. refl)

  placed_lt : (v : ℕ) → v < n → middle.vmap v < num_vertices s.ug + new_vertices n s.vmap n 0
  placed_lt v h = elim (Bool-cases (stands n s.vmap v)) [
    | inl old ↦ omega (arith, placed.kept v (ground (arith, h, old)), mapped v h, ground_pos v old)
    | inr new ↦ (placed.fresh v (ground (arith, h, new))).1
  ]
    where
      ground_pos : (v : ℕ) → stands n s.vmap v ≡ true → 0 < s.vmap v
      ground_pos v old = ground (arith, old)

  grown_vertices :
      IsValid middle.ug
      × (num_vertices middle.ug ≡ num_vertices s.ug + new_vertices n s.vmap n 0)
      × (middle.ug.last_idx ≡ s.ug.last_idx)
      × (middle.ug.n_edges ≡ s.ug.n_edges)
      × ((a b : ℕ) → pair_count a b middle.ug ≡ pair_count a b s.ug)
  grown_vertices = rw placed.graph (add_vertices_lem (new_vertices n s.vmap n 0) s.ug valid)

  listed : length (all_edges g) ≡ num_edges g
  listed = length-all_edges g valid_g

  ends_below : AllEnds (num_vertices middle.ug) (renamed middle.vmap (all_edges g))
  unfolding num_vertices
  ends_below =
      let (_, number, _, _, _) = grown_vertices in
      renamed-AllEnds n (num_vertices middle.ug) middle.vmap (all_edges g)
        (λ v h. omega (arith, placed_lt v h, number))
        (λ e h.
          let in_g : 0 < multiplicity e g = omega (arith, h, occurrences-all_edges e g) in
          (source_lt valid_g e in_g, omega (arith, target_lt valid_g e in_g, valid_g.sizes)))

  linked : Linked (all_edges g) middle (graph_union g s)
  unfolding graph_union
  linked =
      let (w, _, last, count, _) = grown_vertices in
      map_edges-Linked (all_edges g) middle w (all_edges-Apart g valid_g) ends_below
        (omega (arith, room_idx, last, listed)) (omega (arith, room, count, listed))

  -- Under the same conditions, `property_union` on a property of edges gives the edge of the union
  -- that stands for an edge e of g the value of e, and that edge leads from where the source of e is
  -- mapped to where its target is.
  pub graph_union-edge_property {ℓ} :
      {A : Type ℓ} (prop uprop : ℕ → A) (e : Edge)
      → 0 < multiplicity e g
      → let t = graph_union g s in
        (union_edge_property (all_edges g) t.emap prop uprop (t.emap e.idx).idx ≡ prop e.idx)
        × ((t.emap e.idx).source ≡ t.vmap e.source)
        × ((t.emap e.idx).target ≡ t.vmap e.target)
        × (0 < multiplicity (t.emap e.idx) t.ug)
  graph_union-edge_property prop uprop e in_g =
      let t = graph_union g s in
      let there : 0 < occurrences e (all_edges g) =
        omega (arith, in_g, occurrences-all_edges e g) in
      let (from, to, stays) = linked.ends e there in
      (
        union_edge_property-at (all_edges g) t.emap prop uprop (t.emap e.idx).idx e.idx
            (λ f h same. linked.injective f e h there same) (inr (e, (there, refl))),
        from ∙ ap (λ f. f e.source) (sym linked.vmap),
        to ∙ ap (λ f. f e.target) (sym linked.vmap),
        stays,
      )
