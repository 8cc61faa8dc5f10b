-- ===== src/Subgraph/Stack.antt =====
-- The stack of `find_mappings` in src/graph/topology/graph_subgraph_isomorphism.hh: its invariant, and
-- a measure of the rounds that it may still take.
use graph_tool.AdjList.{AdjList, Edge, num_vertices}
use graph_tool.Common.{
  Bool, List, [], ap, arith, length, refl, subst, suc, sym, true, zero, ℕ, ◌+◌, ◌-◌, ◌<◌, ◌∙◌, ◌∷◌,
  ◌≡◌, ◌≤◌,
}
use graph_tool.Subgraph.{Mapping, candidates, member}
use graph_tool.Subgraph.Frames.{Belongs, Part}
use graph_tool.Subgraph.Mappings.{AllMapped, AllMapped-erase, Distinct}
use graph_tool.Subgraph.Search.{Frame, SearchState, budget, pop_frame, row_budget}

-- How many rounds the candidates of a frame take at most.
abbrev pub left_weight : ℕ → List ℕ → ℕ
left_weight b [] = 1
left_weight b (c ∷ cs) = suc b + left_weight b cs

pub left_weight-le : (b n : ℕ) (cs : List ℕ) → length cs ≤ n → left_weight b cs ≤ row_budget n b
left_weight-le b zero [] h = omega arith
left_weight-le b (suc n) [] h = omega (arith, left_weight-le b n [] (omega arith))
left_weight-le b zero (c ∷ cs) h = absurd (omega (arith, h))
left_weight-le b (suc n) (c ∷ cs) h = omega (arith, left_weight-le b n cs (omega (arith, h)))

-- The mapping without its last pair.
abbrev pub shorter : Mapping → Mapping
shorter [] = []
shorter (p ∷ f) = f

module _ (vertex_labelling : ℕ → ℕ → Bool) (edge_labelling : Edge → Edge → Bool) (sub g : AdjList)
    (vlist vindex : List ℕ) where
  pub record IsFrame (frame : Frame) (f : Mapping) : Type 0 where
    pub belongs :
        Belongs vertex_labelling edge_labelling sub g vlist vindex frame.vertex f frame.matrix
    pub inside : suc frame.vertex < num_vertices sub
    pub among :
        (c : ℕ)
        → member c frame.left ≡ true
        → member c (candidates frame.matrix frame.vertex) ≡ true

  abbrev pub AllFrames : List Frame → Mapping → Type 0
  AllFrames [] f = Unit {0}
  AllFrames (frame ∷ stack) f = IsFrame frame f × AllFrames stack (shorter f)

  abbrev pub AllEmbed : List Mapping → Type 0
  AllEmbed [] = Unit {0}
  AllEmbed (f ∷ found) =
      Part vertex_labelling edge_labelling sub g vlist vindex (num_vertices sub) f × AllEmbed found

  pub record Searching (s : SearchState) : Type 0 where
    pub frames : AllFrames s.stack s.mapping
    pub mapped : AllMapped s.mapping s.already_mapped
    pub found : AllEmbed s.found

  abbrev pub frame_weight : Frame → ℕ
  frame_weight frame =
      left_weight (budget (num_vertices g) (num_vertices sub - suc frame.vertex)) frame.left

  abbrev pub weight : List Frame → ℕ
  weight [] = 0
  weight (frame ∷ stack) = frame_weight frame + weight stack

  -- A whole set of candidates weighs no more than the budget.
  pub whole_weight :
      (i : ℕ) (cs : List ℕ)
      → i < num_vertices sub
      → length cs ≤ num_vertices g
      → left_weight (budget (num_vertices g) (num_vertices sub - suc i)) cs
        ≤ budget (num_vertices g) (num_vertices sub - i)
  whole_weight i cs h few =
      let one_more : num_vertices sub - i ≡ suc (num_vertices sub - suc i) = omega (arith, h) in
      let next = ap (budget (num_vertices g)) one_more in
      omega (
        arith,
        next,
        left_weight-le (budget (num_vertices g) (num_vertices sub - suc i)) (num_vertices g) cs few,
      )

  pub pop_frame-Searching :
      (frame : Frame) (stack : List Frame) (s : SearchState)
      → Searching s
      → s.stack ≡ frame ∷ stack
      → Searching (pop_frame stack s)
  unfolding pop_frame
  pop_frame-Searching frame stack s inv top = by_mapping s.mapping refl
    where
      frames : AllFrames (frame ∷ stack) s.mapping
      frames = subst (λ st. AllFrames st s.mapping) top inv.frames

      by_mapping : (f : Mapping) → s.mapping ≡ f → Searching (pop_frame stack s)
      by_mapping [] e =
          rw (pop_frame, e)
            (record {
              frames = subst (AllFrames stack) (ap shorter e ∙ sym e) frames.1;
              mapped = inv.mapped;
              found = inv.found;
            })
      by_mapping ((v, c) ∷ f) e =
          let distinct = subst Distinct e frames.0.belongs.part.distinct in
          let mapped = subst (λ f. AllMapped f s.already_mapped) e inv.mapped in
          rw (pop_frame, e)
            (record {
              frames = subst (λ f. AllFrames stack (shorter f)) e frames.1;
              mapped = AllMapped-erase f c s.already_mapped mapped.1 distinct.0;
              found = inv.found;
            })
