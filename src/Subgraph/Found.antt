-- ===== src/Subgraph/Found.antt =====
-- The main loop of `find_mappings` in src/graph/topology/graph_subgraph_isomorphism.hh.
use graph_tool.AdjList.{AdjList, Edge, num_vertices}
use graph_tool.AdjList.Valid.{IsValid, multiplicity}
use graph_tool.Common.{
  Bool, Bool-cases, List, Option, [], ap, arith, false, get_or, inl, inr, length, length-set, ltb,
  refl, set, some, subst, suc, sym, true, zero, ℕ, ◌-◌, ◌<◌, ◌==◌, ◌||◌, ◌∙◌, ◌∷◌, ◌≡◌, ◌≢◌,
}
use graph_tool.Subgraph.{Mapping, Matrix, candidates, erase, insert, member}
use graph_tool.Subgraph.Frames.{Belongs}
use graph_tool.Subgraph.Mappings.{AllMapped, AllMapped-erase, AllMapped-insert, Differs}
use graph_tool.Subgraph.Refined.{Refined, refine_check-Outcome}
use graph_tool.Subgraph.Search.{Frame, SearchState, budget, descend, pop_frame, search_loop, step}
use graph_tool.Subgraph.Stack.{
  AllFrames, Searching, left_weight, pop_frame-Searching, weight, whole_weight,
}
use graph_tool.Subgraph.Steps.{all_prime, visit_leafs-Copies, longer-Part, Refined-Belongs}

pop_frame-stack : (stack : List Frame) (s : SearchState) → (pop_frame stack s).stack ≡ stack
unfolding pop_frame
pop_frame-stack stack s = by_mapping s.mapping refl
  where
    by_mapping : (f : Mapping) → s.mapping ≡ f → (pop_frame stack s).stack ≡ stack
    by_mapping [] e = rw (pop_frame, e) refl
    by_mapping (p ∷ f) e = rw (pop_frame, e) refl

module _ (vertex_labelling : ℕ → ℕ → Bool) (edge_labelling : Edge → Edge → Bool) (sub g : AdjList)
    (vlist vindex : List ℕ) (valid_sub : IsValid sub) (valid : IsValid g)
    (place : (v : ℕ) → v < num_vertices g → get_or vlist (get_or vindex v 0) 0 ≡ v)
    (no_loops : (e : Edge) → 0 < multiplicity e sub → e.source ≢ e.target) where
  abbrev pub Inv : SearchState → Type 0
  Inv = Searching vertex_labelling edge_labelling sub g vlist vindex

  abbrev pub rest_weight : List Frame → ℕ
  rest_weight = weight vertex_labelling edge_labelling sub g vlist vindex

  abbrev pub next_state : Frame → List Frame → SearchState → Option SearchState
  next_state = step edge_labelling sub g vlist vindex

  -- A round keeps the invariant, and lowers the measure.
  abbrev pub Advances : Frame → List Frame → SearchState → Type 0
  Advances frame stack s =
      (t : SearchState) × ((next_state frame stack s ≡ some t)
        × (Inv t × (rest_weight t.stack < rest_weight (frame ∷ stack))))

  module _ (i : ℕ) (m : Matrix) (c : ℕ) (left : List ℕ) (stack : List Frame) (s : SearchState)
      (inv : Inv s)
      (top : s.stack ≡ (record { matrix = m; vertex = i; left = c ∷ left }) ∷ stack) where
    abbrev frame : Frame
    frame = record { matrix = m; vertex = i; left = c ∷ left }

    abbrev lower : Frame
    lower = record { matrix = m; vertex = i; left = left }

    abbrev mid : SearchState
    mid = record s { stack = lower ∷ stack; already_mapped = insert c s.already_mapped }

    frames : AllFrames vertex_labelling edge_labelling sub g vlist vindex (frame ∷ stack) s.mapping
    frames =
        subst (λ st. AllFrames vertex_labelling edge_labelling sub g vlist vindex st s.mapping) top
          inv.frames

    there : member c (candidates m i) ≡ true
    there = frames.0.among c (unfold member in ground arith)

    lower_frames :
        AllFrames vertex_labelling edge_labelling sub g vlist vindex (lower ∷ stack) s.mapping
    lower_frames = (
      record {
        belongs = frames.0.belongs;
        inside = frames.0.inside;
        among = λ x h. frames.0.among x (unfold member in ground (arith, h));
      },
      frames.1,
    )

    differs : Differs c s.mapping
    differs =
        (longer-Part vertex_labelling edge_labelling sub g vlist vindex valid_sub valid place
          no_loops i s.mapping m c s.already_mapped frames.0.belongs frames.0.inside there
          inv.mapped).distinct.0

    unmapped : AllMapped s.mapping (erase c (insert c s.already_mapped))
    unmapped =
        AllMapped-erase s.mapping c (insert c s.already_mapped)
          (AllMapped-insert s.mapping c s.already_mapped inv.mapped) differs

    -- The matrix did not pass.
    refused : Inv (record mid { already_mapped = erase c (insert c s.already_mapped) })
    refused = record { frames = lower_frames; mapped = unmapped; found = inv.found }

    module _ (m' : Matrix)
        (r : Refined edge_labelling sub g vlist vindex
          (suc i)
          (insert c s.already_mapped)
          (omega (arith, frames.0.inside))
          (set m i (c ∷ []))
          m') where
      belongs :
          Belongs vertex_labelling edge_labelling sub g vlist vindex (suc i) ((i, c) ∷ s.mapping) m'
      belongs =
          Refined-Belongs vertex_labelling edge_labelling sub g vlist vindex valid_sub valid place
            no_loops i s.mapping m c s.already_mapped frames.0.belongs frames.0.inside there
            inv.mapped m' r

      descended :
          (low : Bool)
          → ltb (suc i) (num_vertices sub - 1) ≡ low
          → Inv (descend edge_labelling sub g vlist vindex i c (true, m') mid)
            × (rest_weight (descend edge_labelling sub g vlist vindex i c (true, m') mid).stack
                < rest_weight (frame ∷ stack))
      unfolding descend
      descended true deeper =
          let below : suc (suc i) < num_vertices sub = ground (arith, deeper) in
          let fits =
            whole_weight vertex_labelling edge_labelling sub g vlist vindex (suc i)
              (candidates m' (suc i)) (omega (arith, below)) (belongs.short (suc i)) in
          rw deeper (
            record {
              frames =
                  (record { belongs = belongs; inside = below; among = λ x h. h }, lower_frames);
              mapped =
                  all_prime vertex_labelling edge_labelling sub g vlist vindex valid_sub valid place
                    no_loops i s.mapping m c s.already_mapped frames.0.belongs frames.0.inside there
                    inv.mapped;
              found = inv.found;
            },
            omega (arith, fits),
          )
      descended false bottom = rw bottom (
        record {
          frames = lower_frames;
          mapped = unmapped;
          found =
              visit_leafs-Copies vertex_labelling edge_labelling sub g vlist vindex valid_sub valid
                place no_loops i s.mapping m c s.already_mapped frames.0.belongs frames.0.inside
                there inv.mapped m' belongs (ground (arith, bottom, frames.0.inside))
                (candidates m' (suc i)) s.found (λ x h. h) inv.found;
        },
        omega arith,
      )

    pub advances : Advances frame stack s
    unfolding step
    advances =
        let (b, (m', (result, refined))) =
          refine_check-Outcome edge_labelling sub g vlist vindex (suc i) (insert c s.already_mapped)
            (omega (arith, frames.0.inside)) (set m i (c ∷ []))
            (length-set m i (c ∷ []) ∙ frames.0.belongs.size) in
        elim (Bool-cases b) [
          | inl passes ↦
              let (inv', less) =
                descended m' (refined passes) (ltb (suc i) (num_vertices sub - 1)) refl in
              (
                descend edge_labelling sub g vlist vindex i c (true, m') mid,
                (rw (step, result, passes) refl, (inv', less)),
              )
          | inr fails ↦ (
            descend edge_labelling sub g vlist vindex i c (false, m') mid,
            (
              rw (step, result, fails) refl,
              (unfold descend in refused, unfold descend in omega arith),
            ),
          )
        ]

  any-Advances :
      (frame : Frame) (stack : List Frame) (s : SearchState)
      → Inv s
      → s.stack ≡ frame ∷ stack
      → Advances frame stack s
  unfolding step
  any-Advances frame stack s inv top = by_left frame.left refl
    where
      by_left : (left : List ℕ) → frame.left ≡ left → Advances frame stack s
      by_left [] e = (
        pop_frame stack s,
        (
          rw (step, e) refl,
          (
            pop_frame-Searching vertex_labelling edge_labelling sub g vlist vindex frame stack s inv
                top,
            omega (
              arith,
              ap (left_weight (budget (num_vertices g) (num_vertices sub - suc frame.vertex))) e,
              ap rest_weight (pop_frame-stack stack s),
            ),
          ),
        ),
      )
      by_left (c ∷ left) e =
          let same : frame
              ≡ record { matrix = frame.matrix; vertex = frame.vertex; left = c ∷ left } =
            ap (λ l. record { matrix = frame.matrix; vertex = frame.vertex; left = l }) e in
          subst (λ x. Advances x stack s) (sym same)
            (advances frame.vertex frame.matrix c left stack s inv (top ∙ ap (λ x. x ∷ stack) same))

  -- With k rounds the main loop ends, where the invariant holds.
  abbrev pub Ends : ℕ → ℕ → SearchState → Type 0
  Ends max_n k s =
      (t : SearchState) × ((search_loop edge_labelling sub g vlist vindex max_n k s ≡ some t)
        × Inv t)

  -- With fuel above the measure the main loop ends, and all that it finds are copies of `sub`.
  pub search_lem :
      (max_n fuel : ℕ) (s : SearchState) → rest_weight s.stack < fuel → Inv s → Ends max_n fuel s
  unfolding search_loop
  search_lem max_n zero s enough inv = absurd (omega (arith, enough))
  search_lem max_n (suc fuel) s enough inv = by_stack (λ t. search_lem max_n fuel t) s.stack refl
    where
      by_stack :
          ((t : SearchState) → rest_weight t.stack < fuel → Inv t → Ends max_n fuel t)
          → (st : List Frame) → s.stack ≡ st
          → Ends max_n (suc fuel) s
      by_stack rest [] e =
          (s, (rw (search_loop, e) (ap (λ st. some (record s { stack = st })) e), inv))
      by_stack rest (frame ∷ stack) e =
          elim (Bool-cases (max_n == 0 || ltb (length s.found) max_n)) [
            | inr full ↦
                (s, (rw (search_loop, e, full) (ap (λ st. some (record s { stack = st })) e), inv))
            | inl more ↦
                let (t, (round, (inv', less))) = any-Advances frame stack s inv e in
                let (end, (result, good)) =
                  rest t (omega (arith, enough, less, ap rest_weight e)) inv' in
                (end, (rw (search_loop, e, more, round) result, good))
          ]
