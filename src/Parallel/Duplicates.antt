-- ===== src/Parallel/Duplicates.antt =====
-- `label_parallel_edges` of src/graph/stats/graph_parallel.hh without `count_all`, which labels all
-- parallel edges but one above 0.
use graph_tool.AdjList.{AdjList, Edge, out_edges, row}
use graph_tool.AdjList.Edges.{occurrences, occurrences-make_out_edge}
use graph_tool.AdjList.OutEdges.{AllOf, From, out_edges-From}
use graph_tool.AdjList.Unique.{same_source, same_target}
use graph_tool.AdjList.Valid.{IsValid, multiplicity}
use graph_tool.Common.{
  Bool, Bool-cases, List, [], ap, arith, false, if◌then◌else◌, inl, inr, ltb, not, refl, some, sym,
  true, ℕ, ◌&&◌, ◌++◌, ◌<◌, ◌==◌, ◌∙◌, ◌∷◌, ◌≡◌, ◌≢◌,
}
use graph_tool.GraphInterface.{clear, new}
use graph_tool.Parallel.{label_edge, label_row, mark_others, put_label}
use graph_tool.Parallel.First.{
  first_idx, first_idx-append, has_target-append, is_first, is_first-some, is_first-true,
  mark_others_lem,
}
use graph_tool.Parallel.Labels.{HoldsLabels, row_length}
use graph_tool.Rewiring.{has_target}
use mathlib.Core.List.{append-nil, append_assoc}
use native.Mathlib.Decide.{ℕ_discrete}

-- Whether the target has been met among `done`, and the edge is not the first one to it.
abbrev pub duplicate : List Edge → List Edge → Edge → Bool
duplicate done es e = has_target e.target done && not (is_first e es)

module _ {g : AdjList} (valid : IsValid g) (v : ℕ) (convert : ℕ → ℕ) (mark_only : Bool)
    (holds : HoldsLabels convert mark_only g) where
  abbrev row_edges : List Edge
  row_edges = out_edges v g

  in_row : (e : Edge) → 0 < multiplicity e g → e.source ≡ v → 0 < occurrences e row_edges
  unfolding out_edges
  in_row e in_e s = ground (arith, s, in_e, occurrences-make_out_edge e v (row g.out_edges v))

  not_in_row : (e : Edge) → 0 < multiplicity e g → e.source ≢ v → occurrences e row_edges ≡ 0
  unfolding out_edges
  not_in_row e in_e ne = ground (arith, ne, occurrences-make_out_edge e v (row g.out_edges v))

  From-In : (es : List Edge) → AllOf (From g v) es → AllOf (λ f. 0 < multiplicity f g) es
  From-In [] all = tt
  From-In (e ∷ es) all = (all.0.1, From-In es all.1)

  marked :
      (e1 e : Edge) (label : ℕ → ℕ)
      → 0 < multiplicity e1 g
      → 0 < multiplicity e g
      → ltb 0
          (mark_others convert mark_only e1 0 row_edges (put_label convert e1.idx 0 label) e.idx)
        ≡ (if ltb 0 (occurrences e row_edges) && (e.target == e1.target && not (e.idx == e1.idx))
            then true
            else ltb 0 (put_label convert e1.idx 0 label e.idx))
  marked e1 e label in_1 in_e =
      mark_others_lem valid convert mark_only holds e1 0 row_edges
        (put_label convert e1.idx 0 label) e (omega (arith, row_length valid v)) in_1
        (From-In row_edges (out_edges-From g v)) in_e

  module _ (done : List Edge) (e1 : Edge) (rest : List Edge) (split : row_edges ≡ done ++ e1 ∷ rest)
      (label : ℕ → ℕ) (from : From g v e1)
      (right : (e : Edge)
        → 0 < multiplicity e g
        → e.source ≡ v
        → ltb 0 (label e.idx) ≡ duplicate done row_edges e) where
    -- An edge without a label is the first one to its target.
    first_here : label e1.idx ≡ 0 → first_idx e1.target row_edges ≡ some e1.idx
    first_here h = elim (Bool-cases (has_target e1.target done)) [
      | inr new ↦ ap (first_idx e1.target) split ∙ first_idx-append e1.target done e1 rest new refl
      | inl met ↦ is_first-true e1 row_edges (ground (arith, h, met, right e1 from.1 from.0))
    ]

    put_other :
        (e : Edge) (n : ℕ) → e.idx ≢ e1.idx → put_label convert e1.idx n label e.idx ≡ label e.idx
    unfolding put_label
    put_other e n ne = ground (arith, ne)

    put_same :
        (e : Edge) (n : ℕ) → e.idx ≡ e1.idx → put_label convert e1.idx n label e.idx ≡ convert n
    unfolding put_label
    put_same e n h = ground (arith, h)

    label_edge_own :
        (e : Edge)
        → 0 < multiplicity e g
        → e.source ≡ v
        → ltb 0 (label_edge convert mark_only false row_edges e1 label e.idx)
          ≡ duplicate (done ++ e1 ∷ []) row_edges e
    unfolding label_edge
    label_edge_own e in_e s =
        let more = has_target-append e.target done e1 in
        elim (ℕ_discrete (label e1.idx) 0) [
          | no old ↦ elim (ℕ_discrete e1.target e.target) [
            | yes t ↦ ground (
              arith,
              old,
              more,
              right e in_e s,
              right e1 from.1 from.0,
              t,
              ap (λ u. has_target u done) t,
            )
            | no ne ↦ ground (arith, old, more, right e in_e s, ne)
          ]
          | yes new ↦
              let first = first_here new in
              elim (ℕ_discrete e1.target e.target) [
                | yes t ↦
                    let own =
                      is_first-some e row_edges e1.idx
                        (ap (λ u. first_idx u row_edges) (sym t) ∙ first) in
                    elim (ℕ_discrete e.idx e1.idx) [
                      | yes i ↦ ground (
                        arith,
                        new,
                        more,
                        t,
                        own,
                        i,
                        marked e1 e label from.1 in_e,
                        put_same e 0 i,
                        holds.zero_kept,
                      )
                      | no i ↦ ground (
                        arith,
                        new,
                        more,
                        t,
                        own,
                        i,
                        marked e1 e label from.1 in_e,
                        in_row e in_e s,
                      )
                    ]
                | no ne ↦
                    let i : e.idx ≢ e1.idx = λ h. ne (same_target valid e1 e from.1 in_e (sym h)) in
                    ground (
                      arith,
                      new,
                      more,
                      ne,
                      marked e1 e label from.1 in_e,
                      put_other e 0 i,
                      right e in_e s,
                    )
              ]
        ]

    label_edge_other :
        (e : Edge)
        → 0 < multiplicity e g
        → e.source ≢ v
        → ltb 0 (label_edge convert mark_only false row_edges e1 label e.idx) ≡ ltb 0 (label e.idx)
    unfolding label_edge
    label_edge_other e in_e ne =
        let i : e.idx ≢ e1.idx = λ h. ne (same_source valid e e1 in_e from.1 h ∙ from.0) in
        let absent : occurrences e row_edges ≡ 0 = not_in_row e in_e ne in
        elim (ℕ_discrete (label e1.idx) 0) [
          | no old ↦ ground (arith, old)
          | yes new ↦ ground (arith, new, absent, marked e1 e label from.1 in_e, put_other e 0 i)
        ]

  label_row_own :
      (done rest : List Edge) (label : ℕ → ℕ)
      → row_edges ≡ done ++ rest
      → AllOf (From g v) rest
      → ((e : Edge)
          → 0 < multiplicity e g
          → e.source ≡ v
          → ltb 0 (label e.idx) ≡ duplicate done row_edges e)
      → (e : Edge) → 0 < multiplicity e g
      → e.source ≡ v
      → ltb 0 (label_row convert mark_only false row_edges rest label e.idx)
        ≡ duplicate row_edges row_edges e
  unfolding label_row
  label_row_own done [] label split all right e in_e s =
      right e in_e s ∙ ap (λ es. duplicate es row_edges e) (sym (append-nil done) ∙ sym split)
  label_row_own done (e1 ∷ rest) label split all right e in_e s =
      label_row_own (done ++ e1 ∷ []) rest (label_edge convert mark_only false row_edges e1 label)
        (split ∙ sym (append_assoc done (e1 ∷ []) rest)) all.1
        (label_edge_own done e1 rest split label all.0 right) e in_e s

  label_row_other :
      (done rest : List Edge) (label : ℕ → ℕ)
      → row_edges ≡ done ++ rest
      → AllOf (From g v) rest
      → ((e : Edge)
          → 0 < multiplicity e g
          → e.source ≡ v
          → ltb 0 (label e.idx) ≡ duplicate done row_edges e)
      → (e : Edge) → 0 < multiplicity e g
      → e.source ≢ v
      → ltb 0 (label_row convert mark_only false row_edges rest label e.idx) ≡ ltb 0 (label e.idx)
  unfolding label_row
  label_row_other done [] label split all right e in_e ne = refl
  label_row_other done (e1 ∷ rest) label split all right e in_e ne =
      label_row_other (done ++ e1 ∷ []) rest (label_edge convert mark_only false row_edges e1 label)
        (split ∙ sym (append_assoc done (e1 ∷ []) rest)) all.1
        (label_edge_own done e1 rest split label all.0 right) e in_e ne
      ∙ label_edge_other done e1 rest split label all.0 right e in_e ne

  has_own : (e : Edge) (es : List Edge) → 0 < occurrences e es → has_target e.target es ≡ true
  unfolding occurrences has_target
  has_own e [] h = absurd (omega arith)
  has_own e (f ∷ es) h = ground (arith, has_own e es)

  -- After the row, exactly the first edge to each target is unlabelled.
  pub label_row_lem :
      (label : ℕ → ℕ)
      → ((e : Edge) → 0 < multiplicity e g → e.source ≡ v → label e.idx ≡ 0)
      → (e : Edge) → 0 < multiplicity e g
      → ltb 0 (label_row convert mark_only false row_edges row_edges label e.idx)
        ≡ (if e.source == v then not (is_first e row_edges) else ltb 0 (label e.idx))
  label_row_lem label clear e in_e =
      let right : (f : Edge)
          → 0 < multiplicity f g
          → f.source ≡ v
          → ltb 0 (label f.idx) ≡ duplicate [] row_edges f =
        λ f in_f s. unfold has_target in ground (arith, clear f in_f s) in
      elim (ℕ_discrete e.source v) [
        | yes s ↦ ground (
          arith,
          s,
          has_own e row_edges (in_row e in_e s),
          label_row_own [] row_edges label refl (out_edges-From g v) right e in_e s,
        )
        | no ne ↦ ground (
          arith,
          ne,
          label_row_other [] row_edges label refl (out_edges-From g v) right e in_e ne,
        )
      ]
