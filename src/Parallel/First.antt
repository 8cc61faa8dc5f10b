-- ===== src/Parallel/First.antt =====
-- The first edge to each target in a list of edges out of one vertex, and the label of the others, for
-- `label_parallel_edges` of src/graph/stats/graph_parallel.hh.
use graph_tool.AdjList.{AdjList, Edge, num_edges}
use graph_tool.AdjList.Edges.{occurrences}
use graph_tool.AdjList.Linking.{same_edge}
use graph_tool.AdjList.OutEdges.{AllOf}
use graph_tool.AdjList.Unique.{same_source, same_target}
use graph_tool.AdjList.Valid.{IsValid, multiplicity}
use graph_tool.Common.{
  Bool, Bool-cases, List, Option, Option-cases, [], ap, arith, false, if◌then◌else◌, inl, inr,
  length, ltb, none, not, refl, some, suc, true, ℕ, ◌&&◌, ◌++◌, ◌+◌, ◌<◌, ◌==◌, ◌||◌, ◌∙◌, ◌∷◌, ◌≡◌,
  ◌≢◌, ◌≤◌, ◌⊎◌,
}
use graph_tool.Parallel.{edge_eq, mark_others, put_label}
use graph_tool.Parallel.Labels.{HoldsLabels, edge_eq_lem}
use graph_tool.Rewiring.{has_target}
use native.Mathlib.Decide.{ℕ_discrete}

-- The index of the first edge to t.
unfoldable pub first_idx : ℕ → List Edge → Option ℕ
first_idx t [] = none
first_idx t (e ∷ es) = if e.target == t then some e.idx else first_idx t es

abbrev names_idx : Option ℕ → ℕ → Bool
names_idx none j = false
names_idx (some i) j = i == j

unfoldable pub is_first : Edge → List Edge → Bool
unfolding first_idx
is_first e es = names_idx (first_idx e.target es) e.idx

pub first_idx-none : (t : ℕ) (es : List Edge) → has_target t es ≡ false → first_idx t es ≡ none
unfolding has_target first_idx
first_idx-none t [] h = refl
first_idx-none t (e ∷ es) h = ground (arith, h, first_idx-none t es)

pub first_idx-append :
    (t : ℕ) (done : List Edge) (e : Edge) (rest : List Edge)
    → has_target t done ≡ false
    → e.target ≡ t
    → first_idx t (done ++ e ∷ rest) ≡ some e.idx
unfolding has_target first_idx
first_idx-append t [] e rest h at_t = ground (arith, at_t)
first_idx-append t (f ∷ done) e rest h at_t = ground (arith, h, first_idx-append t done e rest)

pub has_target-append :
    (t : ℕ) (done : List Edge) (e : Edge)
    → has_target t (done ++ e ∷ []) ≡ (has_target t done || e.target == t)
unfolding has_target
has_target-append t [] e = ground arith
has_target-append t (f ∷ done) e = ground (arith, has_target-append t done e)

module _ {g : AdjList} (valid : IsValid g) (convert : ℕ → ℕ) (mark_only : Bool)
    (holds : HoldsLabels convert mark_only g) where
  same_edge-idx :
      (f e : Edge)
      → 0 < multiplicity f g
      → 0 < multiplicity e g
      → ((f.idx ≡ e.idx) × (f.target ≡ e.target) × (same_edge f e ≡ 1))
        ⊎ ((f.idx ≢ e.idx) × (same_edge f e ≡ 0))
  same_edge-idx f e in_f in_e = elim (ℕ_discrete f.idx e.idx) [
    | no ne ↦ inr (ne, ground (arith, ne))
    | yes h ↦
        let s = same_source valid f e in_f in_e h in
        let t = same_target valid f e in_f in_e h in inl (h, t, ground (arith, h, s, t))
  ]

  -- Which edges of the graph the inner loop leaves with a label above 0.
  pub mark_others_lem :
      (e1 : Edge) (n : ℕ) (es : List Edge) (label : ℕ → ℕ) (e : Edge)
      → n + length es ≤ num_edges g
      → 0 < multiplicity e1 g
      → AllOf (λ f. 0 < multiplicity f g) es
      → 0 < multiplicity e g
      → ltb 0 (mark_others convert mark_only e1 n es label e.idx) ≡ (
          if ltb 0 (occurrences e es) && (e.target == e1.target && not (e.idx == e1.idx))
          then true
          else ltb 0 (label e.idx))
  unfolding mark_others occurrences put_label
  mark_others_lem e1 n [] label e low in_1 all in_e = ground arith
  mark_others_lem e1 n (f ∷ es) label e low in_1 all in_e =
      let other = edge_eq_lem valid f e1 all.0 in_1 in
      let found = same_edge-idx f e all.0 in_e in
      let written : 0 < convert (if mark_only then 1 else suc n) =
        holds.positive (if mark_only then 1 else suc n) (ground arith) (λ h. ground (arith, h))
          (ground (arith, low)) in
      elim (Bool-cases (not (edge_eq f e1) && e1.target == f.target)) [
        | inl test ↦
            rw (test, mark_others)
              (mark_others_lem e1 (suc n) es
                  (put_label convert f.idx (if mark_only then 1 else suc n) label) e
                  (omega (arith, low)) in_1 all.1 in_e
                ∙ elim found [
                  | inl (i, t, s) ↦ ground (arith, i, t, s, other, test, written)
                  | inr (i, s) ↦ ground (arith, i, s)
                ])
        | inr test ↦
            rw (test, mark_others)
              (mark_others_lem e1 n es label e (omega (arith, low)) in_1 all.1 in_e ∙ elim found [
                | inl (i, t, s) ↦ ground (arith, i, t, s, other, test)
                | inr (i, s) ↦ ground (arith, i, s)
              ])
      ]

pub is_first-some :
    (e : Edge) (es : List Edge) (i : ℕ)
    → first_idx e.target es ≡ some i
    → is_first e es ≡ (i == e.idx)
unfolding is_first
is_first-some e es i h = ap (λ o. names_idx o e.idx) h

pub is_first-true :
    (e : Edge) (es : List Edge) → is_first e es ≡ true → first_idx e.target es ≡ some e.idx
unfolding is_first
is_first-true e es h = elim (Option-cases (first_idx e.target es)) [
  | inl missed ↦ absurd (ground (arith, ap (λ o. names_idx o e.idx) missed, h))
  | inr (i, found) ↦ found ∙ ap some (ground (arith, ap (λ o. names_idx o e.idx) found, h))
]
