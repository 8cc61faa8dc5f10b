-- ===== src/Subgraph/Pruning.antt =====
-- `refine_check` of src/graph/topology/graph_subgraph_isomorphism.hh: it keeps the candidates of every
-- copy.
use graph_tool.AdjList.{AdjList, Edge, in_edges, num_vertices, out_edges}
use graph_tool.AdjList.InEdges.{Into, in_edges-All, in_edges-Into}
use graph_tool.AdjList.OutEdges.{AllOf, From, out_edges-All, out_edges-From}
use graph_tool.AdjList.Valid.{IsValid, multiplicity, source_lt, target_lt}
use graph_tool.Common.{
  Bool, Bool-cases, List, [], ap, arith, false, get_or, inl, inr, length, refl, sym, true, ℕ, ◌&&◌,
  ◌<◌, ◌∙◌, ◌∷◌, ◌≡◌,
}
use graph_tool.Subgraph.{
  Matrix, candidates, check_adjacency, check_edges, do_check, edges_at, find_adjacent, get_vertex,
  member, new_candidates,
}
use graph_tool.Subgraph.Refine.{check, fresh_row}
use graph_tool.Subgraph.Refined.{passed}
use mathlib.Core.Path.{ap₂}
use native.Mathlib.Decide.{ℕ_discrete}

AllOf-map :
    (P Q : Edge → Type 0) (es : List Edge) → ((e : Edge) → P e → Q e) → AllOf P es → AllOf Q es
AllOf-map P Q [] f all = tt
AllOf-map P Q (e ∷ es) f all = (f e all.0, AllOf-map P Q es f all.1)

pub member-length : (c : ℕ) (xs : List ℕ) → member c xs ≡ true → 0 < length xs
unfolding member
member-length c [] h = absurd (ground (arith, h))
member-length c (x ∷ xs) h = omega arith

module _ (edge_labelling : Edge → Edge → Bool) (sub g : AdjList) (vlist vindex : List ℕ) where
  -- Whether the loop takes e2 for e1.
  abbrev takes : Bool → Matrix → Edge → Edge → Bool
  takes is_out m e1 e2 =
      member (get_or vindex (get_vertex is_out e2) 0) (candidates m (get_vertex is_out e1))
      && edge_labelling e1 e2

  find_adjacent-missed :
      (is_out : Bool) (m : Matrix) (e1 : Edge) (es : List Edge)
      → find_adjacent edge_labelling sub g vlist vindex is_out m e1 es ≡ false
      → AllOf (λ e2. takes is_out m e1 e2 ≡ false) es
  unfolding find_adjacent
  find_adjacent-missed is_out m e1 [] h = tt
  find_adjacent-missed is_out m e1 (e2 ∷ es) h = elim (Bool-cases (takes is_out m e1 e2)) [
    | inl taken ↦ absurd (ground (arith, rw (find_adjacent, taken) at h))
    | inr passed ↦ (passed, find_adjacent-missed is_out m e1 es (rw (find_adjacent, passed) at h))
  ]

  check_edges-true :
      (is_out : Bool) (m : Matrix) (edges2 es : List Edge)
      → AllOf (λ e1. find_adjacent edge_labelling sub g vlist vindex is_out m e1 edges2 ≡ true) es
      → check_edges edge_labelling sub g vlist vindex is_out m edges2 es ≡ true
  unfolding check_edges
  check_edges-true is_out m edges2 [] all = refl
  check_edges-true is_out m edges2 (e1 ∷ es) all =
      rw (check_edges, all.0) (check_edges-true is_out m edges2 es all.1)

  pub fresh_row-keeps :
      (m : Matrix) (mapped : List ℕ) (k : ℕ) (ls : List ℕ) (c : ℕ)
      → member c ls ≡ true
      → member c mapped ≡ false
      → check edge_labelling sub g vlist vindex k c m ≡ true
      → member c (fresh_row edge_labelling sub g vlist vindex m mapped k ls) ≡ true
  unfolding new_candidates member
  fresh_row-keeps m mapped k [] c h free good = h
  fresh_row-keeps m mapped k (l ∷ ls) c h free good = elim (ℕ_discrete c l) [
    | yes e ↦
        let free_l : member l mapped ≡ false = ap (λ x. member x mapped) (sym e) ∙ free in
        let good_l : check edge_labelling sub g vlist vindex k l m ≡ true =
          ap (λ x. check edge_labelling sub g vlist vindex k x m) (sym e) ∙ good in
        rw (new_candidates, free_l, good_l) (ground (arith, e))
    | no ne ↦
        let rest = fresh_row-keeps m mapped k ls c (ground (arith, h, ne)) free good in
        elim (Bool-cases (member l mapped)) [
          | inl there ↦ rw (new_candidates, there) rest
          | inr out ↦ elim (Bool-cases (check edge_labelling sub g vlist vindex k l m)) [
            | inl stays ↦ rw (new_candidates, out, stays) (ground (arith, rest))
            | inr goes ↦ rw (new_candidates, out, goes) rest
          ]
        ]
  ]

  -- A copy of `sub` in g, with φ u as the place of the vertex u.
  abbrev image_of : (ℕ → ℕ) → ℕ → ℕ
  image_of φ u = get_or vlist (φ u) 0

  pub record IsPlacedCopy (φ : ℕ → ℕ) : Type 0 where
    pub place : (u : ℕ) → u < num_vertices sub → get_or vindex (image_of φ u) 0 ≡ φ u
    pub adjacent :
        (e : Edge)
        → 0 < multiplicity e sub
        → (e' : Edge) × ((0 < multiplicity e' g)
            × ((e'.source ≡ image_of φ e.source)
                × ((e'.target ≡ image_of φ e.target) × (edge_labelling e e' ≡ true))))

  -- The places of the copy are candidates.
  abbrev pub Fits : (ℕ → ℕ) → Matrix → Type 0
  Fits φ m = (u : ℕ) → u < num_vertices sub → member (φ u) (candidates m u) ≡ true

  module _ (valid_sub : IsValid sub) (valid : IsValid g) (φ : ℕ → ℕ) (copy : IsPlacedCopy φ) where
    ends_below :
        (e : Edge)
        → 0 < multiplicity e sub
        → (e.source < num_vertices sub) × (e.target < num_vertices sub)
    ends_below e h =
        unfold num_vertices in
        (source_lt valid_sub e h, omega (arith, target_lt valid_sub e h, valid_sub.sizes))

    counterpart_taken :
        (m : Matrix) (u : ℕ) (is_out : Bool) (e e' : Edge)
        → Fits φ m
        → u < num_vertices sub
        → get_vertex is_out e ≡ u
        → get_vertex is_out e' ≡ image_of φ u
        → edge_labelling e e' ≡ true
        → takes is_out m e e' ≡ true
    counterpart_taken m u is_out e e' fits low from to alike =
        let there : member (get_or vindex (get_vertex is_out e') 0)
              (candidates m (get_vertex is_out e))
            ≡ true =
          ap₂ (λ x v. member x (candidates m v)) (ap (λ v. get_or vindex v 0) to ∙ copy.place u low)
            from
          ∙ fits u low in
        ground (arith, there, alike)

    out_found :
        (m : Matrix) (k : ℕ) (e : Edge)
        → Fits φ m
        → From sub k e
        → find_adjacent edge_labelling sub g vlist vindex true m e (out_edges (image_of φ k) g)
          ≡ true
    out_found m k e fits (at_k, there) =
        let found =
          find_adjacent edge_labelling sub g vlist vindex true m e (out_edges (image_of φ k) g) in
        elim (Bool-cases found) [
          | inl hit ↦ hit
          | inr missed ↦
              let (e', (there', (from, (to, alike)))) = copy.adjacent e there in
              let start : e'.source ≡ image_of φ k = from ∙ ap (image_of φ) at_k in
              let taken =
                counterpart_taken m e.target true e e' fits (ends_below e there).1
                  (unfold get_vertex in refl) (unfold get_vertex in to) alike in
              let passed =
                out_edges-All g (λ e2. takes true m e e2 ≡ false) e'
                  (rw start (find_adjacent-missed true m e (out_edges (image_of φ k) g) missed))
                  there' in
              absurd (ground (arith, taken, passed))
        ]

    in_found :
        (m : Matrix) (k : ℕ) (e : Edge)
        → Fits φ m
        → Into valid_sub k e
        → find_adjacent edge_labelling sub g vlist vindex false m e (in_edges (image_of φ k) g)
          ≡ true
    in_found m k e fits (at_k, there) =
        let found =
          find_adjacent edge_labelling sub g vlist vindex false m e (in_edges (image_of φ k) g) in
        elim (Bool-cases found) [
          | inl hit ↦ hit
          | inr missed ↦
              let (e', (there', (from, (to, alike)))) = copy.adjacent e there in
              let end : e'.target ≡ image_of φ k = to ∙ ap (image_of φ) at_k in
              let taken =
                counterpart_taken m e.source false e e' fits (ends_below e there).0
                  (unfold get_vertex in refl) (unfold get_vertex in from) alike in
              let passed =
                in_edges-All valid (λ e2. takes false m e e2 ≡ false) e'
                  (rw end (find_adjacent-missed false m e (in_edges (image_of φ k) g) missed))
                  there' in
              absurd (ground (arith, taken, passed))
        ]

    -- The test holds for the places of a copy.
    pub check-Fits :
        (m : Matrix) (k : ℕ) → Fits φ m → check edge_labelling sub g vlist vindex k (φ k) m ≡ true
    unfolding check_adjacency do_check edges_at
    check-Fits m k fits =
        let out = check_edges-true true m (out_edges (image_of φ k) g) (out_edges k sub) (
          AllOf-map (From sub k) _ (out_edges k sub) (λ e at. out_found m k e fits at)
            (out_edges-From sub k)) in
        let into = check_edges-true false m (in_edges (image_of φ k) g) (in_edges k sub) (
          AllOf-map (Into valid_sub k) _ (in_edges k sub) (λ e at. in_found m k e fits at)
            (in_edges-Into valid_sub k)) in
        ground (arith, out, into)
