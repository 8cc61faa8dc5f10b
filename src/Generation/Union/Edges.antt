-- ===== src/Generation/Union/Edges.antt =====
-- The loop over the edges of src/graph/generation/graph_union.hh.
-- A list in which every edge has an index of its own.
use graph_tool.AdjList.{Edge, add_edge, num_vertices}
use graph_tool.AdjList.Adding.{add_edge_lem, new_edge}
use graph_tool.AdjList.Building.{add_edges, renamed}
use graph_tool.AdjList.Edges.{occurrences}
use graph_tool.AdjList.Linking.{same_edge}
use graph_tool.AdjList.Rows.{same}
use graph_tool.AdjList.Unique.{fresh_idx, same_source, same_target}
use graph_tool.AdjList.Valid.{IsValid, multiplicity}
use graph_tool.Common.{
  List, ap, arith, refl, size_mod, store, sym, ℕ, ◌+◌, ◌<◌, ◌∙◌, ◌∷◌, ◌≡◌, ◌≢◌, ◌≤◌,
}
use graph_tool.Generation.Union.{UnionState, map_edge}
use native.Mathlib.Decide.{ℕ_discrete}

pub record Apart (es : List Edge) : Type 0 where
  pub once : (e : Edge) → occurrences e es ≤ 1
  pub by_idx :
      (e f : Edge) → 0 < occurrences e es → 0 < occurrences f es → e.idx ≡ f.idx → same_edge e f ≡ 1

-- What the loop over the listed edges leaves.
pub record Linked (es : List Edge) (s t : UnionState) : Type 0 where
  pub graph : t.ug ≡ add_edges (renamed s.vmap es) s.ug
  pub vmap : t.vmap ≡ s.vmap
  pub others : (i : ℕ) → ((f : Edge) → 0 < occurrences f es → f.idx ≢ i) → t.emap i ≡ s.emap i
  pub ends :
      (e : Edge)
      → 0 < occurrences e es
      → ((t.emap e.idx).source ≡ s.vmap e.source)
        × ((t.emap e.idx).target ≡ s.vmap e.target)
        × (0 < multiplicity (t.emap e.idx) t.ug)
  pub fresh :
      (e x : Edge) → 0 < occurrences e es → 0 < multiplicity x s.ug → x.idx ≢ (t.emap e.idx).idx
  pub injective :
      (e f : Edge)
      → 0 < occurrences e es
      → 0 < occurrences f es
      → (t.emap e.idx).idx ≡ (t.emap f.idx).idx
      → e.idx ≡ f.idx

pub tail-Apart : (e : Edge) (es : List Edge) → Apart (e ∷ es) → Apart es
unfolding occurrences
tail-Apart e es a = record {
  once = λ f. omega (arith, a.once f);
  by_idx = λ x y p q. a.by_idx x y (omega (arith, p)) (omega (arith, q));
}

-- No edge of the tail has the index of the head.
head-Apart :
    (e : Edge) (es : List Edge) → Apart (e ∷ es) → (f : Edge) → 0 < occurrences f es → f.idx ≢ e.idx
unfolding occurrences
head-Apart e es a f there same =
    let alike = a.by_idx e f (ground arith) (omega (arith, there)) (sym same) in
    omega (arith, alike, there, a.once f)

-- An edge of the list with the head's index has the head's ends.
head-alike :
    (e f : Edge) (es : List Edge)
    → Apart (e ∷ es)
    → 0 < occurrences f (e ∷ es)
    → occurrences f es ≡ 0
    → (f.source ≡ e.source) × (f.target ≡ e.target) × (f.idx ≡ e.idx)
unfolding occurrences
head-alike e f es a there gone = ground (arith, there, gone)

module _ (e : Edge) (es : List Edge) (s : UnionState) (valid : IsValid s.ug)
    (apart : Apart (e ∷ es)) (in_s : s.vmap e.source < num_vertices s.ug)
    (in_t : s.vmap e.target < num_vertices s.ug) (room_idx : s.ug.last_idx + 1 < size_mod)
    (room : s.ug.n_edges + 1 < size_mod) where
  abbrev new : Edge
  new = new_edge (s.vmap e.source) (s.vmap e.target) s.ug

  module _ (t : UnionState) (p : Linked es (map_edge e s) t)
      (grows : (x : Edge) → multiplicity x (map_edge e s).ug ≤ multiplicity x t.ug) where
    head_image : t.emap e.idx ≡ new
    unfolding map_edge store
    head_image = p.others e.idx (head-Apart e es apart) ∙ ground arith

    image : (f : Edge) → 0 < occurrences f (e ∷ es) → occurrences f es ≡ 0 → t.emap f.idx ≡ new
    image f there gone = ap t.emap (head-alike e f es apart there gone).2 ∙ head_image

    new_there : 0 < multiplicity new (map_edge e s).ug
    unfolding map_edge
    new_there =
        let (_, _, _, _, more) =
          add_edge_lem (s.vmap e.source) (s.vmap e.target) s.ug valid in_s in_t room_idx room in
        ground (arith, more new)

    old_there : (x : Edge) → multiplicity x s.ug ≤ multiplicity x (map_edge e s).ug
    unfolding map_edge
    old_there x =
        let (_, _, _, _, more) =
          add_edge_lem (s.vmap e.source) (s.vmap e.target) s.ug valid in_s in_t room_idx room in
        omega (arith, more x)

    pub Linked-cons : Linked (e ∷ es) s t
    unfolding occurrences add_edge
    Linked-cons = record {
      graph = p.graph ∙ unfold map_edge in refl;
      vmap = p.vmap ∙ unfold map_edge in refl;
      others = λ i h.
          p.others i (λ f q. h f (omega (arith, q)))
          ∙ unfold map_edge store in ground (arith, h e (ground arith));
      ends = λ f h. elim (ℕ_discrete (occurrences f es) 0) [
        | no later ↦ unfold map_edge in p.ends f (omega (arith, later))
        | yes gone ↦
            let (same_source, same_target, _) = head-alike e f es apart h gone in
            rw (image f h gone) (
              ap s.vmap (sym same_source),
              ap s.vmap (sym same_target),
              omega (arith, new_there, grows new),
            )
      ];
      fresh = λ f x h q same. elim (ℕ_discrete (occurrences f es) 0) [
        | no later ↦ p.fresh f x (omega (arith, later)) (omega (arith, q, old_there x)) same
        | yes gone ↦
            let missing =
              fresh_idx (s.vmap e.source) (s.vmap e.target) s.ug valid in_s in_t room_idx room x
                (same ∙ ap (λ y. y.idx) (image f h gone)) in
            absurd (omega (arith, missing, q))
      ];
      injective = λ f g h q same. elim (ℕ_discrete (occurrences f es) 0) [
        | no f_later ↦ elim (ℕ_discrete (occurrences g es) 0) [
          | no g_later ↦ p.injective f g (omega (arith, f_later)) (omega (arith, g_later)) same
          | yes g_gone ↦ absurd (
              p.fresh f new (omega (arith, f_later)) new_there
                (sym (ap (λ y. y.idx) (image g q g_gone)) ∙ sym same))
        ]
        | yes f_gone ↦ elim (ℕ_discrete (occurrences g es) 0) [
          | no g_later ↦ absurd (
              p.fresh g new (omega (arith, g_later)) new_there
                (sym (ap (λ y. y.idx) (image f h f_gone)) ∙ same))
          | yes g_gone ↦
              let (_, _, f_idx) = head-alike e f es apart h f_gone in
              let (_, _, g_idx) = head-alike e g es apart q g_gone in f_idx ∙ sym g_idx
        ]
      ];
    }
