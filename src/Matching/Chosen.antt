-- ===== src/Matching/Chosen.antt =====
-- One round of src/graph/topology/graph_random_matching.cc, on each of its branches.
use graph_tool.AdjList.{AdjList, Edge, out_edges}
use graph_tool.AdjList.OutEdges.{AllOf, From, get_or-AllOf, out_edges-All, out_edges-From}
use graph_tool.AdjList.Valid.{multiplicity}
use graph_tool.Common.{
  Bool, List, [], false, get_or, inl, inr, length, refl, subst, sym, true, ℕ, ◌<◌, ◌∙◌, ◌∷◌, ◌≡◌,
  ◌⊎◌,
}
use graph_tool.Matching.{Matching, choose, improves, match_vertex, search}
use graph_tool.Matching.Best.{search_equal, search_own}
use graph_tool.Matching.Search.{search-AllOf, search-none}
use graph_tool.Matching.Step.{with_edge}

both-AllOf :
    (P Q : Edge → Type 0) (es : List Edge) → AllOf P es → AllOf Q es → AllOf (λ e. P e × Q e) es
both-AllOf P Q [] p q = tt
both-AllOf P Q (e ∷ es) p q = ((p.0, q.0), both-AllOf P Q es p.1 q.1)

module _ {W : Type 0} (lt : W → W → Bool) (eq : W → W → Bool) (bound : W) (minimize : Bool)
    (weight : ℕ → W) (pick : ℕ → ℕ → ℕ) (g : AdjList) where
  abbrev one_round : ℕ → Matching → Matching
  one_round v m = match_vertex lt eq bound minimize weight pick g v m

  abbrev better : W → W → Bool
  better = improves lt eq bound minimize weight

  abbrev result : ℕ → Matching → W × List Edge
  result v m = search lt eq bound minimize weight m.matched (out_edges v g) (bound, [])

  choose-cases :
      (P : Edge → Type 0) (v : ℕ) (cs : List Edge) (m : Matching)
      → AllOf P cs
      → ((cs ≡ []) × (choose lt eq bound minimize weight pick v cs m ≡ m))
        ⊎ ((c : Edge) × P c × (choose lt eq bound minimize weight pick v cs m ≡ with_edge v c m))
  unfolding choose
  choose-cases P v [] m all = inl (refl, refl)
  choose-cases P v (c ∷ cs) m all = inr (
    get_or (c ∷ cs) (pick v (length cs)) c,
    get_or-AllOf P (c ∷ cs) (pick v (length cs)) c all all.0,
    refl,
  )

  match_vertex-free :
      (v : ℕ) (m : Matching)
      → m.matched v ≡ false
      → one_round v m ≡ choose lt eq bound minimize weight pick v (result v m).1 m
  unfolding match_vertex
  match_vertex-free v m free = rw free refl

  at_source :
      (P : Edge → Type 0) (v : ℕ) (e : Edge)
      → AllOf P (out_edges v g)
      → 0 < multiplicity e g
      → e.source ≡ v
      → P e
  at_source P v e all in_e s =
      out_edges-All g P e (subst (λ u. AllOf P (out_edges u g)) (sym s) all) in_e

  -- For an unmatched vertex, where `==` on weights is reflexive and respects improvement,
  -- improvement is irreflexive and transitive, and the search's bound is equal to every weight that
  -- does not improve on it: the round marks an edge of the graph out of the vertex to an unmatched
  -- one, on whose weight that of no other such edge improves; or every edge out of the vertex leads
  -- to a matched one, and the round does nothing.
  pub match_vertex_lem :
      (v : ℕ) (m : Matching)
      → ((w : W) → eq w w ≡ true)
      → ((w : W) → better w w ≡ false)
      → ((a b c : W) → better a b ≡ true → better b c ≡ true → better a c ≡ true)
      → ((a b c : W) → eq b c ≡ true → better a c ≡ false → better a b ≡ false)
      → ((w : W) → better w bound ≡ false → eq w bound ≡ true)
      → m.matched v ≡ false
      → ((c : Edge) × (c.source ≡ v)
          × (0 < multiplicity c g)
          × (m.matched c.target ≡ false)
          × (one_round v m ≡ with_edge v c m)
          × ((e : Edge)
              → 0 < multiplicity e g
              → e.source ≡ v
              → m.matched e.target ≡ false
              → better (weight e.idx) (weight c.idx) ≡ false))
        ⊎ ((one_round v m ≡ m)
            × ((e : Edge) → 0 < multiplicity e g → e.source ≡ v → m.matched e.target ≡ true))
  match_vertex_lem v m eq_refl irrefl transitive respects reaches free =
      let es = out_edges v g in
      let candidates =
        search-AllOf lt eq bound minimize weight (From g v) m.matched es (bound, []) tt
          (out_edges-From g v) in
      let equal =
        search_equal lt eq bound minimize weight eq_refl irrefl transitive m.matched es (bound, [])
          tt in
      let own =
        search_own lt eq bound minimize weight eq_refl irrefl transitive m.matched es (bound, []) in
      elim (choose-cases _ v (result v m).1 m (both-AllOf _ _ (result v m).1 candidates equal)) [
        | inl (none_left, same_m) ↦ inr (
          match_vertex-free v m free ∙ same_m,
          λ e in_e s.
              at_source (λ f. m.matched f.target ≡ true) v e
                (search-none lt eq bound minimize weight eq_refl reaches m.matched es none_left)
                in_e s,
        )
        | inr (c, (((from, in_c), free_c), best), marked_c) ↦ inl (
          c,
          from,
          in_c,
          free_c,
          match_vertex-free v m free ∙ marked_c,
          λ e in_e s free_e. respects (weight e.idx) (weight c.idx) (result v m).0 best (
              at_source
                (λ f. m.matched f.target ≡ false → better (weight f.idx) (result v m).0 ≡ false) v e
                own in_e s free_e),
        )
      ]
