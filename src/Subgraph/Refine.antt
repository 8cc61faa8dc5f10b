-- ===== src/Subgraph/Refine.antt =====
-- `refine_check` of src/graph/topology/graph_subgraph_isomorphism.hh: it ends, and leaves candidates
-- that pass the test against each other.
use graph_tool.AdjList.{AdjList, Edge}
use graph_tool.Common.{
  Bool, Bool-cases, List, [], ap, arith, false, get_or, get_or-set, if◌then◌else◌, inl, inr, leb,
  length, length-set, ltb, refl, set, subst, suc, sym, true, zero, ℕ, ◌&&◌, ◌+◌, ◌<◌, ◌==◌, ◌||◌,
  ◌∙◌, ◌∷◌, ◌≡◌, ◌≤◌, ◌⊎◌,
}
use graph_tool.Subgraph.{
  Matrix, Pass, candidates, check_adjacency, member, new_candidates, refine_pass, refine_vertex,
}
use native.Mathlib.Decide.{ℕ_discrete}

module _ (edge_labelling : Edge → Edge → Bool) (sub g : AdjList) (vlist vindex : List ℕ) where
  abbrev pub check : ℕ → ℕ → Matrix → Bool
  check k l m = check_adjacency edge_labelling sub g vlist vindex k (get_or vlist l 0) m

  abbrev pub fresh_row : Matrix → List ℕ → ℕ → List ℕ → List ℕ
  fresh_row = new_candidates edge_labelling sub g vlist vindex

  pub fresh_row-length :
      (m : Matrix) (mapped : List ℕ) (k : ℕ) (ls : List ℕ)
      → length (fresh_row m mapped k ls) ≤ length ls
  unfolding new_candidates
  fresh_row-length m mapped k [] = omega arith
  fresh_row-length m mapped k (l ∷ ls) =
      let rest = fresh_row-length m mapped k ls in
      elim (Bool-cases (member l mapped)) [
        | inl there ↦ ground (arith, there, rest)
        | inr free ↦ elim (Bool-cases (check k l m)) [
          | inl good ↦ ground (arith, free, good, rest)
          | inr bad ↦ ground (arith, free, bad, rest)
        ]
      ]

  pub fresh_row-member :
      (m : Matrix) (mapped : List ℕ) (k : ℕ) (ls : List ℕ) (c : ℕ)
      → member c (fresh_row m mapped k ls) ≡ true
      → (member c ls ≡ true) × (member c mapped ≡ false) × (check k c m ≡ true)
  unfolding new_candidates member
  fresh_row-member m mapped k [] c h = absurd (ground (arith, h))
  fresh_row-member m mapped k (l ∷ ls) c h =
      let later : member c (fresh_row m mapped k ls) ≡ true
          → ((c == l || member c ls) ≡ true) × (member c mapped ≡ false) × (check k c m ≡ true) =
        λ q.
          let (within, free, good) = fresh_row-member m mapped k ls c q in
          (ground (arith, within), free, good) in
      elim (Bool-cases (member l mapped)) [
        | inl there ↦ later (rw there at h)
        | inr free ↦ elim (Bool-cases (check k l m)) [
          | inr bad ↦ later (rw (free, bad) at h)
          | inl good ↦ elim (ℕ_discrete c l) [
            | yes e ↦ (
              ground (arith, e),
              ap (λ x. member x mapped) e ∙ free,
              ap (λ x. check k x m) e ∙ good,
            )
            | no ne ↦ later (ground (arith, ne, rw (free, good) at h))
          ]
        ]
      ]

  -- Candidates that are as many as before are the same.
  pub fresh_row-all :
      (m : Matrix) (mapped : List ℕ) (k : ℕ) (ls : List ℕ)
      → length (fresh_row m mapped k ls) ≡ length ls
      → fresh_row m mapped k ls ≡ ls
  unfolding new_candidates
  fresh_row-all m mapped k [] h = refl
  fresh_row-all m mapped k (l ∷ ls) h =
      let short = fresh_row-length m mapped k ls in
      elim (Bool-cases (member l mapped)) [
        | inl there ↦ absurd (omega (arith, short, rw there at h))
        | inr free ↦ elim (Bool-cases (check k l m)) [
          | inr bad ↦ absurd (omega (arith, short, rw (free, bad) at h))
          | inl good ↦
              rw (free, good)
                (ap (λ ks. l ∷ ks)
                  (fresh_row-all m mapped k ls (omega (arith, rw (free, good) at h))))
        ]
      ]

  module _ (m : Matrix) (mapped : List ℕ) where
    abbrev pub fresh : ℕ → List ℕ
    fresh u = fresh_row m mapped u (candidates m u)

    -- What the loop over n vertices from k on leaves where it does not abort.
    pub record Passed (n k : ℕ) (p q : Pass) : Type 0 where
      pub size : length q.temp ≡ length p.temp
      pub rows :
          (u : ℕ)
          → candidates q.temp u
            ≡ (if leb k u && ltb u (k + n) then fresh u else candidates p.temp u)
      pub counts : p.n_mod ≤ q.n_mod
      pub same :
          (u : ℕ)
          → q.n_mod ≡ p.n_mod
          → (leb k u && ltb u (k + n)) ≡ true
          → length (fresh u) ≡ length (candidates m u)
      pub shorter :
          p.n_mod < q.n_mod
          → (u : ℕ) × (((leb k u && ltb u (k + n)) ≡ true)
              × (length (fresh u) < length (candidates m u)))

    abbrev pub pass : ℕ → ℕ → Pass → Pass
    pass = refine_pass edge_labelling sub g vlist vindex m mapped

    abbrev visit : ℕ → Pass → Pass
    visit = refine_vertex edge_labelling sub g vlist vindex m mapped

    -- The state after a vertex that keeps candidates.
    abbrev kept : ℕ → Pass → Pass
    kept k p = record p {
      temp = set p.temp k (fresh k);
      n_mod = if ltb (length (fresh k)) (length (candidates m k)) then p.n_mod + 1 else p.n_mod;
    }

    visit_lem :
        (k : ℕ) (p : Pass)
        → (((visit k p).aborted ≡ true) ⊎ (visit k p ≡ kept k p))
          × (p.aborted ≡ true → (visit k p).aborted ≡ true)
    unfolding refine_vertex
    visit_lem k p = elim (Bool-cases p.aborted) [
      | inl off ↦ (inl (ground (arith, off)), λ _. ground (arith, off))
      | inr on ↦ elim (Bool-cases (length (fresh k) == 0)) [
        | inl none_left ↦ (inl (ground (arith, on, none_left)), λ h. absurd (ground (arith, h, on)))
        | inr some_left ↦ (inr (rw (on, some_left) refl), λ h. absurd (ground (arith, h, on)))
      ]
    ]

    pass-aborted : (n k : ℕ) (p : Pass) → p.aborted ≡ true → (pass n k p).aborted ≡ true
    unfolding refine_pass
    pass-aborted zero k p h = h
    pass-aborted (suc n) k p h = pass-aborted n (suc k) (visit k p) ((visit_lem k p).1 h)

    Passed-cons :
        (n k : ℕ) (p q : Pass)
        → k < length p.temp
        → Passed n (suc k) (kept k p) q
        → Passed (suc n) k p q
    Passed-cons n k p q inside rest =
        let written = λ (u : ℕ). get_or-set p.temp k u (fresh k) [] inside in
        let less = fresh_row-length m mapped k (candidates m k) in
        record {
          size = rest.size ∙ length-set p.temp k (fresh k);
          rows = λ u. elim (ℕ_discrete k u) [
            | yes e ↦ ground (arith, e, rest.rows u, written u, ap fresh e)
            | no ne ↦ ground (arith, ne, rest.rows u, written u)
          ];
          counts = ground (arith, rest.counts);
          same = λ u h range. elim (ℕ_discrete k u) [
            | yes e ↦
                subst (λ v. length (fresh v) ≡ length (candidates m v)) e
                  (ground (arith, h, rest.counts, less))
            | no ne ↦ rest.same u (ground (arith, h, rest.counts)) (ground (arith, range, ne))
          ];
          shorter = λ more. elim (Bool-cases (ltb (length (fresh k)) (length (candidates m k)))) [
            | inl here ↦ (k, (ground arith, ground (arith, here)))
            | inr not_here ↦
                let (u, (range, shrunk)) = rest.shorter (ground (arith, more, not_here)) in
                (u, (ground (arith, range), shrunk))
          ];
        }

    pub pass-Passed :
        (n k : ℕ) (p : Pass)
        → k + n ≤ length p.temp
        → (pass n k p).aborted ≡ false
        → Passed n k p (pass n k p)
    unfolding refine_pass
    pass-Passed zero k p fits on = record {
      size = refl;
      rows = λ u. ground arith;
      counts = omega arith;
      same = λ u h range. absurd (ground (arith, range));
      shorter = λ more. absurd (omega (arith, more));
    }
    pass-Passed (suc n) k p fits on = elim ((visit_lem k p).0) [
      | inl off ↦ absurd (ground (arith, on, pass-aborted n (suc k) (visit k p) off))
      | inr step ↦
          subst (λ q. Passed (suc n) k p (pass n (suc k) q)) (sym step)
            (Passed-cons n k p (pass n (suc k) (kept k p)) (omega (arith, fits)) (
              pass-Passed n (suc k) (kept k p) (omega (arith, fits, length-set p.temp k (fresh k)))
                (ap (λ q. (pass n (suc k) q).aborted) (sym step) ∙ on)))
    ]
