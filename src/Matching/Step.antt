-- ===== src/Matching/Step.antt =====
-- One round of src/graph/topology/graph_random_matching.cc: marking an edge between unmatched
-- vertices.
use graph_tool.AdjList.{AdjList, Edge}
use graph_tool.AdjList.Unique.{same_source, same_target}
use graph_tool.AdjList.Valid.{IsValid, multiplicity}
use graph_tool.Common.{
  Bool, Bool-cases, arith, false, inl, inr, refl, subst, sym, true, ℕ, ◌<◌, ◌∙◌, ◌≡◌, ◌⊎◌,
}
use graph_tool.GraphInterface.{new}
use graph_tool.Matching.{Matching, mark}

-- An edge ends at a vertex.
abbrev pub Touches : Edge → ℕ → Type 0
Touches e v = (e.source ≡ v) ⊎ (e.target ≡ v)

-- No two edges that the map marks end at the eq_e vertex.
abbrev pub IsMatching : AdjList → (ℕ → Bool) → Type 0
IsMatching g match_map =
    (e f : Edge) (v : ℕ)
    → 0 < multiplicity e g
    → 0 < multiplicity f g
    → match_map e.idx ≡ true
    → match_map f.idx ≡ true
    → Touches e v
    → Touches f v
    → e.idx ≡ f.idx

-- A marked edge of the graph ends at v.
abbrev pub IsMatched : AdjList → (ℕ → Bool) → ℕ → Type 0
IsMatched g match_map v =
    (f : Edge) × (0 < multiplicity f g) × (match_map f.idx ≡ true) × Touches f v

pub record Inv (g : AdjList) (m : Matching) : Type 0 where
  pub ends :
      (e : Edge) (v : ℕ)
      → 0 < multiplicity e g
      → m.match_map e.idx ≡ true
      → Touches e v
      → m.matched v ≡ true
  pub apart : IsMatching g m.match_map
  pub witnessed : (v : ℕ) → m.matched v ≡ true → IsMatched g m.match_map v

mark-cases : (k : ℕ) (f : ℕ → Bool) (j : ℕ) → mark k f j ≡ true → (f j ≡ true) ⊎ (k ≡ j)
unfolding mark
mark-cases k f j h = elim (Bool-cases (f j)) [
  | inl old ↦ inl old
  | inr new ↦ inr (ground (arith, h, new))
]

pub mark-keeps : (k : ℕ) (f : ℕ → Bool) (j : ℕ) → f j ≡ true → mark k f j ≡ true
unfolding mark
mark-keeps k f j h = ground (arith, h)

pub mark_self : (k : ℕ) (f : ℕ → Bool) (j : ℕ) → k ≡ j → mark k f j ≡ true
unfolding mark
mark_self k f j h = elim (Bool-cases (f j)) [
  | inl t ↦ ground (arith, t)
  | inr u ↦ ground (arith, h, u)
]

-- The state after the edge c out of v has been matched.
abbrev pub with_edge : ℕ → Edge → Matching → Matching
with_edge v c m = record {
  matched = mark c.target (mark v m.matched);
  match_map = mark c.idx m.match_map;
}

module _ {g : AdjList} (valid : IsValid g) where
  module _ {m : Matching} (inv : Inv g m) (c : Edge) (v : ℕ) (in_c : 0 < multiplicity c g)
      (from : c.source ≡ v) (free_v : m.matched v ≡ false)
      (free_t : m.matched c.target ≡ false) where
    free_at : (u : ℕ) → Touches c u → m.matched u ≡ false
    free_at u (inl s) = subst (λ w. m.matched w ≡ false) (sym from ∙ s) free_v
    free_at u (inr t) = subst (λ w. m.matched w ≡ false) t free_t

    marked_at : (u : ℕ) → Touches c u → mark c.target (mark v m.matched) u ≡ true
    marked_at u (inl s) = mark-keeps c.target _ u (mark_self v m.matched u (sym from ∙ s))
    marked_at u (inr t) = mark_self c.target _ u t

    -- An edge with the index of c is c.
    ends_at_c :
        (e : Edge) (u : ℕ) → 0 < multiplicity e g → c.idx ≡ e.idx → Touches e u → Touches c u
    ends_at_c e u in_e eq_e (inl s) = inl (same_source valid c e in_c in_e eq_e ∙ s)
    ends_at_c e u in_e eq_e (inr t) = inr (same_target valid c e in_c in_e eq_e ∙ t)

    -- An edge matched before does not end where c ends.
    no_clash :
        (e : Edge) (u : ℕ)
        → 0 < multiplicity e g
        → m.match_map e.idx ≡ true
        → Touches e u
        → Touches c u
        → ⊥
    no_clash e u in_e old at_e at_c =
        absurd (ground (arith, inv.ends e u in_e old at_e, free_at u at_c))

    pub with_edge-Inv : Inv g (with_edge v c m)
    with_edge-Inv = record {
      ends = λ e u in_e h at_e. elim (mark-cases c.idx m.match_map e.idx h) [
        | inl old ↦ mark-keeps c.target _ u (mark-keeps v m.matched u (inv.ends e u in_e old at_e))
        | inr eq_e ↦ marked_at u (ends_at_c e u in_e eq_e at_e)
      ];
      apart = λ e f u in_e in_f h k at_e at_f. elim (mark-cases c.idx m.match_map e.idx h) [
        | inl old ↦ elim (mark-cases c.idx m.match_map f.idx k) [
          | inl old' ↦ inv.apart e f u in_e in_f old old' at_e at_f
          | inr eq_e ↦ absurd (no_clash e u in_e old at_e (ends_at_c f u in_f eq_e at_f))
        ]
        | inr eq_e ↦ elim (mark-cases c.idx m.match_map f.idx k) [
          | inl old ↦ absurd (no_clash f u in_f old at_f (ends_at_c e u in_e eq_e at_e))
          | inr eq_f ↦ sym eq_e ∙ eq_f
        ]
      ];
      witnessed = λ u h. elim (mark-cases c.target _ u h) [
        | inr t ↦ (c, in_c, mark_self c.idx m.match_map c.idx refl, inr t)
        | inl h' ↦ elim (mark-cases v m.matched u h') [
          | inr s ↦ (c, in_c, mark_self c.idx m.match_map c.idx refl, inl (from ∙ s))
          | inl old ↦
              let (f, in_f, on, at_f) = inv.witnessed u old in
              (f, in_f, mark-keeps c.idx m.match_map f.idx on, at_f)
        ]
      ];
    }
