-- ===== src/Tests/MatchingTests.antt =====
-- src/graph/topology/graph_random_matching.cc on a small graph, with weights of one bit.
use graph_tool.AdjList.{Edge, num_vertices, out_edges}
use graph_tool.AdjList.Valid.{multiplicity}
use graph_tool.Common.{
  Bool, [], arith, false, map, not, refl, true, ℕ, ◌&&◌, ◌<◌, ◌==◌, ◌∷◌, ◌≡◌, ◌⊎◌,
}
use graph_tool.Matching.{Matching, improves, match_vertex, random_matching}
use graph_tool.Matching.Chosen.{match_vertex_lem}
use graph_tool.Matching.Correct.{random_matching-IsMatching}
use graph_tool.Matching.Maximal.{IsMaximal, random_matching-IsMaximal}
use graph_tool.Matching.Step.{IsMatching, with_edge}
use graph_tool.Tests.Graphs.{sample, sample-IsValid}

abbrev lt_bit : Bool → Bool → Bool
lt_bit a b = not a && b

abbrev eq_bit : Bool → Bool → Bool
eq_bit true b = b
eq_bit false b = not b

-- The edge with index 2 is the lighter one.
abbrev bit_weight : ℕ → Bool
bit_weight i = not (i == 2)

abbrev unset : ℕ → Bool
unset i = false

abbrev last_draw : ℕ → ℕ
last_draw n = n

abbrev first_pick : ℕ → ℕ → ℕ
first_pick v n = 0

abbrev sample_matching : ℕ → Bool
sample_matching =
    random_matching lt_bit eq_bit true true bit_weight last_draw first_pick sample unset

-- The vertices come as 2, 0, 1: the self-loop at 2 is matched, then an edge from 0 to 1.
random_matching-sample : map sample_matching (0 ∷ 1 ∷ 2 ∷ 3 ∷ []) ≡ true ∷ false ∷ false ∷ true ∷ []
unfolding random_matching num_vertices out_edges
random_matching-sample = refl

eq_bit_refl : (w : Bool) → eq_bit w w ≡ true
eq_bit_refl true = refl
eq_bit_refl false = refl

bit_reaches :
    (w : Bool) → improves lt_bit eq_bit true true bit_weight w true ≡ false → eq_bit w true ≡ true
unfolding improves
bit_reaches true h = refl
bit_reaches false h = ground (arith, h)

random_matching-IsMatching_example : IsMatching sample sample_matching
random_matching-IsMatching_example =
    random_matching-IsMatching lt_bit eq_bit true true bit_weight first_pick sample-IsValid
      last_draw unset (λ i. refl)

random_matching-IsMaximal_example : IsMaximal sample sample_matching
random_matching-IsMaximal_example =
    random_matching-IsMaximal lt_bit eq_bit true true bit_weight first_pick sample-IsValid
      eq_bit_refl bit_reaches last_draw unset (λ n. omega arith) (λ i. refl)

bit_irrefl : (w : Bool) → improves lt_bit eq_bit true true bit_weight w w ≡ false
unfolding improves
bit_irrefl true = refl
bit_irrefl false = refl

bit_transitive :
    (a b c : Bool)
    → improves lt_bit eq_bit true true bit_weight a b ≡ true
    → improves lt_bit eq_bit true true bit_weight b c ≡ true
    → improves lt_bit eq_bit true true bit_weight a c ≡ true
unfolding improves
bit_transitive true b c h k = absurd (ground (arith, h))
bit_transitive false true c h k = absurd (ground (arith, k))
bit_transitive false false c h k = k

bit_respects :
    (a b c : Bool)
    → eq_bit b c ≡ true
    → improves lt_bit eq_bit true true bit_weight a c ≡ false
    → improves lt_bit eq_bit true true bit_weight a b ≡ false
unfolding improves
bit_respects a true true h k = k
bit_respects a true false h k = absurd (ground (arith, h))
bit_respects a false true h k = absurd (ground (arith, h))
bit_respects a false false h k = k

abbrev fresh : Matching
fresh = record { matched = unset; match_map = unset }

abbrev after_one : Matching
after_one = match_vertex lt_bit eq_bit true true bit_weight first_pick sample 1 fresh

match_vertex_lem_example :
    ((c : Edge) × (c.source ≡ 1)
      × (0 < multiplicity c sample)
      × (fresh.matched c.target ≡ false)
      × (after_one ≡ with_edge 1 c fresh)
      × ((e : Edge)
          → 0 < multiplicity e sample
          → e.source ≡ 1
          → fresh.matched e.target ≡ false
          → improves lt_bit eq_bit true true bit_weight (bit_weight e.idx) (bit_weight c.idx)
            ≡ false))
    ⊎ ((after_one ≡ fresh)
        × ((e : Edge) → 0 < multiplicity e sample → e.source ≡ 1 → fresh.matched e.target ≡ true))
match_vertex_lem_example =
    match_vertex_lem lt_bit eq_bit true true bit_weight first_pick sample 1 fresh eq_bit_refl
      bit_irrefl bit_transitive bit_respects bit_reaches refl
