-- ===== src/Tests/SubgraphTests.antt =====
-- src/graph/topology/graph_subgraph_isomorphism.hh and .cc: the copies of one edge in a small graph.
use graph_tool.AdjList.{Edge, num_vertices, out_edges}
use graph_tool.AdjList.OutEdges.{AllOf, out_edges-All}
use graph_tool.AdjList.Valid.{multiplicity, source_lt, target_lt}
use graph_tool.Common.{
  Bool, List, Option, [], arith, false, get_or, if◌then◌else◌, ltb, refl, replicate, some, subst,
  suc, sym, true, zero, ℕ, ◌<◌, ◌==◌, ◌∙◌, ◌∷◌, ◌≡◌, ◌≢◌, ◌≤◌,
}
use graph_tool.Subgraph.{Mapping, Matrix, member, refine_check}
use graph_tool.Subgraph.Complete.{refine_check-Fits}
use graph_tool.Subgraph.EdgeFound.{Done}
use graph_tool.Subgraph.GetMapping.{get_mapping, in_order}
use graph_tool.Subgraph.Isomorphism.{subgraph_isomorphism_lem}
use graph_tool.Subgraph.Labels.{IsListing}
use graph_tool.Subgraph.Mappings.{Embeds, image, target_of}
use graph_tool.Subgraph.Pruning.{Fits, IsPlacedCopy}
use graph_tool.Subgraph.Refined.{Outcome, refine_check-Outcome}
use graph_tool.Subgraph.Search.{fill_index, subgraph_isomorphism}
use graph_tool.Subgraph.Shuffle.{shuffled, shuffled-IsListing}
use graph_tool.Subgraph.Stack.{AllEmbed}
use graph_tool.Subgraph.Transferred.{get_mapping_lem}
use graph_tool.Tests.Graphs.{one_edge, one_edge-IsValid, sample, sample-IsValid}
use mathlib.Core.Option.{some-injective}

abbrev any_vertex : ℕ → ℕ → Bool
any_vertex u v = true

-- The first edge of the graph does not fit.
abbrev later : Edge → Edge → Bool
later e e' = ltb 0 e'.idx

abbrev one_two : ℕ → ℕ
one_two i = if i == 0 then 1 else i

abbrev order : List ℕ
order = shuffled one_two 3

order-IsListing : IsListing (num_vertices sample) order
unfolding num_vertices
order-IsListing = shuffled-IsListing one_two 3 (λ i h. ground (arith, h))

loopless : (u : ℕ) → AllOf (λ e. e.source ≢ e.target) (out_edges u one_edge)
unfolding out_edges
loopless zero = ((λ e. absurd (omega (arith, e))), tt)
loopless (suc zero) = tt
loopless (suc (suc u)) = tt

no_loops : (e : Edge) → 0 < multiplicity e one_edge → e.source ≢ e.target
no_loops e there = out_edges-All one_edge (λ e. e.source ≢ e.target) e (loopless e.source) there

abbrev copies : Option (List Mapping)
copies = subgraph_isomorphism one_edge sample any_vertex later order 0

abbrev mapping : Mapping
mapping = (1, 2) ∷ (0, 0) ∷ []

subgraph_isomorphism-one_edge :
    subgraph_isomorphism one_edge sample any_vertex later order 0
    ≡ some (((1, 0) ∷ (0, 1) ∷ []) ∷ mapping ∷ [])
unfolding subgraph_isomorphism shuffled
subgraph_isomorphism-one_edge = refl

subgraph_isomorphism_lem_example :
    (found : List Mapping) × ((subgraph_isomorphism one_edge sample any_vertex later order 0
        ≡ some found)
      × AllEmbed any_vertex later one_edge sample order
          (fill_index order 3 0 (0 ∷ 0 ∷ 0 ∷ []))
          found)
unfolding num_vertices
subgraph_isomorphism_lem_example =
    subgraph_isomorphism_lem one_edge sample any_vertex later order 0 one_edge-IsValid
      sample-IsValid order-IsListing (omega arith) no_loops

mapping-Embeds : Embeds any_vertex later one_edge sample order (num_vertices one_edge) mapping
unfolding num_vertices
mapping-Embeds =
    let (found, (result, all)) =
      subgraph_isomorphism_lem one_edge sample any_vertex later order 0 one_edge-IsValid
        sample-IsValid order-IsListing (omega arith) no_loops in
    let same =
      some-injective found (((1, 0) ∷ (0, 1) ∷ []) ∷ mapping ∷ [])
        (sym result ∙ subgraph_isomorphism-one_edge) in
    (subst
      (AllEmbed any_vertex later one_edge sample order
        (fill_index order (num_vertices sample) 0 (replicate (num_vertices sample) 0)))
      same all).1.0

shuffled-IsListing_example : IsListing 3 order
shuffled-IsListing_example = shuffled-IsListing one_two 3 (λ i h. ground (arith, h))

few : 1 ≤ num_vertices one_edge
unfolding num_vertices
few = omega arith

abbrev matrix : Matrix
matrix = (0 ∷ []) ∷ (0 ∷ 1 ∷ 2 ∷ []) ∷ []

refine_check-Outcome_example :
    Outcome later one_edge sample order
      (fill_index order 3 0 (0 ∷ 0 ∷ 0 ∷ []))
      1
      (0 ∷ [])
      few
      matrix
      (refine_check later one_edge sample order
        (fill_index order 3 0 (0 ∷ 0 ∷ 0 ∷ []))
        matrix
        1
        (0 ∷ []))
unfolding num_vertices
refine_check-Outcome_example =
    refine_check-Outcome later one_edge sample order (fill_index order 3 0 (0 ∷ 0 ∷ 0 ∷ [])) 1
      (0 ∷ []) few matrix refl

get_mapping_lem_example :
    (maps : (ℕ → ℕ) × (ℕ → ℕ)) × ((get_mapping later one_edge sample order
          (in_order mapping)
          (λ u. 0)
          (λ i. 0)
        ≡ some maps)
      × (((u : ℕ)
            → u < num_vertices one_edge
            → maps.0 u ≡ target_of any_vertex later one_edge sample order mapping u)
          × ((x : Edge)
              → 0 < multiplicity x one_edge
              → Done any_vertex later one_edge sample order mapping one_edge-IsValid sample-IsValid
                  mapping-Embeds maps.1 x)))
get_mapping_lem_example =
    get_mapping_lem any_vertex later one_edge sample order mapping one_edge-IsValid sample-IsValid
      mapping-Embeds (λ u. 0) (λ i. 0)

abbrev index : List ℕ
index = fill_index order 3 0 (0 ∷ 0 ∷ 0 ∷ [])

abbrev place_of : ℕ → ℕ
place_of = image mapping

placed :
    (u : ℕ) → u < num_vertices one_edge → get_or index (get_or order (place_of u) 0) 0 ≡ place_of u
unfolding shuffled fill_index num_vertices
placed zero h = refl
placed (suc zero) h = refl
placed (suc (suc u)) h = absurd (omega (arith, h))

mapping-IsPlacedCopy : IsPlacedCopy later one_edge sample order index place_of
unfolding num_vertices
mapping-IsPlacedCopy = record {
  place = placed;
  adjacent = λ e there.
      mapping-Embeds.adjacent e there (source_lt one_edge-IsValid e there)
        (target_lt one_edge-IsValid e there);
}

untaken : (u : ℕ) → 1 ≤ u → u < num_vertices one_edge → member (place_of u) (0 ∷ []) ≡ false
unfolding member num_vertices
untaken zero low high = absurd (omega (arith, low))
untaken (suc zero) low high = refl
untaken (suc (suc u)) low high = absurd (omega (arith, high))

matrix-Fits : Fits later one_edge sample order index place_of matrix
unfolding num_vertices member
matrix-Fits zero h = refl
matrix-Fits (suc zero) h = refl
matrix-Fits (suc (suc u)) h = absurd (omega (arith, h))

refine_check-Fits_example :
    (m' : Matrix) × ((refine_check later one_edge sample order index matrix 1 (0 ∷ [])
        ≡ some (true, m'))
      × Fits later one_edge sample order index place_of m')
unfolding num_vertices
refine_check-Fits_example =
    refine_check-Fits later one_edge sample order index one_edge-IsValid sample-IsValid place_of
      mapping-IsPlacedCopy 1 (0 ∷ []) few untaken matrix refl matrix-Fits
