-- ===== src/Subgraph/Isomorphism.antt =====
-- What `subgraph_isomorphism` of src/graph/topology/graph_subgraph_isomorphism.hh finds.
use graph_tool.AdjList.{AdjList, Edge, num_vertices}
use graph_tool.AdjList.Valid.{IsValid, multiplicity}
use graph_tool.Common.{
  Bool, List, Option-cases, [], ap, arith, get_or, inl, inr, refl, replicate, some, suc, ℕ, ◌-◌,
  ◌<◌, ◌∙◌, ◌∷◌, ◌≡◌, ◌≢◌, ◌≤◌,
}
use graph_tool.Rewiring.Pair.{first}
use graph_tool.Subgraph.{Mapping, Matrix, candidates}
use graph_tool.Subgraph.Found.{search_lem}
use graph_tool.Subgraph.Labels.{IsListing, fill_index-place, first_matrix_lem}
use graph_tool.Subgraph.Mappings.{Embeds}
use graph_tool.Subgraph.Search.{
  SearchState, budget, fill_index, find_mappings, first_matrix, subgraph_isomorphism,
}
use graph_tool.Subgraph.Stack.{AllEmbed, whole_weight}

empty-Embeds :
    (vertex_labelling : ℕ → ℕ → Bool) (edge_labelling : Edge → Edge → Bool) (sub g : AdjList)
    (vlist : List ℕ)
    → Embeds vertex_labelling edge_labelling sub g vlist 0 []
empty-Embeds vertex_labelling edge_labelling sub g vlist = record {
  assigned = refl;
  distinct = tt;
  labelled = λ u h. absurd (omega (arith, h));
  adjacent = λ e h low_s low_t. absurd (omega (arith, low_s));
}

module _ (sub g : AdjList) (vertex_labelling : ℕ → ℕ → Bool) (edge_labelling : Edge → Edge → Bool)
    (vlist : List ℕ) (max_n : ℕ) (valid_sub : IsValid sub) (valid : IsValid g)
    (listing : IsListing (num_vertices g) vlist) (two : 2 ≤ num_vertices sub)
    (no_loops : (e : Edge) → 0 < multiplicity e sub → e.source ≢ e.target) where
  abbrev vindex : List ℕ
  vindex = fill_index vlist (num_vertices g) 0 (replicate (num_vertices g) 0)

  find_mappings_lem :
      (m0 : Matrix)
      → first_matrix vertex_labelling vlist (num_vertices g) (num_vertices sub) 0 ≡ some m0
      → (found : List Mapping) × ((find_mappings edge_labelling sub g vlist vindex m0 max_n
            ≡ some found)
          × AllEmbed vertex_labelling edge_labelling sub g vlist vindex found)
  unfolding find_mappings
  find_mappings_lem m0 first =
      let (size, good, short) =
        first_matrix_lem vertex_labelling vlist (num_vertices g) (num_vertices sub) 0 m0 first in
      let start : SearchState = record {
        stack = (record { matrix = m0; vertex = 0; left = candidates m0 0 }) ∷ [];
        already_mapped = [];
        mapping = [];
        found = [];
      } in
      let fits =
        whole_weight vertex_labelling edge_labelling sub g vlist vindex 0 (candidates m0 0)
          (omega (arith, two)) (short 0) in
      let all_left : num_vertices sub - 0 ≡ num_vertices sub = omega arith in
      let (t, (result, inv)) =
        search_lem vertex_labelling edge_labelling sub g vlist vindex valid_sub valid
          (fill_index-place vlist (num_vertices g) listing) no_loops max_n
          (suc (budget (num_vertices g) (num_vertices sub))) start
          (omega (arith, fits, ap (budget (num_vertices g)) all_left))
          (record {
            frames = (
              record {
                belongs = record {
                  part = empty-Embeds vertex_labelling edge_labelling sub g vlist;
                  size = size;
                  single = λ u h. absurd (omega (arith, h));
                  good = λ u c h q.
                      let (low, alike) = good u c q in
                      (low, ap (λ x. vertex_labelling x (get_or vlist c 0)) (omega arith) ∙ alike);
                  tested = λ u c pos low h q. absurd (omega (arith, pos));
                  short = short;
                };
                inside = two;
                among = λ c h. h;
              },
              tt,
            );
            mapped = tt;
            found = tt;
          }) in
      (t.found, (rw (find_mappings, result) refl, inv.found))

  -- For a well-formed graph `sub` of two or more vertices without self-loops, a well-formed graph g and
  -- a list of its vertices, each once, in any order: the search ends, and each mapping that it finds is
  -- a copy of `sub` in g: it gives each vertex of `sub` a place of its own in the list, with a label
  -- that fits, and each edge of `sub` has an edge of g between the vertices at the places of its ends,
  -- with a label that fits.
  pub subgraph_isomorphism_lem :
      (found : List Mapping) × ((subgraph_isomorphism sub g vertex_labelling edge_labelling vlist
            max_n
          ≡ some found)
        × AllEmbed vertex_labelling edge_labelling sub g vlist vindex found)
  unfolding subgraph_isomorphism
  subgraph_isomorphism_lem =
      elim (Option-cases
        (first_matrix vertex_labelling vlist (num_vertices g) (num_vertices sub) 0)) [
          | inl stopped ↦ ([], (rw (subgraph_isomorphism, stopped) refl, tt))
          | inr (m0, first) ↦
              let (found, (result, copies)) = find_mappings_lem m0 first in
              (found, (rw (subgraph_isomorphism, first) result, copies))
        ]
