-- ===== src/Lib.antt =====
-- A verification library for the C++ core of graph-tool (src/graph): the adjacency list in which
-- every graph is kept, and the code that changes a graph through it.
--
-- The parts and how they interact. `adj_list` (src/graph/graph_adjacency.hh) keeps, for each
-- vertex, the list of its out-edges and the list of its in-edges, each edge with an index, which
-- property maps use; it counts the edges and hands freed indices out again. `GraphInterface`
-- (src/graph/graph.hh, graph.cc, graph_filtering.cc) owns one such graph and two filters over it,
-- and removes what a filter masks. `UndirectedAdaptor` (src/graph/graph_adaptor.hh) is a view of
-- the graph without directions. The rewiring strategies (src/graph/generation/graph_rewiring.hh)
-- move edges about by `remove_edge` and `add_edge`, in step with a vector of edge descriptors.
-- The random matching (src/graph/topology/graph_random_matching.cc) reads a graph and marks edges
-- by index, and the independent set reads the undirected view and marks vertices. The search for
-- subgraphs (src/graph/topology/graph_subgraph_isomorphism.hh and .cc) reads two graphs at once.
-- The labels of parallel edges, the reverse edges of the flow algorithms, the union, the
-- predecessor graph and the copy of a graph add and remove edges by the same two functions, and
-- write property maps (src/graph/fast_vector_property_map.hh), which are functions from indices
-- in these parts: PropertyMap shows how a vector stands for such a function. Every client works
-- through the functions of `adj_list`, so the laws that these keep are the laws of the clients'
-- proofs.
--
-- Files, with the code that they model:
-- - AdjList: `adj_list` and its functions. `AdjList` is the class: `out_edges`, `in_edges`,
--   `n_edges`, `last_idx`, `free_indexes` are `_out_edges`, `_in_edges`, `_n_edges`, `_last_idx`,
--   `_free_indexes`. A function of the source that changes the graph returns the new graph.
--   AdjList/Valid states the representation invariant and AdjList/Rows, Columns count entries,
--   AdjList/OutEdges, InEdges and Unique are about the edges out of and into a vertex and the
--   indices; AdjList/Adding (with Linking), Removal, Reindex, Lookup, Degrees are about the
--   functions of those names.
-- - AdjList/Iteration, with Walk, and Edges: the class `edge_iterator` and `edges`, iterator by
--   iterator.
-- - AdjList/Clear: `clear_vertex`, `remove_vertex` and `remove_edge(s, t, g)`, as loops that
--   erase from the vector they walk over, and `GraphInterface::ClearEdges`; with Passes (one such
--   loop), Vertex and Between.
-- - GraphInterface: the class, its constructor, filters, `Clear`, `ClearEdges`, `ReIndexEdges`;
--   GraphInterface/Purge: `PurgeEdges`; GraphInterface/PurgeVertices: `PurgeVertices`, with Kept
--   (the numbers of the vertices that stay) and Purged; AdjList/Clear/Erased is about the rows
--   that `remove_vertex` leaves.
-- - Undirected: `UndirectedAdaptor`, with View (what the view shows) and Remove (removals through
--   it).
-- - Rewiring: `swap_edge`, `RewireStrategyBase::operator()`, `ErdosRewireStrategy::operator()`,
--   with Swap and Pair (the edge list and the graph in step), Moves and Simple;
--   Rewiring/GraphRewire: `graph_rewire` with `RandomRewireStrategy`; Rewiring/Loops and Sweeps:
--   its loops; Rewiring/Correlated: `CorrelatedRewireStrategy`, with Targets (its table), Ends
--   (where a swap moves the ends of edges) and Correlations.
-- - Parallel: `label_parallel_edges`, `label_self_loops`, `remove_labeled_edges`
--   (src/graph/stats/graph_parallel.hh); with Labels (the removal), Loops, First, Duplicates
--   (what the labels of one vertex are), Simplified.
-- - Augment: `augment_graph` and `deaugment_graph` (src/graph/flow/graph_augment.hh); with
--   Reverse (one reverse edge), Rounds, RoundTrip.
-- - Matching: `do_random_matching` (src/graph/topology/graph_random_matching.cc) and
--   `random_permutation_iterator` (src/graph/graph_util.hh), with Permutation, Search and Best
--   (the candidates of one vertex), Chosen (one round), Step, Correct, Maximal.
-- - IndependentSet: `do_maximal_vertex_set` (src/graph/topology/graph_maximal_vertex_set.cc) on
--   the undirected view; with Adjacent, Selected (the first loop of a round), Confirmed (the
--   second), Rounds.
-- - SharedMap: `SharedMap` and `SharedContainer` (src/graph/shared_map.hh), as threads whose
--   steps come in any order; with Interleaving (every schedule) and Gathered (the map, the
--   container).
-- - PropertyMap: `checked_vector_property_map` and `unchecked_vector_property_map`
--   (src/graph/fast_vector_property_map.hh) over vectors that maps share; with View (the function
--   that a vector stands for), Access (`operator[]`, `get`, `put`, `reserve`), Copies (`copy`,
--   `get_unchecked`).
-- - Generation: Predecessor (src/graph/generation/graph_predecessor.hh; with Links) and Union
--   (graph_union.hh there; with Vertices and Edges, the two loops, and Merged). AdjList/Building
--   is about the sequences of `add_vertex` and `add_edge` that such code makes.
-- - GraphCopy: `do_graph_copy` (src/graph/graph_copy.cc); with Vertices, Edges (its loops),
--   Copied.
-- - Reciprocity: `get_reciprocity` (src/graph/topology/graph_reciprocity.cc); with Counts.
-- - Subgraph: `refine_check` and `check_adjacency`
--   (src/graph/topology/graph_subgraph_isomorphism.hh), where `matrix_t` is a list of rows and an
--   `unordered_set` a list, whose order stands for the order of the set's iterator; with Rows
--   (the sets and rows), Check (what the test means), Refine (one pass) Refined (the loop),
--   Pruning and Complete (what both do with a copy). Subgraph/Search: `find_mappings` and
--   `subgraph_isomorphism`, with `Mstack`, F and FF as lists with the last element first; with
--   Mappings (what a partial copy is), Frames and Stack (the invariant of the stack, and its
--   measure), Steps (one round), Found (the loop), Labels (the first candidates), Isomorphism.
--   Subgraph/Shuffle and GetMapping: the order of the vertices and `get_mapping` in
--   graph_subgraph_isomorphism.cc there; with EdgeFound (one edge) and Transferred.
-- - Common: tests, lists under native indices, and `size_t`. Tests: runs on small graphs.
--
-- Numbers. `size_t` and vertices are natural numbers; where the source adds to or subtracts from
-- `_n_edges` and `_last_idx`, the sum and the difference wrap round at 2 ^ 64 (Common/Words), and
-- a statement that needs room for one more edge says so. A `std::vector` is a list; a read out of
-- bounds, undefined in the source, gives an empty list or a default, and a write there changes
-- nothing; `PurgeVertices`, which can come to read so on ordinary graphs, has the result `none`
-- there. The entries of the vertex map of a union are `int32_t`, with the conversion written out.
-- A `std::deque` is a list with its front first.
--
-- Fuel. A loop over a list or over a count is structural. On fuel are the loop of
-- `edge_iterator::skip` (a round for each vertex, and `AdjList.Iteration.skip_empty` gives as
-- many), the second loop of `clear_vertex` (its bound is a list that only shrinks; its length and
-- one more are given), and the loop from `edges_begin` to `edges_end` (`visited`, which is `none`
-- when the fuel runs out). The loop of `refine_check` takes a round for each candidate of the
-- matrix and one more, as each round but the last takes a candidate away; the loop of
-- `find_mappings` takes `budget`, the size of the tree of all choices. The main loop of the
-- independent set ends when its random draws let it, so its number of rounds is an argument; the
-- two loops of a round are run in the order of their lists, as a build without OpenMP, the
-- default of configure.ac, runs them.
--
-- Parameters. What is drawn at random is an argument of the moves, the matching, the set and the
-- order of the vertices in the search for subgraphs, the quotient of the reciprocity is a
-- function of the two counts, the labellings of the search for subgraphs are Boolean functions,
-- the weights of the matching are of any type with `<` and `==`, and the predicate of
-- `remove_out_edge_if` is a function on descriptors. A filter's property map is a function from
-- indices to numbers. The conversion of a label to the value type of its map, in Parallel, is a
-- function on the natural numbers.
--
-- Not modelled: the `ProbabilisticRewireStrategy`, which weighs by doubles; the views for
-- filtered and reversed graphs, which are type-level dispatch over the same functions; the
-- dynamic property maps; the other algorithms of src/graph/topology, and those of generation,
-- flow, centrality, clustering, community, correlations, stats, search and layout, which read a
-- graph through the functions modelled here; input and output, drawing, and the Python bindings.
mod Common
pub mod AdjList
pub mod Generation
pub mod GraphCopy
pub mod GraphInterface
pub mod Rewiring
pub mod Subgraph
pub mod Undirected
pub mod Matching
pub mod Parallel
pub mod PropertyMap
pub mod Reciprocity
pub mod Augment
pub mod IndependentSet
pub mod SharedMap
mod Tests
