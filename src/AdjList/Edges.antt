-- ===== src/AdjList/Edges.antt =====
-- The list of all edges (src/graph/graph_adjacency.hh, `edges`) against the multiset of edges that a
-- well-formed graph holds.
use graph_tool.AdjList.{AdjList, Edge, EdgeList, make_out_edge, num_edges, row}
use graph_tool.AdjList.Iteration.{all_edges, edges_begin, edges_end, edges_from, visited}
use graph_tool.AdjList.Iteration.Walk.{visited-all_edges}
use graph_tool.AdjList.Linking.{same_edge}
use graph_tool.AdjList.Rows.{times}
use graph_tool.AdjList.Valid.{IsValid, lt-of_times, multiplicity}
use graph_tool.Common.{
  List, [], ap, arith, if◌then◌else◌, leb, length, length-append, ltb, map, refl, some, suc, sum_by,
  sym, zero, ℕ, ◌&&◌, ◌++◌, ◌+◌, ◌==◌, ◌∙◌, ◌∷◌, ◌≡◌,
}

-- How often a list has an edge.
unfoldable pub occurrences : Edge → List Edge → ℕ
occurrences e [] = 0
occurrences e (f ∷ es) = same_edge f e + occurrences e es

occurrences-append :
    (e : Edge) (es fs : List Edge) → occurrences e (es ++ fs) ≡ occurrences e es + occurrences e fs
unfolding occurrences
occurrences-append e [] fs = omega arith
occurrences-append e (f ∷ es) fs = omega (arith, occurrences-append e es fs)

pub occurrences-make_out_edge :
    (e : Edge) (k : ℕ) (es : EdgeList)
    → occurrences e (map (make_out_edge k) es)
      ≡ (if k == e.source then times e.target e.idx es else 0)
unfolding occurrences make_out_edge times
occurrences-make_out_edge e k [] = ground arith
occurrences-make_out_edge e k ((t, i) ∷ es) = ground (arith, occurrences-make_out_edge e k es)

occurrences-edges_from :
    (e : Edge) (rows : List EdgeList) (m k : ℕ)
    → occurrences e (edges_from m k rows) ≡ (
        if leb k e.source && ltb e.source (k + m)
        then times e.target e.idx (row rows e.source)
        else 0)
unfolding occurrences edges_from
occurrences-edges_from e rows zero k = ground arith
occurrences-edges_from e rows (suc m) k = ground (
  arith,
  occurrences-append e (map (make_out_edge k) (row rows k)) (edges_from m (suc k) rows),
  occurrences-make_out_edge e k (row rows k),
  occurrences-edges_from e rows m (suc k),
)

-- The list of all edges has each edge as often as the graph.
pub occurrences-all_edges :
    (e : Edge) (g : AdjList) → occurrences e (all_edges g) ≡ multiplicity e g
unfolding all_edges
occurrences-all_edges e g = ground (
  arith,
  occurrences-edges_from e g.out_edges (length g.out_edges) 0,
  lt-of_times e.target e.idx e.source g.out_edges,
)

pub length-map {ℓ κ} :
    {A : Type ℓ} {B : Type κ} (f : A → B) (xs : List A) → length (map f xs) ≡ length xs
length-map f [] = refl
length-map f (x ∷ xs) = ap suc (length-map f xs)

-- The rows of a table from row k on.
length-edges_from :
    (rows : List EdgeList) (m k : ℕ)
    → length (edges_from (suc m) k rows) ≡ length (row rows k) + length (edges_from m (suc k) rows)
unfolding edges_from
length-edges_from rows m k = omega (
  arith,
  length-append (map (make_out_edge k) (row rows k)) (edges_from m (suc k) rows),
  length-map (make_out_edge k) (row rows k),
)

edges_from-shift :
    (es : EdgeList) (rows : List EdgeList) (m k : ℕ)
    → length (edges_from m (suc k) (es ∷ rows)) ≡ length (edges_from m k rows)
unfolding edges_from
edges_from-shift es rows zero k = refl
edges_from-shift es rows (suc m) k = omega (
  arith,
  length-edges_from (es ∷ rows) m (suc k),
  length-edges_from rows m k,
  edges_from-shift es rows m (suc k),
)

length-edges_from-total :
    (rows : List EdgeList) → length (edges_from (length rows) 0 rows) ≡ sum_by length rows
unfolding edges_from
length-edges_from-total [] = refl
length-edges_from-total (es ∷ rows) = omega (
  arith,
  length-edges_from (es ∷ rows) (length rows) 0,
  edges_from-shift es rows (length rows) 0,
  length-edges_from-total rows,
)

pub length-all_edges : (g : AdjList) → IsValid g → length (all_edges g) ≡ num_edges g
unfolding num_edges all_edges
length-all_edges g v = length-edges_from-total g.out_edges ∙ sym v.counted

-- In a well-formed graph the loop over `edges(g)` makes `num_edges(g)` rounds, and passes every edge
-- of the graph, as often as the graph has it, and nothing else.
pub edge_loop :
    (g : AdjList)
    → IsValid g
    → (es : List Edge) × (visited
          (suc (num_edges g))
          g.out_edges
          (edges_begin g.out_edges)
          (edges_end g.out_edges)
        ≡ some es)
      × (length es ≡ num_edges g)
      × ((e : Edge) → occurrences e es ≡ multiplicity e g)
unfolding num_edges
edge_loop g v =
    let size = length-all_edges g v in
    (
      all_edges g,
      visited-all_edges g (suc g.n_edges) (omega (arith, size)),
      size,
      λ e. occurrences-all_edges e g,
    )
