-- ===== src/IndependentSet.antt =====
-- src/graph/topology/graph_maximal_vertex_set.cc: a maximal independent set of vertices, on the
-- undirected view of a graph, as src/graph_tool/topology/__init__.py calls it. The two loops
-- of a round, parallel where the build enables OpenMP, are run in the order of their lists, as a build
-- without it runs them, which is the default (configure.ac). Whether the number drawn for a vertex is
-- below the vertex's chance, a comparison of doubles, is an argument: `accept round v`.
pub mod Adjacent
pub mod Selected
pub mod Confirmed
pub mod Rounds
use graph_tool.AdjList.{AdjList, num_vertices}
use graph_tool.Common.{
  Bool, List, [], false, if◌then◌else◌, ltb, not, suc, true, zero, ℕ, ◌&&◌, ◌++◌, ◌==◌, ◌||◌, ◌∷◌,
}
use graph_tool.Matching.{vertices}
use graph_tool.Undirected.{undirected_adjacent_vertices, undirected_out_degree}

-- `mvs`, `marked`, `selected`, `tmp`
pub record VertexSet : Type 0 where
  pub mvs : ℕ → Bool
  pub marked : ℕ → Bool
  pub selected : List ℕ
  pub tmp : List ℕ

-- `map[v] = b`
unfoldable pub assign : ℕ → Bool → (ℕ → Bool) → ℕ → Bool
assign v b f u = if v == u then b else f u

-- Whether a vertex of the list is in the set: the first loop over the adjacent vertices.
unfoldable pub any_member : (ℕ → Bool) → List ℕ → Bool
any_member mvs [] = false
any_member mvs (a ∷ adjacent) = mvs a || any_member mvs adjacent

-- The body of the first loop of a round.
unfoldable pub select : (ℕ → Bool) → AdjList → ℕ → VertexSet → VertexSet
unfolding assign any_member
select accept g v s =
    if any_member s.mvs (undirected_adjacent_vertices v g)
    then record s { marked = assign v false s.marked }
    else if not (ltb 0 (undirected_out_degree v g)) || accept v
    then record s { marked = assign v true s.marked; selected = s.selected ++ v ∷ [] }
    else record s { marked = assign v false s.marked; tmp = s.tmp ++ v ∷ [] }

unfoldable pub select_all : (ℕ → Bool) → AdjList → List ℕ → VertexSet → VertexSet
unfolding select
select_all accept g [] s = s
select_all accept g (v ∷ vs) s = select_all accept g vs (select accept g v s)

-- Whether v goes before the marked vertex a.
unfoldable pub goes_first : Bool → AdjList → ℕ → ℕ → Bool
goes_first high_deg g v a =
    let dv = undirected_out_degree v g in
    let da = undirected_out_degree a g in
    if dv == da then ltb v a else high_deg && ltb da dv || not high_deg && ltb dv da

-- The loop over the adjacent vertices in the second loop of a round: `include` at its end.
unfoldable pub scan : Bool → AdjList → ℕ → VertexSet → List ℕ → Bool
unfolding goes_first
scan high_deg g v s [] = true
scan high_deg g v s (a ∷ adjacent) =
    let rest = scan high_deg g v s adjacent in
    if a == v
    then rest
    else if s.mvs a
    then false
    else if s.marked a
    then goes_first high_deg g v a && rest
    else rest

-- The body of the second loop of a round.
unfoldable pub confirm : Bool → AdjList → ℕ → VertexSet → VertexSet
unfolding scan assign
confirm high_deg g v s =
    if scan high_deg g v s (undirected_adjacent_vertices v g)
    then record s { mvs = assign v true s.mvs; marked = assign v false s.marked }
    else record s { tmp = s.tmp ++ v ∷ []; marked = assign v false s.marked }

unfoldable pub confirm_all : Bool → AdjList → List ℕ → VertexSet → VertexSet
unfolding confirm
confirm_all high_deg g [] s = s
confirm_all high_deg g (v ∷ vs) s = confirm_all high_deg g vs (confirm high_deg g v s)

-- The body of the main loop; `vlist` afterwards is the last `tmp`.
unfoldable pub one_round : (ℕ → Bool) → Bool → AdjList → List ℕ → VertexSet → VertexSet
unfolding select_all confirm_all
one_round accept high_deg g vlist s =
    let t = select_all accept g vlist (record s { selected = []; tmp = [] }) in
    confirm_all high_deg g t.selected t

-- The first n rounds of the main loop from round k on, fewer where `vlist` is empty: `vlist` and the
-- state.
unfoldable pub rounds :
    (ℕ → ℕ → Bool) → Bool → AdjList → ℕ → ℕ → List ℕ → VertexSet → List ℕ × VertexSet
unfolding one_round
rounds accept high_deg g k zero vlist s = (vlist, s)
rounds accept high_deg g k (suc n) [] s = ([], s)
rounds accept high_deg g k (suc n) (v ∷ vs) s =
    let t = one_round (accept k) high_deg g (v ∷ vs) s in rounds accept high_deg g (suc k) n t.tmp t

-- `do_maximal_vertex_set` after n rounds.
unfoldable pub maximal_vertex_set : (ℕ → ℕ → Bool) → Bool → AdjList → ℕ → List ℕ × VertexSet
unfolding rounds vertices
maximal_vertex_set accept high_deg g n =
    rounds accept high_deg g 0 n (vertices 0 (num_vertices g))
      (record { mvs = λ _. false; marked = λ _. false; selected = []; tmp = [] })
