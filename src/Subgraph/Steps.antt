-- ===== src/Subgraph/Steps.antt =====
-- One round of `find_mappings` in src/graph/topology/graph_subgraph_isomorphism.hh keeps the invariant,
-- and lowers the measure.
use graph_tool.AdjList.{AdjList, Edge, num_vertices}
use graph_tool.AdjList.Valid.{IsValid, multiplicity}
use graph_tool.Common.{
  Bool, List, [], ap, arith, get_or, get_or-set, if◌then◌else◌, length, set, subst, suc, sym, true,
  ℕ, ◌<◌, ◌==◌, ◌∙◌, ◌∷◌, ◌≡◌, ◌≢◌,
}
use graph_tool.Subgraph.{Mapping, Matrix, candidates, insert, member}
use graph_tool.Subgraph.Frames.{Belongs, Part, extend}
use graph_tool.Subgraph.Mappings.{AllMapped, AllMapped-insert, Differs-unmapped}
use graph_tool.Subgraph.Refined.{Refined}
use graph_tool.Subgraph.Rows.{member-insert}
use graph_tool.Subgraph.Search.{SearchState, visit_leafs}
use graph_tool.Subgraph.Stack.{AllEmbed, Searching}
use native.Mathlib.Decide.{ℕ_discrete}

module _ (vertex_labelling : ℕ → ℕ → Bool) (edge_labelling : Edge → Edge → Bool) (sub g : AdjList)
    (vlist vindex : List ℕ) (valid_sub : IsValid sub) (valid : IsValid g)
    (place : (v : ℕ) → v < num_vertices g → get_or vlist (get_or vindex v 0) 0 ≡ v)
    (no_loops : (e : Edge) → 0 < multiplicity e sub → e.source ≢ e.target) where
  abbrev Here : ℕ → Mapping → Matrix → Type 0
  Here = Belongs vertex_labelling edge_labelling sub g vlist vindex

  abbrev Inv : SearchState → Type 0
  Inv = Searching vertex_labelling edge_labelling sub g vlist vindex

  abbrev Copies : List Mapping → Type 0
  Copies = AllEmbed vertex_labelling edge_labelling sub g vlist vindex

  module _ (i : ℕ) (f : Mapping) (m : Matrix) (c : ℕ) (mapped : List ℕ) (b : Here i f m)
      (inside : suc i < num_vertices sub) (there : member c (candidates m i) ≡ true)
      (all : AllMapped f mapped) where
    abbrev m_prime : Matrix
    m_prime = set m i (c ∷ [])

    abbrev set_prime : List ℕ
    set_prime = insert c mapped

    pub longer-Part : Part vertex_labelling edge_labelling sub g vlist vindex (suc i) ((i, c) ∷ f)
    longer-Part =
        extend vertex_labelling edge_labelling sub g vlist vindex valid_sub valid place no_loops i f
          m c b (omega (arith, inside)) there

    pub all_prime : AllMapped ((i, c) ∷ f) set_prime
    all_prime = (ground (arith, member-insert c c mapped), AllMapped-insert f c mapped all)

    row_prime : (u : ℕ) → candidates m_prime u ≡ (if i == u then c ∷ [] else candidates m u)
    row_prime u = get_or-set m i u (c ∷ []) [] (omega (arith, inside, b.size))

    new_row : (u : ℕ) → i ≡ u → candidates m_prime u ≡ c ∷ []
    new_row u e = row_prime u ∙ ground (arith, e)

    old_row : (u : ℕ) → i ≢ u → candidates m_prime u ≡ candidates m u
    old_row u ne = row_prime u ∙ ground (arith, ne)

    -- The matrix after a refinement belongs to the longer mapping.
    pub Refined-Belongs :
        (m' : Matrix)
        → Refined edge_labelling sub g vlist vindex
            (suc i)
            set_prime
            (omega (arith, inside))
            m_prime
            m'
        → Here (suc i) ((i, c) ∷ f) m'
    Refined-Belongs m' r = record {
      part = longer-Part;
      size = r.size;
      single = λ u h. elim (ℕ_discrete i u) [
        | yes e ↦ r.first u h ∙ row_prime u ∙ ground (arith, e)
        | no ne ↦ r.first u h ∙ row_prime u ∙ ground (arith, ne, b.single u (omega (arith, h, ne)))
      ];
      good = λ u d h q. elim (ℕ_discrete i u) [
        | yes e ↦
            let only : d ≡ c = member-one d c (ap (member d) (sym (new_row u e)) ∙ r.fewer u d q) in
            subst (λ v. (d < num_vertices g) × (vertex_labelling v (get_or vlist d 0) ≡ true)) e
              (b.good i d (omega (arith, inside))
                (ap (λ x. member x (candidates m i)) only ∙ there))
        | no ne ↦ b.good u d h (ap (member d) (sym (old_row u ne)) ∙ r.fewer u d q)
      ];
      tested = λ u d pos low h q.
          let (free, good) = r.free u d low h q in
          (Differs-unmapped ((i, c) ∷ f) d set_prime all_prime free, good);
      short = λ u. elim (ℕ_discrete i u) [
        | yes e ↦ omega (
          arith,
          r.short u,
          ap length (new_row u e),
          (b.good i c (omega (arith, inside)) there).0,
        )
        | no ne ↦ omega (arith, r.short u, ap length (old_row u ne), b.short u)
      ];
    }
      where
        member-one : (x y : ℕ) → member x (y ∷ []) ≡ true → x ≡ y
        member-one x y h = unfold member in ground (arith, h)

    -- Each end leaf is a copy.
    pub visit_leafs-Copies :
        (m' : Matrix)
        → Here (suc i) ((i, c) ∷ f) m'
        → suc (suc i) ≡ num_vertices sub
        → (cs : List ℕ) (found : List Mapping)
        → ((d : ℕ) → member d cs ≡ true → member d (candidates m' (suc i)) ≡ true)
        → Copies found
        → Copies (visit_leafs (suc i) ((i, c) ∷ f) cs found)
    unfolding visit_leafs
    visit_leafs-Copies m' h last [] found among old = old
    visit_leafs-Copies m' h last (d ∷ cs) found among old =
        visit_leafs-Copies m' h last cs (((suc i, d) ∷ (i, c) ∷ f) ∷ found)
          (λ x q. among x (unfold member in ground (arith, q)))
          (
            subst
                (λ n.
                  Part vertex_labelling edge_labelling sub g vlist vindex n
                    ((suc i, d) ∷ (i, c) ∷ f))
                last
                (extend vertex_labelling edge_labelling sub g vlist vindex valid_sub valid place
                  no_loops (suc i) ((i, c) ∷ f) m' d h (omega (arith, last))
                  (among d (unfold member in ground arith))),
            old,
          )
