-- ===== src/Undirected/View.antt =====
-- The view of src/graph/graph_adaptor.hh, seen from both ends of an edge.
use graph_tool.AdjList.{
  AdjList, Edge, EdgeList, in_degree, in_edges, make_in_edge, make_out_edge, out_degree, out_edges,
  row,
}
use graph_tool.AdjList.Linking.{same_edge}
use graph_tool.AdjList.Lookup.{edge_lem}
use graph_tool.AdjList.Rows.{same, times, vertex_times, vertex_times-eq, vertex_times-eq-zero}
use graph_tool.AdjList.Valid.{IsValid, multiplicity, pair_count}
use graph_tool.Common.{
  Bool, List, [], ap, arith, false, if◌then◌else◌, inl, inr, length, length-append, map, none, not,
  refl, some, suc, true, ℕ, ◌&&◌, ◌++◌, ◌+◌, ◌<◌, ◌==◌, ◌||◌, ◌∙◌, ◌∷◌, ◌≡◌, ◌⊎◌,
}
use graph_tool.Undirected.{
  EdgeDescriptor, make_undirected_edge, source, target, undirected_edge, undirected_out_degree,
  undirected_out_edges,
}

-- How many edges of a list lead to v.
unfoldable pub target_count : ℕ → List EdgeDescriptor → ℕ
target_count v [] = 0
target_count v (e ∷ es) = same v (target e) + target_count v es

-- Every edge of the list starts at u.
abbrev pub AllFrom : ℕ → List EdgeDescriptor → Type 0
AllFrom u [] = Unit {0}
AllFrom u (e ∷ es) = (source e ≡ u) × AllFrom u es

AllFrom-append :
    (u : ℕ) (es fs : List EdgeDescriptor) → AllFrom u es → AllFrom u fs → AllFrom u (es ++ fs)
AllFrom-append u [] fs h k = k
AllFrom-append u (e ∷ es) fs h k = (h.0, AllFrom-append u es fs h.1 k)

out_AllFrom :
    (u : ℕ) (es : EdgeList)
    → AllFrom u (map (make_undirected_edge false) (map (make_out_edge u) es))
unfolding make_undirected_edge make_out_edge source
out_AllFrom u [] = tt
out_AllFrom u ((t, i) ∷ es) = (refl, out_AllFrom u es)

in_AllFrom :
    (u : ℕ) (es : EdgeList) → AllFrom u (map (make_undirected_edge true) (map (make_in_edge u) es))
unfolding make_undirected_edge make_in_edge source
in_AllFrom u [] = tt
in_AllFrom u ((s, i) ∷ es) = (refl, in_AllFrom u es)

target_count-append :
    (v : ℕ) (es fs : List EdgeDescriptor)
    → target_count v (es ++ fs) ≡ target_count v es + target_count v fs
unfolding target_count
target_count-append v [] fs = omega arith
target_count-append v (e ∷ es) fs = omega (arith, target_count-append v es fs)

target_count-out :
    (v u : ℕ) (es : EdgeList)
    → target_count v (map (make_undirected_edge false) (map (make_out_edge u) es))
      ≡ vertex_times v es
unfolding target_count make_undirected_edge make_out_edge target vertex_times
target_count-out v u [] = refl
target_count-out v u ((t, i) ∷ es) = omega (arith, target_count-out v u es)

target_count-in :
    (v u : ℕ) (es : EdgeList)
    → target_count v (map (make_undirected_edge true) (map (make_in_edge u) es)) ≡ vertex_times v es
unfolding target_count make_undirected_edge make_in_edge target vertex_times
target_count-in v u [] = refl
target_count-in v u ((s, i) ∷ es) = omega (arith, target_count-in v u es)

length-map {ℓ κ} :
    {A : Type ℓ} {B : Type κ} (f : A → B) (xs : List A) → length (map f xs) ≡ length xs
length-map f [] = refl
length-map f (x ∷ xs) = ap suc (length-map f xs)

-- Seen from u, the edges to v are the directed edges from u to v and those from v to u.
pub target_count-out_edges :
    (u v : ℕ) (g : AdjList)
    → IsValid g
    → target_count v (undirected_out_edges u g) ≡ pair_count u v g + pair_count v u g
unfolding undirected_out_edges out_edges in_edges
target_count-out_edges u v g w = omega (
  arith,
  target_count-append v (map (make_undirected_edge false) (out_edges u g))
      (map (make_undirected_edge true) (in_edges u g)),
  target_count-out v u (row g.out_edges u),
  target_count-in v u (row g.in_edges u),
  vertex_times-eq u v (row g.out_edges v) (row g.in_edges u) (w.mirror v u),
)

-- How often a list has the edge e, seen from its target or not.
abbrev pub listings : Edge → Bool → List EdgeDescriptor → ℕ
listings e inverted [] = 0
listings e inverted (d ∷ ds) =
    (if (d.inverted && inverted) || not (d.inverted || inverted) then same_edge d.original e else 0)
    + listings e inverted ds

listings-append :
    (e : Edge) (inverted : Bool) (ds fs : List EdgeDescriptor)
    → listings e inverted (ds ++ fs) ≡ listings e inverted ds + listings e inverted fs
listings-append e inverted [] fs = omega arith
listings-append e inverted (d ∷ ds) fs = omega (arith, listings-append e inverted ds fs)

listings-out :
    (e : Edge) (u : ℕ) (es : EdgeList)
    → (listings e false (map (make_undirected_edge false) (map (make_out_edge u) es))
        ≡ (if u == e.source then times e.target e.idx es else 0))
      × (listings e true (map (make_undirected_edge false) (map (make_out_edge u) es)) ≡ 0)
unfolding make_undirected_edge make_out_edge times
listings-out e u [] = (ground arith, refl)
listings-out e u ((t, i) ∷ es) =
    let (own, other) = listings-out e u es in (ground (arith, own), ground (arith, other))

listings-in :
    (e : Edge) (u : ℕ) (es : EdgeList)
    → (listings e true (map (make_undirected_edge true) (map (make_in_edge u) es))
        ≡ (if u == e.target then times e.source e.idx es else 0))
      × (listings e false (map (make_undirected_edge true) (map (make_in_edge u) es)) ≡ 0)
unfolding make_undirected_edge make_in_edge times
listings-in e u [] = (ground arith, refl)
listings-in e u ((s, i) ∷ es) =
    let (own, other) = listings-in e u es in (ground (arith, own), ground (arith, other))

listings-out_edges :
    (u : ℕ) (g : AdjList) (e : Edge)
    → IsValid g
    → (listings e false (undirected_out_edges u g)
        ≡ (if u == e.source then multiplicity e g else 0))
      × (listings e true (undirected_out_edges u g)
          ≡ (if u == e.target then multiplicity e g else 0))
unfolding undirected_out_edges out_edges in_edges
listings-out_edges u g e w =
    let outs = map (make_undirected_edge false) (out_edges u g) in
    let ins = map (make_undirected_edge true) (in_edges u g) in
    let (out, no_out) = listings-out e u (row g.out_edges u) in
    let (into, no_into) = listings-in e u (row g.in_edges u) in
    (
      listings-append e false outs ins
          ∙ ground (arith, out, no_into, ap (λ v. times e.target e.idx (row g.out_edges v))),
      listings-append e true outs ins ∙ ground (arith, no_out, into, w.mirror e.source u e.idx),
    )

-- In a well-formed graph, the edges that the view lists at u start at u and are as many as its
-- degree; and each edge of the graph, with its index, stands among them as it is where u is its source,
-- and inverted where u is its target, each as often as the graph has it, and no other edge does.
pub undirected_view :
    (u : ℕ) (g : AdjList)
    → IsValid g
    → AllFrom u (undirected_out_edges u g)
      × (length (undirected_out_edges u g) ≡ undirected_out_degree u g)
      × ((e : Edge)
          → (listings e false (undirected_out_edges u g)
              ≡ (if u == e.source then multiplicity e g else 0))
            × (listings e true (undirected_out_edges u g)
                ≡ (if u == e.target then multiplicity e g else 0)))
unfolding undirected_out_edges out_edges in_edges undirected_out_degree out_degree in_degree
undirected_view u g w = (
  AllFrom-append u (map (make_undirected_edge false) (out_edges u g))
      (map (make_undirected_edge true) (in_edges u g)) (out_AllFrom u (row g.out_edges u))
      (in_AllFrom u (row g.in_edges u)),
  omega (
    arith,
    length-append (map (make_undirected_edge false) (out_edges u g))
        (map (make_undirected_edge true) (in_edges u g)),
    length-map (make_undirected_edge false) (out_edges u g),
    length-map (make_undirected_edge true) (in_edges u g),
    length-map (make_out_edge u) (row g.out_edges u),
    length-map (make_in_edge u) (row g.in_edges u),
  ),
  λ e. listings-out_edges u g e w,
)

-- In a well-formed graph, the view's `edge` finds an edge between u and v, seen from u, exactly
-- where the graph has one in either direction.
pub undirected_edge_lem :
    (u v : ℕ) (g : AdjList)
    → IsValid g
    → ((undirected_edge u v g ≡ none) × (target_count v (undirected_out_edges u g) ≡ 0))
      ⊎ ((e : EdgeDescriptor) × (undirected_edge u v g ≡ some e)
          × (source e ≡ u)
          × (target e ≡ v)
          × (0 < multiplicity e.original g))
unfolding undirected_edge source target
undirected_edge_lem u v g w = elim (edge_lem u v g) [
  | inr (e, found, s, t, has) ↦
      inr (record { original = e; inverted = false }, rw (found, undirected_edge), s, t, has)
  | inl (missed, none_out) ↦ elim (edge_lem v u g) [
    | inr (e, found, s, t, has) ↦
        inr
          (record { original = e; inverted = true }, rw (missed, found, undirected_edge), t, s, has)
    | inl (missed', none_in) ↦ inl (
      rw (missed, missed', undirected_edge),
      omega (
        arith,
        target_count-out_edges u v g w,
        vertex_times-eq-zero v (row g.out_edges u)
            (λ i. none_out (record { source = u; target = v; idx = i }) refl refl),
        vertex_times-eq-zero u (row g.out_edges v)
            (λ i. none_in (record { source = v; target = u; idx = i }) refl refl),
      ),
    )
  ]
]
