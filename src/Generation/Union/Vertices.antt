-- ===== src/Generation/Union/Vertices.antt =====
-- The loop over the vertices of src/graph/generation/graph_union.hh.
use graph_tool.AdjList.{null_vertex, num_vertices}
use graph_tool.AdjList.Adding.{add_vertex-IsValid}
use graph_tool.AdjList.Building.{add_vertices}
use graph_tool.AdjList.Rows.{same}
use graph_tool.AdjList.Valid.{IsValid}
use graph_tool.Common.{
  Bool, Bool-cases, ap, arith, false, if◌then◌else◌, inl, inr, leb, ltb, not, refl, store, subst,
  suc, sym, true, zero, ℕ, ◌%◌, ◌&&◌, ◌+◌, ◌-◌, ◌<◌, ◌==◌, ◌^◌, ◌∙◌, ◌≡◌, ◌≤◌,
}
use graph_tool.Generation.Union.{UnionState, map_new, map_vertex, map_vertices, to_int32}
use graph_tool.GraphInterface.Kept.{below}
use graph_tool.Matching.{vertices}
use native.Mathlib.Decide.{ℕ_discrete}

module _ (n : ℕ) (first : ℕ → ℕ) where
  -- Whether the vertex v, of n, stands for one of the union.
  abbrev pub stands : ℕ → Bool
  stands v = ltb 0 (first v) && leb (first v) n

  -- How many of m vertices from v on are new.
  abbrev pub new_vertices : ℕ → ℕ → ℕ
  new_vertices zero v = 0
  new_vertices (suc m) v = (if stands v then 0 else 1) + new_vertices m (suc v)

  -- What the loop over m vertices from v on leaves.
  pub record Placed (m v : ℕ) (s t : UnionState) : Type 0 where
    pub graph : t.ug ≡ add_vertices (new_vertices m v) s.ug
    pub edges : t.emap ≡ s.emap
    pub others : (u : ℕ) → (leb v u && ltb u (v + m)) ≡ false → t.vmap u ≡ s.vmap u
    pub kept : (u : ℕ) → (leb v u && ltb u (v + m) && stands u) ≡ true → t.vmap u ≡ first u - 1
    pub exact :
        (u : ℕ)
        → (leb v u && ltb u (v + m) && not (stands u)) ≡ true
        → t.vmap u ≡ num_vertices s.ug + new_vertices (u - v) v
    pub fresh :
        (u : ℕ)
        → (leb v u && ltb u (v + m) && not (stands u)) ≡ true
        → (num_vertices s.ug ≤ t.vmap u) × (t.vmap u < num_vertices s.ug + new_vertices m v)

  new_vertices-kept :
      (v u : ℕ)
      → stands v ≡ true
      → v < u
      → new_vertices (u - v) v ≡ new_vertices (u - suc v) (suc v)
  new_vertices-kept v u in_n h =
      let size : u - v ≡ suc (u - suc v) = omega (arith, h) in
      ap (λ k. new_vertices k v) size ∙ ground (arith, in_n)

  new_vertices-new :
      (v u : ℕ)
      → stands v ≡ false
      → v < u
      → new_vertices (u - v) v ≡ suc (new_vertices (u - suc v) (suc v))
  new_vertices-new v u out h =
      let size : u - v ≡ suc (u - suc v) = omega (arith, h) in
      ap (λ k. new_vertices k v) size ∙ ground (arith, out)

  Placed-kept :
      (m v : ℕ) (s t : UnionState)
      → stands v ≡ true
      → Placed m (suc v) (record s { vmap = store v (first v - 1) s.vmap }) t
      → Placed (suc m) v s t
  unfolding store
  Placed-kept m v s t in_n p =
      let none_new : new_vertices (suc m) v ≡ new_vertices m (suc v) = ground (arith, in_n) in
      record {
        graph = p.graph ∙ ap (λ k. add_vertices k s.ug) (sym none_new);
        edges = p.edges;
        others = λ u h. p.others u (ground (arith, h)) ∙ ground (arith, h);
        kept = λ u h. elim (ℕ_discrete v u) [
          | yes e ↦ p.others u (ground (arith, e)) ∙ ground (arith, e, ap first e)
          | no ne ↦ p.kept u (ground (arith, h, ne))
        ];
        exact = λ u h. elim (ℕ_discrete v u) [
          | yes e ↦ absurd (ground (arith, h, in_n, e, ap first e))
          | no ne ↦
              p.exact u (ground (arith, h, ne))
              ∙ ap (λ k. num_vertices s.ug + k)
                  (sym (new_vertices-kept v u in_n (ground (arith, h, ne))))
        ];
        fresh = λ u h. elim (ℕ_discrete v u) [
          | yes e ↦ absurd (ground (arith, h, in_n, e, ap first e))
          | no ne ↦
              let (low, high) = p.fresh u (ground (arith, h, ne)) in
              (low, omega (arith, high, none_new))
        ];
      }

  Placed-new :
      (m v : ℕ) (s t : UnionState)
      → IsValid s.ug
      → num_vertices s.ug < 2 ^ 31
      → stands v ≡ false
      → Placed m (suc v) (map_new v s) t
      → Placed (suc m) v s t
  unfolding map_new store to_int32
  Placed-new m v s t valid few out p =
      let (_, number, vertices, _) = add_vertex-IsValid s.ug valid in
      let same_place : (u : ℕ) → v ≡ u → u - v ≡ 0 = λ u e. omega (arith, e) in
      let one_new : new_vertices (suc m) v ≡ suc (new_vertices m (suc v)) = ground (arith, out) in
      record {
        graph = p.graph ∙ ap (λ k. add_vertices k s.ug) (sym one_new);
        edges = p.edges;
        others = λ u h. p.others u (ground (arith, h)) ∙ ground (arith, h);
        kept = λ u h. elim (ℕ_discrete v u) [
          | yes e ↦ absurd (ground (arith, h, out, e, ap first e))
          | no ne ↦ p.kept u (ground (arith, h, ne))
        ];
        exact = λ u h. elim (ℕ_discrete v u) [
          | yes e ↦
              p.others u (ground (arith, e))
              ∙ ground (arith, e, number, few, ap (λ k. new_vertices k v) (same_place u e))
          | no ne ↦
              p.exact u (ground (arith, h, ne))
              ∙ omega (arith, vertices, new_vertices-new v u out (ground (arith, h, ne)))
        ];
        fresh = λ u h. elim (ℕ_discrete v u) [
          | yes e ↦
              let placed : t.vmap u ≡ num_vertices s.ug =
                p.others u (ground (arith, e)) ∙ ground (arith, e, number, few) in
              (omega (arith, placed), omega (arith, placed, one_new))
          | no ne ↦
              let (low, high) = p.fresh u (ground (arith, h, ne)) in
              (omega (arith, low, vertices), omega (arith, high, vertices, one_new))
        ];
      }

  module _ (few : n < 2 ^ 31) where
    map_vertex-stands :
        (v : ℕ) (s : UnionState)
        → s.vmap v ≡ first v
        → map_vertex n v s
          ≡ (if stands v then record s { vmap = store v (first v - 1) s.vmap } else map_new v s)
    unfolding map_vertex to_int32
    map_vertex-stands v s same = rw same (elim (Bool-cases (first v == 0)) [
      | inl unset ↦ let out : stands v ≡ false = ground (arith, unset) in rw (unset, out) refl
      | inr set_there ↦ elim (Bool-cases (leb n (first v - 1))) [
        | inl beyond ↦
            let out : stands v ≡ false = ground (arith, set_there, beyond) in
            rw (set_there, out)
              (elim (Bool-cases (first v - 1 == null_vertex)) [
                | inl null ↦ rw null refl
                | inr real ↦ rw (real, beyond) refl
              ])
        | inr below ↦
            let in_n : stands v ≡ true = ground (arith, set_there, below) in
            let small : (first v - 1) % 2 ^ 32 ≡ first v - 1 = ground (arith, below, few) in
            let real : (first v - 1 == null_vertex) ≡ false =
              ground (arith, set_there, below, few) in
            rw (set_there, real, below, in_n) (ap (λ w. record s { vmap = store v w s.vmap }) small)
      ]
    ])

    pub map_vertices-Placed :
        (m v : ℕ) (s : UnionState)
        → IsValid s.ug
        → num_vertices s.ug + m < 2 ^ 31
        → ((u : ℕ) → v ≤ u → s.vmap u ≡ first u)
        → Placed m v s (map_vertices n m v s)
    unfolding map_vertices
    map_vertices-Placed zero v s valid fits same = record {
      graph = refl;
      edges = refl;
      others = λ u h. refl;
      kept = λ u h. absurd (ground (arith, h));
      exact = λ u h. absurd (ground (arith, h));
      fresh = λ u h. absurd (ground (arith, h));
    }
    map_vertices-Placed (suc m) v s valid fits same =
        let step = map_vertex-stands v s (same v (omega arith)) in
        elim (Bool-cases (stands v)) [
          | inl in_n ↦
              let t : UnionState = record s { vmap = store v (first v - 1) s.vmap } in
              subst (λ x. Placed (suc m) v s (map_vertices n m (suc v) x))
                (sym (step ∙ rw in_n refl))
                (Placed-kept m v s (map_vertices n m (suc v) t) in_n (
                  map_vertices-Placed m (suc v) t valid (omega (arith, fits))
                    (λ u h. vmap-store v u (first v - 1) s.vmap h ∙ same u (omega (arith, h)))))
          | inr out ↦
              subst (λ x. Placed (suc m) v s (map_vertices n m (suc v) x))
                (sym (step ∙ rw out refl))
                (Placed-new m v s (map_vertices n m (suc v) (map_new v s)) valid
                  (omega (arith, fits)) out
                  (map_vertices-Placed m (suc v) (map_new v s) (map_new-IsValid v s valid)
                    (omega (arith, fits, map_new-vertices v s valid))
                    (λ u h. map_new-vmap v u s h ∙ same u (omega (arith, h)))))
        ]
      where
        vmap-store : (v u x : ℕ) (vmap : ℕ → ℕ) → suc v ≤ u → store v x vmap u ≡ vmap u
        vmap-store v u x vmap h = unfold store in ground (arith, h)

        map_new-IsValid : (v : ℕ) (s : UnionState) → IsValid s.ug → IsValid (map_new v s).ug
        map_new-IsValid v s valid = unfold map_new in (add_vertex-IsValid s.ug valid).0

        map_new-vertices :
            (v : ℕ) (s : UnionState)
            → IsValid s.ug
            → num_vertices (map_new v s).ug ≡ num_vertices s.ug + 1
        map_new-vertices v s valid =
            let (_, number, vertices, _) = add_vertex-IsValid s.ug valid in
            unfold map_new in omega (arith, vertices)

        map_new-vmap : (v u : ℕ) (s : UnionState) → suc v ≤ u → (map_new v s).vmap u ≡ s.vmap u
        map_new-vmap v u s h = unfold map_new store in ground (arith, h)
