-- ===== src/Augment/Rounds.antt =====
-- The rounds of `augment_graph` of src/graph/flow/graph_augment.hh: which edges get a reverse edge, and
-- how many.
use graph_tool.AdjList.{AdjList, Edge, EdgeList, erase_first, out_degree, out_edges, row}
use graph_tool.AdjList.Degrees.{total_over}
use graph_tool.AdjList.Edges.{occurrences, occurrences-make_out_edge}
use graph_tool.AdjList.Linking.{same_edge}
use graph_tool.AdjList.OutEdges.{AllOf, From, out_edges-From}
use graph_tool.AdjList.Rows.{length-erase_first, times, times-erase_first}
use graph_tool.AdjList.Valid.{IsValid, multiplicity, multiplicity-le-one}
use graph_tool.Augment.{
  Augmentation, add_reverse, add_reverses, augment_rows, collect, detect, find_reverse, pair_up,
}
use graph_tool.Augment.Reverse.{Marked, add_reverse-Marked, pair_up-Marked}
use graph_tool.Common.{
  Bool, Bool-cases, List, Option-cases, [], ap, arith, inl, inr, length, refl, size_mod, some,
  subst, suc, sym, zero, ℕ, ◌&&◌, ◌+◌, ◌<◌, ◌==◌, ◌∙◌, ◌∷◌, ◌≡◌, ◌≤◌,
}
use mathlib.Core.Option.{none-ne-some, some-injective}
use native.Mathlib.Decide.{ℕ_discrete}

find_reverse-zero :
    (v : ℕ) (augmented : ℕ → ℕ) (es : List Edge) (e2 : Edge)
    → find_reverse v augmented es ≡ some e2
    → augmented e2.idx ≡ 0
unfolding find_reverse
find_reverse-zero v augmented [] e2 h = absurd (none-ne-some e2 h)
find_reverse-zero v augmented (f ∷ es) e2 h = elim (Bool-cases (augmented f.idx == 0)) [
  | inr marked ↦ find_reverse-zero v augmented es e2 (sym (ground (arith, marked)) ∙ h)
  | inl free ↦ elim (Bool-cases (f.target == v)) [
    | inr elsewhere ↦
        find_reverse-zero v augmented es e2 (sym (ground (arith, free, elsewhere)) ∙ h)
    | inl here ↦
        let same_f : f ≡ e2 = some-injective f e2 (sym (ground (arith, free, here)) ∙ h) in
        subst (λ e. augmented e.idx ≡ 0) same_f (ground (arith, free))
  ]
]

-- Edges of one list, all out of v, are no more than the entries of another list that has each as often.
pub length-le-of_occurrences :
    (v : ℕ) (edges : List Edge) (es : EdgeList)
    → AllOf (λ e. e.source ≡ v) edges
    → ((t i : ℕ) → occurrences (record { source = v; target = t; idx = i }) edges ≤ times t i es)
    → length edges ≤ length es
unfolding occurrences
length-le-of_occurrences v [] es from h = omega arith
length-le-of_occurrences v (f ∷ edges) es from h =
    let has : 0 < times f.target f.idx es = ground (arith, h f.target f.idx, from.0) in
    omega (
      arith,
      length-erase_first f.target f.idx es has,
      length-le-of_occurrences v edges (erase_first f.target f.idx es) from.1
          (λ t i. ground (arith, h t i, from.0, times-erase_first t i f.target f.idx es)),
    )

module _ (g : AdjList) (k : ℕ) where
  detect-Marked :
      (detect_reversed : Bool) (v : ℕ) (e : Edge) (a : Augmentation)
      → Marked g k a.graph a.augmented
      → Marked g k (detect detect_reversed v e a).graph (detect detect_reversed v e a).augmented
        × ((detect detect_reversed v e a).graph ≡ a.graph)
  unfolding detect
  detect-Marked detect_reversed v e a m =
      elim (Bool-cases (detect_reversed && a.augmented e.idx == 0)) [
        | inr off ↦ rw off (m, refl)
        | inl on ↦ elim (Option-cases (find_reverse v a.augmented (out_edges e.target a.graph))) [
          | inl missed ↦ rw (on, missed) (m, refl)
          | inr (e2, found) ↦
              rw (on, found)
                (
                  pair_up-Marked g k a m e e2 (ground (arith, on))
                      (find_reverse-zero v a.augmented (out_edges e.target a.graph) e2 found),
                  unfold pair_up in refl,
                )
        ]
      ]

  -- What the loop over the edges of one vertex leaves: the edges to reverse are in g.
  record Collected (v : ℕ) (es : List Edge) (a : Augmentation) (list : List Edge) (b : Augmentation)
      : Type 0 where
    same : b.graph ≡ a.graph
    marked : Marked g k b.graph b.augmented
    from : AllOf (From g v) list
    fewer : (f : Edge) → occurrences f list ≤ occurrences f es

  collect-Collected :
      (detect_reversed : Bool) (v : ℕ) (es : List Edge) (a : Augmentation)
      → Marked g k a.graph a.augmented
      → AllOf (From a.graph v) es
      → Collected v es a (collect detect_reversed v es a).0 (collect detect_reversed v es a).1
  unfolding collect occurrences
  collect-Collected detect_reversed v [] a m all = record {
    same = refl;
    marked = m;
    from = tt;
    fewer = λ f. omega arith;
  }
  collect-Collected detect_reversed v (e ∷ es) a m all =
      let b = detect detect_reversed v e a in
      let (mb, same_b) = detect-Marked detect_reversed v e a m in
      let c =
        collect-Collected detect_reversed v es b mb
          (subst (λ h. AllOf (From h v) es) (sym same_b) all.1) in
      let in_b : 0 < multiplicity e b.graph = omega (arith, all.0.1, ap (multiplicity e) same_b) in
      elim (Bool-cases (b.augmented e.idx == 0)) [
        | inl free ↦ record {
          same = c.same ∙ same_b;
          marked = c.marked;
          from = rw free ((all.0.0, ground (arith, free, mb.unmarked e, in_b)), c.from);
          fewer = λ f. ground (arith, free, c.fewer f);
        }
        | inr busy ↦ record {
          same = c.same ∙ same_b;
          marked = c.marked;
          from = rw busy c.from;
          fewer = λ f. ground (arith, busy, c.fewer f);
        }
      ]

pub Marked-more :
    (g : AdjList) (k l : ℕ) (h : AdjList) (augmented : ℕ → ℕ)
    → Marked g k h augmented
    → k ≤ l
    → Marked g l h augmented
Marked-more g k l h augmented m le = record {
  valid = m.valid;
  vertices = m.vertices;
  unmarked = m.unmarked;
  last = omega (arith, m.last, le);
  number = omega (arith, m.number, le);
}

total_over-le : (f : ℕ → ℕ) (m n k : ℕ) → m + n ≡ k → total_over n f ≤ total_over k f
total_over-le f zero n k e =
    let same : n ≡ k = omega (arith, e) in omega (arith, ap (λ i. total_over i f) same)
total_over-le f (suc m) n zero e = absurd (omega (arith, e))
total_over-le f (suc m) n (suc k) e = omega (arith, total_over-le f m n k (omega (arith, e)))

occurs-From :
    (g : AdjList) (v : ℕ) (e : Edge) (es : List Edge)
    → AllOf (From g v) es
    → 0 < occurrences e es
    → 0 < multiplicity e g
unfolding occurrences
occurs-From g v e [] all h = absurd (omega (arith, h))
occurs-From g v e (f ∷ es) all h = elim (ℕ_discrete (same_edge f e) 0) [
  | yes differ ↦ occurs-From g v e es all.1 (omega (arith, h, differ))
  | no same ↦ ground (arith, same, all.0.1)
]

module _ (g : AdjList) (valid : IsValid g) where
  add_reverses-Marked :
      (es : List Edge) (k : ℕ) (v : ℕ) (a : Augmentation)
      → Marked g k a.graph a.augmented
      → AllOf (From g v) es
      → g.last_idx + k + length es < size_mod
      → g.n_edges + k + length es < size_mod
      → Marked g (k + length es) (add_reverses es a).graph (add_reverses es a).augmented
  unfolding add_reverses
  add_reverses-Marked [] k v a m all room_idx room =
      Marked-more g k (k + 0) a.graph a.augmented m (omega arith)
  add_reverses-Marked (e ∷ es) k v a m all room_idx room =
      let step =
        add_reverse-Marked g k a m e all.0.1 (omega (arith, room_idx)) (omega (arith, room))
          valid in
      let rest =
        add_reverses-Marked es (suc k) v (add_reverse e a) step all.1 (omega (arith, room_idx))
          (omega (arith, room)) in
      Marked-more g (suc k + length es) (k + suc (length es))
        (add_reverses es (add_reverse e a)).graph (add_reverses es (add_reverse e a)).augmented rest
        (omega arith)

  -- No more edges are collected at v than g has out of v.
  collected_length :
      (k v : ℕ) (h : AdjList) (augmented : ℕ → ℕ) (list : List Edge)
      → Marked g k h augmented
      → AllOf (From g v) list
      → ((f : Edge) → occurrences f list ≤ occurrences f (out_edges v h))
      → length list ≤ out_degree v g
  unfolding out_degree out_edges
  collected_length k v h augmented list m from fewer =
      length-le-of_occurrences v list (row g.out_edges v) (AllOf-source list from)
        (λ t i. fewer_times (record { source = v; target = t; idx = i }) refl)
    where
      AllOf-source : (es : List Edge) → AllOf (From g v) es → AllOf (λ e. e.source ≡ v) es
      AllOf-source [] all = tt
      AllOf-source (e ∷ es) all = (all.0.0, AllOf-source es all.1)

      fewer_times :
          (e : Edge) → e.source ≡ v → occurrences e list ≤ times e.target e.idx (row g.out_edges v)
      fewer_times e at_v = elim (ℕ_discrete (occurrences e list) 0) [
        | yes none_there ↦ omega (arith, none_there)
        | no there ↦
            let in_g : 0 < multiplicity e g = occurs-From g v e list from (omega (arith, there)) in
            rw (sym at_v) (
              ground (
                arith,
                in_g,
                fewer e,
                at_v,
                occurrences-make_out_edge e v (row h.out_edges v),
                multiplicity-le-one m.valid e,
              ))
      ]

  pub augment_rows-Marked :
      (detect_reversed : Bool) (m v n : ℕ) (a : Augmentation)
      → m + v ≡ n
      → Marked g (total_over v (λ u. out_degree u g)) a.graph a.augmented
      → g.last_idx + total_over n (λ u. out_degree u g) < size_mod
      → g.n_edges + total_over n (λ u. out_degree u g) < size_mod
      → Marked g
          (total_over n (λ u. out_degree u g))
          (augment_rows detect_reversed m v a).graph
          (augment_rows detect_reversed m v a).augmented
  unfolding augment_rows
  augment_rows-Marked detect_reversed zero v n a end marked room_idx room =
      Marked-more g (total_over v (λ u. out_degree u g)) (total_over n (λ u. out_degree u g))
        a.graph a.augmented marked (total_over-le (λ u. out_degree u g) zero v n end)
  augment_rows-Marked detect_reversed (suc m) v n a end marked room_idx room =
      let deg : ℕ → ℕ = λ u. out_degree u g in
      let k = total_over v deg in
      let list = (collect detect_reversed v (out_edges v a.graph) a).0 in
      let b = (collect detect_reversed v (out_edges v a.graph) a).1 in
      let c =
        collect-Collected g k detect_reversed v (out_edges v a.graph) a marked
          (out_edges-From a.graph v) in
      let short = collected_length k v a.graph a.augmented list marked c.from c.fewer in
      let grown : total_over (suc v) deg ≤ total_over n deg =
        total_over-le deg m (suc v) n (omega (arith, end)) in
      let step =
        add_reverses-Marked list k v b c.marked c.from (omega (arith, room_idx, short, grown))
          (omega (arith, room, short, grown)) in
      augment_rows-Marked detect_reversed m (suc v) n (add_reverses list b) (omega (arith, end))
        (Marked-more g (k + length list) (total_over (suc v) deg) (add_reverses list b).graph
          (add_reverses list b).augmented step (omega (arith, short)))
        room_idx room
