-- ===== src/Rewiring/Loops.antt =====
-- The loops of `graph_rewire` in src/graph/generation/graph_rewiring.hh: what every move keeps, the
-- sweeps keep.
use graph_tool.Common.{
  Bool, List, [], ap, arith, false, get_or, length, refl, set, suc, true, zero, ℕ, ◌+◌, ◌<◌, ◌∷◌,
  ◌≡◌, ◌≤◌,
}
use graph_tool.Matching.{iter_swap}
use graph_tool.Rewiring.{Rewired}
use graph_tool.Rewiring.GraphRewire.{Move, Progress, attempt, edge_pos, sweep, sweeps}
use graph_tool.Rewiring.Pair.{first}

abbrev pub AllBelow : ℕ → List ℕ → Type 0
AllBelow n [] = Unit {0}
AllBelow n (x ∷ xs) = (x < n) × AllBelow n xs

get_or-AllBelow : (n : ℕ) (xs : List ℕ) (i d : ℕ) → AllBelow n xs → d < n → get_or xs i d < n
get_or-AllBelow n [] i d all h = h
get_or-AllBelow n (x ∷ xs) zero d all h = all.0
get_or-AllBelow n (x ∷ xs) (suc i) d all h = get_or-AllBelow n xs i d all.1 h

set-AllBelow : (n : ℕ) (xs : List ℕ) (i x : ℕ) → AllBelow n xs → x < n → AllBelow n (set xs i x)
set-AllBelow n [] i x all h = tt
set-AllBelow n (y ∷ xs) zero x all h = (h, all.1)
set-AllBelow n (y ∷ xs) (suc i) x all h = (all.0, set-AllBelow n xs i x all.1 h)

iter_swap-AllBelow :
    (n j x : ℕ) (xs : List ℕ)
    → AllBelow n (x ∷ xs)
    → ((iter_swap j x xs).0 < n) × AllBelow n (iter_swap j x xs).1
unfolding iter_swap
iter_swap-AllBelow n zero x xs all = all
iter_swap-AllBelow n (suc j) x xs all =
    (get_or-AllBelow n xs j x all.1 all.0, set-AllBelow n xs j x all.1 all.0)

pub edge_pos-AllBelow : (i n m : ℕ) → i + n ≤ m → AllBelow m (edge_pos i n)
unfolding edge_pos
edge_pos-AllBelow i zero m h = tt
edge_pos-AllBelow i (suc n) m h = (omega arith, edge_pos-AllBelow (suc i) n m (omega arith))

length-edge_pos : (i n : ℕ) → length (edge_pos i n) ≡ n
unfolding edge_pos
length-edge_pos i zero = refl
length-edge_pos i (suc n) = ap suc (length-edge_pos (suc i) n)

module _ (Inv : Rewired → Type 0) (limit : ℕ) (moves : ℕ → ℕ → Move)
    (keeps : (i n ei : ℕ) (r : Rewired) → Inv r → ei < limit → Inv (moves i n ei r).0) where
  sweep-keeps :
      (draw : ℕ → ℕ) (i : ℕ) (no_sweep : Bool) (n : ℕ) (xs : List ℕ) (p : Progress)
      → AllBelow limit xs
      → Inv p.rewired
      → AllBelow limit (sweep draw (moves i) no_sweep n xs p).0
        × Inv (sweep draw (moves i) no_sweep n xs p).1.rewired
  unfolding sweep attempt
  sweep-keeps draw i no_sweep zero xs p all inv = (all, inv)
  sweep-keeps draw i no_sweep (suc n) [] p all inv = (all, inv)
  sweep-keeps draw i true (suc n) (x ∷ xs) p all inv =
      let (first, others) = iter_swap-AllBelow limit (draw n) x xs all in
      ((first, others), keeps i n (iter_swap (draw n) x xs).0 p.rewired inv first)
  sweep-keeps draw i false (suc n) (x ∷ xs) p all inv =
      let (first, others) = iter_swap-AllBelow limit (draw n) x xs all in
      let (all', inv') =
        sweep-keeps draw i false n (iter_swap (draw n) x xs).1
          (attempt (moves i n) (iter_swap (draw n) x xs).0 p) others
          (keeps i n (iter_swap (draw n) x xs).0 p.rewired inv first) in
      ((first, all'), inv')

  pub sweeps-keeps :
      (draw : ℕ → ℕ → ℕ) (no_sweep : Bool) (i niter : ℕ) (xs : List ℕ) (p : Progress)
      → AllBelow limit xs
      → Inv p.rewired
      → Inv (sweeps draw moves no_sweep i niter xs p).rewired
  unfolding sweeps
  sweeps-keeps draw no_sweep i zero xs p all inv = inv
  sweeps-keeps draw no_sweep i (suc niter) xs p all inv =
      let (all', inv') = sweep-keeps (draw i) i no_sweep (length xs) xs p all inv in
      sweeps-keeps draw no_sweep (suc i) niter
        (sweep (draw i) (moves i) no_sweep (length xs) xs p).0
        (sweep (draw i) (moves i) no_sweep (length xs) xs p).1 all' inv'
