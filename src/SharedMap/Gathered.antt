-- ===== src/SharedMap/Gathered.antt =====
-- What `Gather` of src/graph/shared_map.hh leaves in the shared map or container, whatever the order
-- in which the threads add their entries.
use graph_tool.Common.{
  List, [], arith, count, count-append, if◌then◌else◌, refl, size_add, size_mod, sum_by, ℕ, ◌%◌,
  ◌+◌, ◌<◌, ◌==◌, ◌∙◌, ◌∷◌, ◌≡◌,
}
use graph_tool.SharedMap.{Copy, add_entry, push_back, run}
use graph_tool.SharedMap.Interleaving.{IsFair, due, run-Lacks}
use native.Mathlib.Decide.{ℕ_discrete}

-- The value that an entry adds under a key.
abbrev pub value_at : ℕ → ℕ × ℕ → ℕ
value_at k (key, value) = if k == key then value else 0

size_add-shift : (x v d : ℕ) → (size_add x v + d) % size_mod ≡ (x + (v + d)) % size_mod
unfolding size_add
size_add-shift x v d = omega arith

size_add_lt : (x v : ℕ) → size_add x v < size_mod
unfolding size_add
size_add_lt x v = omega arith

add_entry-step :
    (a : ℕ × ℕ) (f : ℕ → ℕ) (k d : ℕ)
    → f k < size_mod
    → (add_entry a f k < size_mod)
      × ((add_entry a f k + d) % size_mod ≡ (f k + (value_at k a + d)) % size_mod)
unfolding add_entry
add_entry-step (key, v) f k d h = elim (ℕ_discrete k key) [
  | yes e ↦ (ground (arith, e, size_add_lt (f k) v), ground (arith, e, size_add-shift (f k) v d))
  | no ne ↦ (ground (arith, ne, h), ground (arith, ne))
]

-- Where each thread takes as many steps as it needs and a key's value is below 2 ^ 64, the value
-- ends as it was and all that the copies have still to add under the key, modulo 2 ^ 64: a copy
-- counts once, however often its `Gather` is called, and in whatever order the threads run.
pub run-add_entry :
    (schedule : List ℕ) (cs : List (Copy (ℕ × ℕ))) (sum : ℕ → ℕ) (k : ℕ)
    → IsFair cs schedule 0
    → sum k < size_mod
    → run add_entry schedule cs sum k ≡ (sum k + sum_by (due (value_at k)) cs) % size_mod
run-add_entry schedule cs sum k fair h =
    let total = (sum k + sum_by (due (value_at k)) cs) % size_mod in
    let end =
      run-Lacks add_entry (value_at k) (λ f d. (f k < size_mod) × ((f k + d) % size_mod ≡ total))
        (λ a f d held.
          (let (bound, sum') = add_entry-step a f k d held.0 in (bound, sum' ∙ held.1)))
        schedule cs sum fair (h, refl) in
    omega (arith, end.0, end.1)

-- Where each thread takes as many steps as it needs, the shared container ends with each value as
-- often as before and as often as the copies have still to add it, in whatever order the threads
-- run.
pub run-push_back :
    (schedule : List ℕ) (cs : List (Copy ℕ)) (cont : List ℕ) (a : ℕ)
    → IsFair cs schedule 0
    → count a (run push_back schedule cs cont)
      ≡ count a cont + sum_by (due (λ x. if a == x then 1 else 0)) cs
unfolding push_back
run-push_back schedule cs cont a fair =
    let end =
      run-Lacks push_back (λ x. if a == x then 1 else 0)
        (λ xs d. count a xs + d ≡ count a cont + sum_by (due (λ x. if a == x then 1 else 0)) cs)
        (λ x xs d held. omega (arith, held, count-append a xs (x ∷ []))) schedule cs cont fair
        refl in
    omega (arith, end)
