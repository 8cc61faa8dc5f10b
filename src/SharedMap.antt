-- ===== src/SharedMap.antt =====
-- src/graph/shared_map.hh: `SharedMap` and `SharedContainer`, the copies that threads fill on their
-- own and add to a shared map or container in `Gather`, one entry in each critical section. The
-- threads' steps come in any order.
pub mod Interleaving
pub mod Gathered
use graph_tool.Common.{
  Bool, List, [], false, if◌then◌else◌, size_add, suc, true, zero, ℕ, ◌++◌, ◌==◌, ◌∷◌,
}

-- A thread's copy: its entries; those that the loop of a running `Gather` has still to add; whether
-- `Gather` runs; whether `_sum` is set; and how many calls of `Gather` are to come, the one of the
-- destructor included.
pub record Copy {ℓ} (A : Type ℓ) : Type ℓ where
  pub entries : List A
  pub pending : List A
  pub gathering : Bool
  pub attached : Bool
  pub calls : ℕ

module _ {ℓ κ} {A : Type ℓ} {S : Type κ} (apply : A → S → S) where
  -- One step of a thread: it adds an entry, leaves the loop, or enters `Gather`.
  unfoldable pub gather_step : Copy A → S → Copy A × S
  gather_step c s = elim c.gathering [
    | true ↦ elim c.pending [
      | [] ↦ (record c { gathering = false; attached = false }, s)
      | a ∷ rest ↦ (record c { pending = rest }, apply a s)
    ]
    | false ↦ elim c.calls [
      | zero ↦ (c, s)
      | suc n ↦ (
        if c.attached
            then record c { gathering = true; pending = c.entries; calls = n }
            else record c { calls = n },
        s,
      )
    ]
  ]

  -- A step of thread i, where there is one.
  unfoldable pub step_of : ℕ → List (Copy A) → S → List (Copy A) × S
  unfolding gather_step
  step_of i [] s = ([], s)
  step_of zero (c ∷ cs) s = let (c', s') = gather_step c s in (c' ∷ cs, s')
  step_of (suc i) (c ∷ cs) s = let (cs', s') = step_of i cs s in (c ∷ cs', s')

  -- The steps of the threads in the order of a schedule: what is shared at the end.
  unfoldable pub run : List ℕ → List (Copy A) → S → S
  unfolding step_of
  run [] cs s = s
  run (i ∷ schedule) cs s = let (cs', s') = step_of i cs s in run schedule cs' s'

-- `(*_sum)[key] += value`, for values of type `size_t`; a new key begins at 0.
unfoldable pub add_entry : ℕ × ℕ → (ℕ → ℕ) → ℕ → ℕ
add_entry (key, value) sum k = if k == key then size_add (sum k) value else sum k

-- `_sum->push_back(x)`
unfoldable pub push_back : ℕ → List ℕ → List ℕ
push_back x cont = cont ++ x ∷ []
