-- ===== src/SharedMap/Interleaving.antt =====
-- The schedules of the threads of src/graph/shared_map.hh, and what they still have to add.
use graph_tool.Common.{
  Bool, List, [], arith, count, false, if◌then◌else◌, length, ltb, not, refl, subst, suc, sum_by,
  true, zero, ℕ, ◌&&◌, ◌+◌, ◌-◌, ◌<◌, ◌∷◌, ◌≡◌, ◌≤◌,
}
use graph_tool.SharedMap.{Copy, gather_step, run, step_of}

-- The weight of the entries that a copy has still to add.
abbrev pub due {ℓ} : {A : Type ℓ} → (A → ℕ) → Copy A → ℕ
due w c =
    if c.gathering
    then sum_by w c.pending
    else (if c.attached && ltb 0 c.calls then sum_by w c.entries else 0)

-- How many steps a copy takes at most until its last call of `Gather` has returned.
abbrev pub steps {ℓ} : {A : Type ℓ} → Copy A → ℕ
steps c =
    (if c.gathering then length c.pending + 1 else 0)
    + c.calls
    + (if not c.gathering && (c.attached && ltb 0 c.calls) then length c.entries + 1 else 0)

-- Each thread comes as often in the schedule as it takes steps.
abbrev pub IsFair {ℓ} : {A : Type ℓ} → List (Copy A) → List ℕ → ℕ → Type 0
IsFair [] schedule i = Unit {0}
IsFair (c ∷ cs) schedule i = (steps c ≤ count i schedule) × IsFair cs schedule (suc i)

module _ {ℓ κ μ} {A : Type ℓ} {S : Type κ} (apply : A → S → S) (w : A → ℕ) (Lacks : S → ℕ → Type μ)
    (adds : (a : A) (s : S) (d : ℕ) → Lacks s (w a + d) → Lacks (apply a s) d) where
  abbrev copy : List A → List A → Bool → Bool → ℕ → Copy A
  copy es ps gathering attached calls = record {
    entries = es;
    pending = ps;
    gathering = gathering;
    attached = attached;
    calls = calls;
  }

  copy-Lacks :
      (es ps : List A) (gathering attached : Bool) (calls : ℕ) (s : S) (d : ℕ)
      → Lacks s (due w (copy es ps gathering attached calls) + d)
      → Lacks
          (gather_step apply (copy es ps gathering attached calls) s).1
          (due w (gather_step apply (copy es ps gathering attached calls) s).0 + d)
  unfolding gather_step
  copy-Lacks es [] true attached n s d h = h
  copy-Lacks es (a ∷ ps) true attached n s d h =
      adds a s (sum_by w ps + d) (subst (Lacks s) (omega arith) h)
  copy-Lacks es ps false attached zero s d h = h
  copy-Lacks es ps false true (suc n) s d h = subst (Lacks s) (ground arith) h
  copy-Lacks es ps false false (suc n) s d h = h

  copy-steps :
      (es ps : List A) (gathering attached : Bool) (calls : ℕ) (s : S)
      → steps (gather_step apply (copy es ps gathering attached calls) s).0
        ≤ steps (copy es ps gathering attached calls) - 1
  unfolding gather_step
  copy-steps es [] true attached n s = ground arith
  copy-steps es (a ∷ ps) true attached n s = ground arith
  copy-steps es ps false attached zero s = ground arith
  copy-steps es ps false true (suc n) s = ground arith
  copy-steps es ps false false (suc n) s = ground arith

  due-of_done : (c : Copy A) → steps c ≤ 0 → due w c ≡ 0
  due-of_done c h = ground (arith, h)

  step_of-Lacks :
      (i : ℕ) (cs : List (Copy A)) (s : S) (d : ℕ)
      → Lacks s (sum_by (due w) cs + d)
      → Lacks (step_of apply i cs s).1 (sum_by (due w) (step_of apply i cs s).0 + d)
  unfolding step_of
  step_of-Lacks i [] s d h = h
  step_of-Lacks zero (c ∷ cs) s d h = subst (Lacks _) (omega arith) (
      copy-Lacks c.entries c.pending c.gathering c.attached c.calls s (sum_by (due w) cs + d)
        (subst (Lacks s) (omega arith) h))
  step_of-Lacks (suc i) (c ∷ cs) s d h =
      subst (Lacks _) (omega arith)
        (step_of-Lacks i cs s (due w c + d) (subst (Lacks s) (omega arith) h))

  IsFair-later :
      (cs : List (Copy A)) (schedule : List ℕ) (i j : ℕ)
      → i < j
      → IsFair cs (i ∷ schedule) j
      → IsFair cs schedule j
  IsFair-later [] schedule i j h fair = tt
  IsFair-later (c ∷ cs) schedule i j h fair =
      (ground (arith, fair.0, h), IsFair-later cs schedule i (suc j) (omega arith) fair.1)

  step_of-IsFair :
      (i k : ℕ) (cs : List (Copy A)) (s : S) (schedule : List ℕ)
      → IsFair cs ((k + i) ∷ schedule) k
      → IsFair (step_of apply i cs s).0 schedule k
  unfolding step_of
  step_of-IsFair i k [] s schedule fair = tt
  step_of-IsFair zero k (c ∷ cs) s schedule fair = (
    ground (arith, fair.0, copy-steps c.entries c.pending c.gathering c.attached c.calls s),
    IsFair-later cs schedule k (suc k) (omega arith)
        (subst (λ j. IsFair cs (j ∷ schedule) (suc k)) (omega arith) fair.1),
  )
  step_of-IsFair (suc i) k (c ∷ cs) s schedule fair = (
    ground (arith, fair.0),
    step_of-IsFair i (suc k) cs s schedule
        (subst (λ j. IsFair cs (j ∷ schedule) (suc k)) (omega arith) fair.1),
  )

  all_done : (cs : List (Copy A)) (k : ℕ) → IsFair cs [] k → sum_by (due w) cs ≡ 0
  all_done [] k fair = refl
  all_done (c ∷ cs) k fair = omega (arith, due-of_done c fair.0, all_done cs (suc k) fair.1)

  pub run-Lacks :
      (schedule : List ℕ) (cs : List (Copy A)) (s : S)
      → IsFair cs schedule 0
      → Lacks s (sum_by (due w) cs)
      → Lacks (run apply schedule cs s) 0
  unfolding run
  run-Lacks [] cs s fair h = subst (Lacks s) (all_done cs 0 fair) h
  run-Lacks (i ∷ schedule) cs s fair h =
      run-Lacks schedule (step_of apply i cs s).0 (step_of apply i cs s).1
        (step_of-IsFair i 0 cs s schedule
          (subst (λ j. IsFair cs (j ∷ schedule) 0) (omega arith) fair))
        (subst (Lacks _) (omega arith) (step_of-Lacks i cs s 0 (subst (Lacks s) (omega arith) h)))
