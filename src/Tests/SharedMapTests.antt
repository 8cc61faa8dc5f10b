-- ===== src/Tests/SharedMapTests.antt =====
-- src/graph/shared_map.hh with two threads.
use graph_tool.Common.{
  List, [], arith, false, map, refl, size_add, size_mod, sum_by, true, ℕ, ◌%◌, ◌+◌, ◌∷◌, ◌≡◌,
}
use graph_tool.SharedMap.{Copy, add_entry, run}
use graph_tool.SharedMap.Gathered.{run-add_entry, value_at}
use graph_tool.SharedMap.Interleaving.{due}

-- The second thread calls `Gather` twice.
abbrev two_copies : List (Copy (ℕ × ℕ))
two_copies =
    record {
      entries = (7, 2) ∷ (8, 1) ∷ [];
      pending = [];
      gathering = false;
      attached = true;
      calls = 1;
    }
    ∷ record { entries = (7, 5) ∷ []; pending = []; gathering = false; attached = true; calls = 2 }
    ∷ []

-- Both threads enter before either adds.
abbrev interleaved : List ℕ
interleaved = 0 ∷ 1 ∷ 1 ∷ 0 ∷ 1 ∷ 0 ∷ 1 ∷ 0 ∷ []

abbrev zero_map : ℕ → ℕ
zero_map k = 0

run-two_copies :
    map (run add_entry interleaved two_copies zero_map) (7 ∷ 8 ∷ 9 ∷ []) ≡ 7 ∷ 1 ∷ 0 ∷ []
unfolding run add_entry size_add
run-two_copies = refl

run-add_entry_example :
    run add_entry interleaved two_copies zero_map 7
    ≡ (zero_map 7 + sum_by (due (value_at 7)) two_copies) % size_mod
run-add_entry_example =
    run-add_entry interleaved two_copies zero_map 7 (ground arith, (ground arith, tt)) (omega arith)

abbrev two_lists : List (Copy ℕ)
two_lists =
    record { entries = 4 ∷ 5 ∷ []; pending = []; gathering = false; attached = true; calls = 1 }
    ∷ record { entries = 4 ∷ []; pending = []; gathering = false; attached = true; calls = 2 }
    ∷ []
