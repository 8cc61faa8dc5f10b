-- ===== src/Common/Words.antt =====
-- `size_t`, 64 bits wide, with its wrap-around.
use Prim.Native.Nat.{zero, suc, ℕ, ◌+◌, ◌-◌, ◌%◌, ◌^◌, ◌<◌, ◌≤◌}
use graph_tool.Common.Tests.{if◌then◌else◌, leb}
use mathlib.Core.Path.{◌≡◌}
use mathlib.Core.Logic.{◌≢◌}
use native.Mathlib.Omega.{arith}

abbrev pub size_mod : ℕ
size_mod = 2 ^ 64

-- a + b
unfoldable pub size_add : ℕ → ℕ → ℕ
size_add a b = (a + b) % size_mod

-- a - b, for b at most `size_mod`
unfoldable pub size_sub : ℕ → ℕ → ℕ
size_sub a b = (a + size_mod - b) % size_mod

pub size_add_lem : (a b : ℕ) → a + b < size_mod → size_add a b ≡ a + b
unfolding size_add
size_add_lem a b h = omega arith

pub size_sub_lem : (a b : ℕ) → b ≤ a → a < size_mod → size_sub a b ≡ a - b
unfolding size_sub
size_sub_lem a b h k = omega arith

-- Below the subtrahend the difference wraps round.
pub size_sub_wraps : (a b : ℕ) → a < b → b < size_mod → size_sub a b ≡ a + size_mod - b
unfolding size_sub
size_sub_wraps a b h k = omega arith

-- A decrement is never without effect.
pub size_sub-one_ne : (a : ℕ) → a < size_mod → size_sub a 1 ≢ a
unfolding size_sub
size_sub-one_ne a h e = omega arith

-- `int N = n;` and a loop from 0 while `i < N`: the number of its rounds.
unfoldable pub int_rounds : ℕ → ℕ
int_rounds n = let r = n % 2 ^ 32 in if leb (2 ^ 31) r then 0 else r

pub int_rounds_lem : (n : ℕ) → n < 2 ^ 31 → int_rounds n ≡ n
unfolding int_rounds
int_rounds_lem n h = ground (arith, h)

-- `for (int i = n - 1; i >= 0; --i)`: the number of its rounds.
unfoldable pub int_rounds_down : ℕ → ℕ
int_rounds_down n =
    let first = (n + (2 ^ 32 - 1)) % 2 ^ 32 in if leb (2 ^ 31) first then 0 else first + 1

pub int_rounds_down_lem : (n : ℕ) → n < 2 ^ 31 → int_rounds_down n ≡ n
unfolding int_rounds_down
int_rounds_down_lem zero h = ground arith
int_rounds_down_lem (suc n) h = ground (arith, h)
