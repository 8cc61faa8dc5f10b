-- ===== src/Common/Maps.antt =====
-- A property map as a function from indices.
use Prim.Native.Nat.{ℕ}
use graph_tool.Common.Tests.{◌==◌, if◌then◌else◌}

-- `map[i] = x`
unfoldable pub store {ℓ} : {A : Type ℓ} → ℕ → A → (ℕ → A) → ℕ → A
store i x map j = if i == j then x else map j
