-- ===== src/Base/Int.antt =====
-- Integers over the native numbers, under the library's names.
use Prim.Native.Nat.{ℕ, ◌-◌, ◌/◌}
use hios.Base.Tests.{leb, if◌then◌else◌}

pub data ℤ : Type 0 where
  pos : ℕ → ℤ
  negsuc : ℕ → ℤ

-- `-n`
abbrev pub negate : ℕ → ℤ
negate n = if leb 1 n then negsuc (n - 1) else pos 0

-- `(a - b) / c` in C, which rounds towards 0.
unfoldable pub diff_div : ℕ → ℕ → ℕ → ℤ
diff_div a b c = if leb b a then pos ((a - b) / c) else negate ((b - a) / c)
