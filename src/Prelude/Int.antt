-- ===== src/Prelude/Int.antt =====
-- Python's integers over the native numbers, under the library's name.
use Prim.Native.Nat.{ℕ}
use codeng.Prelude.Tests.{ltb, if◌then◌else◌}

-- `negsuc n` is -(n + 1)
pub data ℤ : Type 0 where
  pos : ℕ → ℤ
  negsuc : ℕ → ℤ

-- `min(max(i, 0), top)`, written as two tests in the code
abbrev pub clamp : ℤ → ℕ → ℕ
clamp (negsuc n) top = 0
clamp (pos n) top = if ltb top n then top else n
