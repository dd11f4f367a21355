-- ===== src/Base/Int.antt =====
-- A C `int` result as a signed number: `negsuc n` is -(n + 1).
use jaclibc.Base.Tests.{if◌then◌else◌, leb}
use Prim.Native.Nat.{ℕ, ◌-◌}

pub data ℤ : Type 0 where
  pos : ℕ → ℤ
  negsuc : ℕ → ℤ

-- a - b, as an integer.
abbrev pub sub_ℕ : ℕ → ℕ → ℤ
sub_ℕ a b = if leb b a then pos (a - b) else negsuc (b - a - 1)
