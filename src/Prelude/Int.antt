-- ===== src/Prelude/Int.antt =====
-- Signed results over the native numbers, under the library's names: the C functions return a
-- count, or a negative error code.
use mai_unix.Prelude.Tests.{ltb, leb, if◌then◌else◌}
use Prim.Native.Nat.{ℕ, ◌-◌, ◌^◌}
use mathlib.Core.Bool.{Bool, true, false}

-- `negsuc n` is -(n + 1).
pub data ℤ : Type 0 where
  pos : ℕ → ℤ
  negsuc : ℕ → ℤ

-- `-e` for an error number.
abbrev pub neg : ℕ → ℤ
neg e = if leb e 0 then pos 0 else negsuc (e - 1)

-- `(ssize_t)` of a word: a count from 2 ^ 31 on is negative.
abbrev pub ssize : ℕ → ℤ
ssize n = if ltb n (2 ^ 31) then pos n else negsuc (2 ^ 32 - 1 - n)

abbrev pub is_neg : ℤ → Bool
is_neg (pos n) = false
is_neg (negsuc n) = true
