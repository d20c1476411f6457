-- ===== src/Prelude/Words.antt =====
-- The unsigned 32-bit word of C, `uint32_t` and `size_t`, over the native numbers.
use Prim.Native.Nat.{ℕ, ◌+◌, ◌-◌, ◌*◌, ◌/◌, ◌%◌, ◌^◌}

abbrev pub u32_mod : ℕ
u32_mod = 2 ^ 32

-- What C computes for `a + b`, `a - b` and `a * b` on `uint32_t`.
abbrev pub add32 : ℕ → ℕ → ℕ
add32 a b = (a + b) % u32_mod

abbrev pub sub32 : ℕ → ℕ → ℕ
sub32 a b = (a + u32_mod - b) % u32_mod

abbrev pub mul32 : ℕ → ℕ → ℕ
mul32 a b = (a * b) % u32_mod

-- `x & ~(2 ^ k - 1)`: the `k` low bits cleared.
abbrev pub align_down : ℕ → ℕ → ℕ
align_down x k = x / 2 ^ k * 2 ^ k
