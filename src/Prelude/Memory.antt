-- ===== src/Prelude/Memory.antt =====
-- Memory as bytes by their addresses. A C object never runs over the end of the address space, so
-- that the addresses in it are counted without wrap-around.
use mai_unix.Prelude.Tests.{◌==◌, if◌then◌else◌}
use mai_unix.Prelude.Faults.{◌>>=◌}
use Prim.Native.Nat.{ℕ, zero, suc, ◌+◌, ◌/◌, ◌%◌}
use mathlib.Core.Bool.{true, false}
use mathlib.Core.List.{List, [], ◌∷◌}
use mathlib.Core.Option.{Option, none, some}

abbrev pub Memory : Type 0
Memory = ℕ → ℕ

-- `*p = c`
abbrev pub poke : Memory → ℕ → ℕ → Memory
poke m p c = λ q. if q == p then c else m q

-- Bytes from an address on.
unfoldable pub store_bytes : Memory → ℕ → List ℕ → Memory
store_bytes m p [] = m
store_bytes m p (c ∷ cs) = store_bytes (poke m p c) (p + 1) cs

unfoldable pub load_bytes : Memory → ℕ → ℕ → List ℕ
load_bytes m p zero = []
load_bytes m p (suc n) = m p ∷ load_bytes m (p + 1) n

-- An `int` or `uint32_t`, the low byte first.
unfoldable pub store_word : Memory → ℕ → ℕ → Memory
unfolding store_bytes
store_word m p v =
    store_bytes m p (v % 256 ∷ v / 256 % 256 ∷ v / 65536 % 256 ∷ v / 16777216 % 256 ∷ [])

-- The bytes up to a NUL, if there is one within `n` bytes.
unfoldable pub c_string : ℕ → Memory → ℕ → Option (List ℕ)
c_string zero m p = none
c_string (suc n) m p = elim (m p == 0) [
  | true ↦ some []
  | false ↦ c_string n m (p + 1) >>= λ cs. some (m p ∷ cs)
]
