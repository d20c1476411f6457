-- ===== src/Libc/Mem.antt =====
-- The functions of libc/libc.c that write memory: `memcpy`, `memset`, `memcmp`, `strcpy`, `strncpy` and
-- `strcat`. The loops that end at a NUL are on fuel, the size of the address space; `none` is a string
-- that does not end in it.
pub mod Copy
pub mod Strings
mod Tests
use mai_unix.Prelude.Int.{ℤ, pos}
use mai_unix.Prelude.{
  ℕ, zero, suc, ◌+◌, ◌%◌, ◌^◌, true, false, Option, none, some, ◌==◌, if◌then◌else◌,
}
use mai_unix.Prelude.Memory.{Memory, poke}
use mai_unix.Libc.Str.{byte_diff}

-- The loops on an index, with `n` rounds left from round `i`.
unfoldable pub memcpy_loop : ℕ → ℕ → ℕ → ℕ → Memory → Memory
memcpy_loop zero i dst src m = m
memcpy_loop (suc n) i dst src m = memcpy_loop n (i + 1) dst src (poke m (dst + i) (m (src + i)))

unfoldable pub memcpy : Memory → ℕ → ℕ → ℕ → Memory
unfolding memcpy_loop
memcpy m dst src n = memcpy_loop n 0 dst src m

unfoldable pub memset_loop : ℕ → ℕ → ℕ → ℕ → Memory → Memory
memset_loop zero i dst val m = m
memset_loop (suc n) i dst val m = memset_loop n (i + 1) dst val (poke m (dst + i) (val % 256))

unfoldable pub memset : Memory → ℕ → ℕ → ℕ → Memory
unfolding memset_loop
memset m dst val n = memset_loop n 0 dst val m

unfoldable pub memcmp_loop : ℕ → ℕ → Memory → ℕ → ℕ → ℤ
memcmp_loop zero i m a b = pos 0
memcmp_loop (suc n) i m a b =
    let rest = memcmp_loop n (i + 1) m a b in
    if m (a + i) == m (b + i) then rest else byte_diff (m (a + i)) (m (b + i))

unfoldable pub memcmp : Memory → ℕ → ℕ → ℕ → ℤ
unfolding memcmp_loop
memcmp m a b n = memcmp_loop n 0 m a b

-- `while ((*d++ = *src++));`
unfoldable pub strcpy_loop : ℕ → Memory → ℕ → ℕ → Option Memory
strcpy_loop zero m d src = none
strcpy_loop (suc n) m d src = elim (m src == 0) [
  | true ↦ some (poke m d 0)
  | false ↦ strcpy_loop n (poke m d (m src)) (d + 1) (src + 1)
]

unfoldable pub strcpy : Memory → ℕ → ℕ → Option Memory
unfolding strcpy_loop
strcpy m dst src = strcpy_loop (2 ^ 32) m dst src

-- The address of the NUL, as `s + strlen(s)`.
unfoldable pub string_end : ℕ → Memory → ℕ → Option ℕ
string_end zero m p = none
string_end (suc n) m p = elim (m p == 0) [ true ↦ some p | false ↦ string_end n m (p + 1) ]

unfoldable pub strcat : Memory → ℕ → ℕ → Option Memory
unfolding string_end strcpy_loop
strcat m dst src = elim (string_end (2 ^ 32) m dst) [
  | none ↦ none
  | some d ↦ strcpy_loop (2 ^ 32) m d src
]

-- The second loop of `strncpy`, and the first.
unfoldable pub fill_loop : ℕ → ℕ → ℕ → Memory → Memory
fill_loop zero i dst m = m
fill_loop (suc n) i dst m = fill_loop n (i + 1) dst (poke m (dst + i) 0)

unfoldable pub strncpy_loop : ℕ → ℕ → ℕ → ℕ → Memory → Memory
unfolding fill_loop
strncpy_loop zero i dst src m = m
strncpy_loop (suc n) i dst src m = elim (m (src + i) == 0) [
  | true ↦ fill_loop (suc n) i dst m
  | false ↦ strncpy_loop n (i + 1) dst src (poke m (dst + i) (m (src + i)))
]

unfoldable pub strncpy : Memory → ℕ → ℕ → ℕ → Memory
unfolding strncpy_loop
strncpy m dst src n = strncpy_loop n 0 dst src m
