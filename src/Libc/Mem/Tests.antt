-- ===== src/Libc/Mem/Tests.antt =====
-- The theorems on memory at a memory that holds two short strings.
use mai_unix.Prelude.{
  ℕ, ◌+◌, ◌-◌, ◌<◌, ◌≡◌, refl, ◌⊎◌, inl, ◌&&◌, some, List, [], ◌∷◌, ◌++◌, arith, ltb, leb, ◌==◌,
  if◌then◌else◌, length,
}
use mai_unix.Prelude.Memory.{Memory}
use mai_unix.Libc.Mem.{memcpy, strcat}
use mai_unix.Libc.Mem.Copy.{memcpy_lem}
use mai_unix.Libc.Mem.Strings.{StringAt, strcat_lem}

abbrev ab : List ℕ
ab = b'a' ∷ b'b' ∷ []

abbrev just_c : List ℕ
just_c = b'c' ∷ []

-- `ab` at 100 and `c` at 200.
abbrev two_strings : Memory
two_strings q =
    if q == 100 then b'a' else (if q == 101 then b'b' else (if q == 200 then b'c' else 0))

memcpy_lem_example : memcpy two_strings 101 200 2 101 ≡ (
    if leb 101 101 && ltb 101 (101 + 2) then two_strings (200 + (101 - 101)) else two_strings 101)
memcpy_lem_example = memcpy_lem two_strings 101 200 2 101 (inl (omega arith))

first-StringAt : StringAt two_strings 100 ab
first-StringAt = (omega arith, refl, (omega arith, refl, refl))

second-StringAt : StringAt two_strings 200 just_c
second-StringAt = (omega arith, refl, refl)

strcat_lem_example :
    (m' : Memory) × (strcat two_strings 100 200 ≡ some m')
    × StringAt m' 100 (ab ++ just_c)
    × ((q : ℕ)
        → (q < 100 + length ab) ⊎ (100 + length ab + length just_c < q)
        → m' q ≡ two_strings q)
strcat_lem_example =
    strcat_lem two_strings 100 200 ab just_c first-StringAt second-StringAt (omega arith)
      (omega arith) (inl (omega arith))
