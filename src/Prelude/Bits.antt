-- ===== src/Prelude/Bits.antt =====
-- Bit `k` of a number, and what `|`, `&`, `~` and `<<` of C do to it.
use Prim.Native.Nat.{
  ℕ, zero, suc, ◌+◌, ◌-◌, ◌*◌, ◌/◌, ◌%◌, ◌^◌, ◌≤◌, ◌<◌, min, max, bit_and, bit_or, digits, bitwise,
  bit_and-bitwise, bit_or-bitwise,
}
use mathlib.Core.Path.{◌≡◌, refl, sym, ◌∙◌, ap}
use native.Mathlib.Nat.{pow-suc, one-le-pow, pow-succ', div-div-eq-div-mul}
use native.Mathlib.Decide.{ℕ_discrete}
use native.Mathlib.Omega.{arith}
use mai_unix.Prelude.Tests.{◌==◌, if◌then◌else◌}

-- The native bit operations stand for `bitwise`, which runs on fuel: more fuel changes nothing.
module _ (rest : ℕ → ℕ) (op : ℕ → ℕ → ℕ) where
  digits_enough : (n a b : ℕ) → a ≤ n → digits rest op (suc n) a b ≡ digits rest op n a b
  digits_enough zero zero b h = refl
  digits_enough zero (suc a) b h = absurd (omega arith)
  digits_enough (suc n) zero b h = refl
  digits_enough (suc n) (suc a) b h =
      ap (λ (t : ℕ). t * 2 + op (suc a % 2) (b % 2))
        (digits_enough n (suc a / 2) (b / 2) (omega arith))

  digits_down : (n a b : ℕ) → a ≤ n → digits rest op n a b ≡ bitwise rest op a b
  digits_down zero zero b h = refl
  digits_down zero (suc a) b h = absurd (omega arith)
  digits_down (suc n) a b h = elim (ℕ_discrete a (suc n)) [
    | yes e ↦ rw e
    | no ne ↦ digits_enough n a b (omega arith) ∙ digits_down n a b (omega arith)
  ]

  -- The lowest digit first.
  low_digit :
      (b a : ℕ)
      → bitwise rest op (suc a) b ≡ op (suc a % 2) (b % 2) + 2 * bitwise rest op (suc a / 2) (b / 2)
  low_digit b a =
      let above = digits_down a (suc a / 2) (b / 2) (omega arith) in omega (arith, above)

pub bit_and-low : (b a : ℕ) → bit_and a b ≡ min (a % 2) (b % 2) + 2 * bit_and (a / 2) (b / 2)
bit_and-low b zero = omega (arith, bit_and-bitwise 0 b, bit_and-bitwise 0 (b / 2))
bit_and-low b (suc a) = rw (bit_and-bitwise, bit_and-bitwise) (low_digit (λ y. 0) min b a)

pub bit_or-low : (b a : ℕ) → bit_or a b ≡ max (a % 2) (b % 2) + 2 * bit_or (a / 2) (b / 2)
bit_or-low b zero = omega (arith, bit_or-bitwise 0 b, bit_or-bitwise 0 (b / 2))
bit_or-low b (suc a) = rw (bit_or-bitwise, bit_or-bitwise) (low_digit (λ y. y) max b a)

-- Bit `k` of `a`, as 0 or 1.
unfoldable pub bit_at : ℕ → ℕ → ℕ
bit_at a zero = a % 2
bit_at a (suc k) = bit_at (a / 2) k

pub bit_at-le : (k a : ℕ) → bit_at a k ≤ 1
unfolding bit_at
bit_at-le zero a = omega arith
bit_at-le (suc k) a = bit_at-le k (a / 2)

pub bit_at-or : (k a b : ℕ) → bit_at (bit_or a b) k ≡ max (bit_at a k) (bit_at b k)
unfolding bit_at
bit_at-or zero a b = omega (arith, bit_or-low b a)
bit_at-or (suc k) a b =
    let half : bit_or a b / 2 ≡ bit_or (a / 2) (b / 2) = omega (arith, bit_or-low b a) in
    rw half (bit_at-or k (a / 2) (b / 2))

pub bit_at-and : (k a b : ℕ) → bit_at (bit_and a b) k ≡ min (bit_at a k) (bit_at b k)
unfolding bit_at
bit_at-and zero a b = omega (arith, bit_and-low b a)
bit_at-and (suc k) a b =
    let half : bit_and a b / 2 ≡ bit_and (a / 2) (b / 2) = omega (arith, bit_and-low b a) in
    rw half (bit_at-and k (a / 2) (b / 2))

bit_at-zero : (k : ℕ) → bit_at 0 k ≡ 0
unfolding bit_at
bit_at-zero zero = refl
bit_at-zero (suc k) = bit_at-zero k

-- `1 << k` has bit `k` and no other.
pub bit_at-pow : (k j : ℕ) → bit_at (2 ^ k) j ≡ (if j == k then 1 else 0)
unfolding bit_at
bit_at-pow zero zero = refl
bit_at-pow zero (suc j) = ground (arith, bit_at-zero j)
bit_at-pow (suc k) zero = ground (arith, pow-suc 2 k)
bit_at-pow (suc k) (suc j) =
    let half : 2 ^ suc k / 2 ≡ 2 ^ k = omega (arith, pow-suc 2 k) in
    rw half (ground (arith, bit_at-pow k j))

-- `~a` on `n` bits flips each of them.
pub bit_at-not : (n j a : ℕ) → a < 2 ^ n → j < n → bit_at (2 ^ n - 1 - a) j ≡ 1 - bit_at a j
unfolding bit_at
bit_at-not zero j a h p = absurd (omega arith)
bit_at-not (suc n) zero a h p = omega (arith, pow-suc 2 n)
bit_at-not (suc n) (suc j) a h p =
    let half : (2 ^ suc n - 1 - a) / 2 ≡ 2 ^ n - 1 - a / 2 = omega (arith, pow-suc 2 n) in
    rw half (bit_at-not n j (a / 2) (omega (arith, pow-suc 2 n)) (omega arith))

div-pow-suc : (k a : ℕ) → a / 2 ^ suc k ≡ a / 2 / 2 ^ k
div-pow-suc k a = rw (pow-succ', ← div-div-eq-div-mul)

-- `(a >> k) & 1` is bit `k`.
pub bit_at-shr : (k a : ℕ) → a / 2 ^ k % 2 ≡ bit_at a k
unfolding bit_at
bit_at-shr zero a = omega arith
bit_at-shr (suc k) a = rw (div-pow-suc k a) (bit_at-shr k (a / 2))

-- The claim for every `a` up to a bound, since the step halves `a`.
bit_and-zero : (n a : ℕ) → a ≤ n → bit_and a 0 ≡ 0
bit_and-zero n zero h = refl
bit_and-zero zero (suc a) h = absurd (omega arith)
bit_and-zero (suc n) (suc a) h = omega (arith, bit_and-low 0 (suc a), bit_and-zero n (suc a / 2))

pub bit_and-one : (a : ℕ) → bit_and a 1 ≡ a % 2
bit_and-one a = omega (arith, bit_and-low 1 a, bit_and-zero (a / 2) (a / 2))

pub two-pow-lt : (k n : ℕ) → k < n → 2 ^ k < 2 ^ n
two-pow-lt k zero h = absurd (omega arith)
two-pow-lt zero (suc n) h = omega (arith, pow-suc 2 n, one-le-pow n 2)
two-pow-lt (suc k) (suc n) h = omega (arith, pow-suc 2 n, pow-suc 2 k, two-pow-lt k n)

-- All ones.
pub bit_at-ones : (n j : ℕ) → j < n → bit_at (2 ^ n - 1) j ≡ 1
unfolding bit_at
bit_at-ones zero j h = absurd (omega arith)
bit_at-ones (suc n) zero h = omega (arith, pow-suc 2 n, one-le-pow n 2)
bit_at-ones (suc n) (suc j) h =
    let half : (2 ^ suc n - 1) / 2 ≡ 2 ^ n - 1 = omega (arith, pow-suc 2 n, one-le-pow n 2) in
    rw half (bit_at-ones n j (omega arith))

bit_or-zero : (n a : ℕ) → a ≤ n → bit_or a 0 ≡ a
bit_or-zero n zero h = refl
bit_or-zero zero (suc a) h = absurd (omega arith)
bit_or-zero (suc n) (suc a) h = omega (arith, bit_or-low 0 (suc a), bit_or-zero n (suc a / 2))

-- A flag below `2 ^ n` leaves the bits above.
pub bit_or-high : (n a b : ℕ) → b < 2 ^ n → bit_or a b / 2 ^ n ≡ a / 2 ^ n
bit_or-high zero a b h =
    let none_set : b ≡ 0 = omega arith in
    rw none_set (ap (λ (t : ℕ). t / 1) (bit_or-zero a a (omega arith)))
bit_or-high (suc n) a b h =
    let half : bit_or a b / 2 ≡ bit_or (a / 2) (b / 2) = omega (arith, bit_or-low b a) in
    div-pow-suc n (bit_or a b)
    ∙ rw half (bit_or-high n (a / 2) (b / 2) (omega (arith, pow-suc 2 n)))
    ∙ sym (div-pow-suc n a)

pub bit_or-odd : (a b : ℕ) → bit_or a b % 2 ≡ max (a % 2) (b % 2)
bit_or-odd a b = omega (arith, bit_or-low b a)

-- The mask bounds what is left of a word.
bit_and-le_fuel : (n a b : ℕ) → a ≤ n → bit_and a b ≤ b
bit_and-le_fuel n zero b h = omega (arith, bit_and-bitwise 0 b)
bit_and-le_fuel zero (suc a) b h = absurd (omega arith)
bit_and-le_fuel (suc n) (suc a) b h =
    omega (arith, bit_and-low b (suc a), bit_and-le_fuel n (suc a / 2) (b / 2))

pub bit_and-le : (a b : ℕ) → bit_and a b ≤ b
bit_and-le a b = bit_and-le_fuel a a b (omega arith)
