-- ===== src/Libc/Str/Compare.antt =====
-- What the comparisons of libc/libc.c decide.
use mai_unix.Prelude.Int.{pos}
use mai_unix.Prelude.{ℕ, ◌≡◌, refl, sym, subst, ◌↔◌, List, [], ◌∷◌, arith, ℕ_discrete}
use mai_unix.Libc.Str.{IsText, byte_diff, strcmp}

pub byte_diff-zero : (a b : ℕ) → byte_diff a b ≡ pos 0 → a ≡ b
byte_diff-zero a b e = ground arith

-- `strcmp` returns 0 exactly for equal strings.
pub strcmp-eq-zero : (s t : List ℕ) → IsText s → IsText t → (strcmp s t ≡ pos 0) ↔ (s ≡ t)
unfolding strcmp
strcmp-eq-zero s t hs ht =
    (sound s t hs ht, λ e. subst (λ (u : List ℕ). strcmp s u ≡ pos 0) e (same s))
  where
    same : (s : List ℕ) → strcmp s s ≡ pos 0
    same [] = refl
    same (a ∷ as') = ground (arith, same as')

    sound : (s t : List ℕ) → IsText s → IsText t → strcmp s t ≡ pos 0 → s ≡ t
    sound [] [] hs ht e = refl
    sound [] (b ∷ bs) hs ht e = absurd (ht.0 (sym (byte_diff-zero 0 b e)))
    sound (a ∷ as') [] hs ht e = absurd (hs.0 (byte_diff-zero a 0 e))
    sound (a ∷ as') (b ∷ bs) hs ht e = elim (ℕ_discrete a b) [
      | yes q ↦ ground (arith, sound as' bs hs.1 ht.1)
      | no nq ↦ absurd (nq (byte_diff-zero a b (ground arith)))
    ]
