-- ===== src/Userland/Exec.antt =====
-- The table of programs of userland/exec.c. `exec_program` gives the program whose entry it calls, and
-- its result.
use mai_unix.Prelude.Int.{ℤ, pos}
use mai_unix.Prelude.{ℕ, Bool, true, false, Option, none, some, List, [], ◌∷◌, ◌==◌, if◌then◌else◌}
use mai_unix.Fs.Node.{enoent}

-- The entries of the programs.
pub data Program : Type 0 where
  shell_main : Program

-- `while (*a && *a == *b) { a++; b++; }`, and the test that both strings have ended.
unfoldable pub same_path : List ℕ → List ℕ → Bool
same_path [] [] = true
same_path [] (b ∷ bs) = false
same_path (a ∷ as') [] = false
same_path (a ∷ as') (b ∷ bs) = let rest = same_path as' bs in if a == b then rest else false

abbrev pub builtins : List (List ℕ × Program)
builtins =
    (b'/' ∷ b'b' ∷ b'i' ∷ b'n' ∷ b'/' ∷ b's' ∷ b'h' ∷ [], shell_main)
    ∷ (b'/' ∷ b'b' ∷ b'i' ∷ b'n' ∷ b'/' ∷ b'b' ∷ b'a' ∷ b's' ∷ b'h' ∷ [], shell_main)
    ∷ []

-- The loop over the table.
unfoldable pub find_program : List (List ℕ × Program) → List ℕ → Option Program
unfolding same_path
find_program [] path = none
find_program (e ∷ es) path =
    let rest = find_program es path in if same_path path e.0 then some e.1 else rest

unfoldable pub exec_program : List ℕ → Option Program × ℤ
unfolding find_program
exec_program path = elim (find_program builtins path) [
  | some p ↦ (some p, pos 0)
  | none ↦ (none, enoent)
]
