-- ===== src/Userland/Shell/Commands.antt =====
-- The table of commands of userland/sh.c.
use mai_unix.Prelude.Int.{ℤ, pos}
use mai_unix.Prelude.{
  ℕ, ◌≡◌, refl, ap, ◌∙◌, ◌↔◌, inl, inr, Bool, true, false, some, List, [], ◌∷◌, arith, ◌==◌,
  if◌then◌else◌, Bool-cases,
}
use mai_unix.Libc.Str.{IsText, strcmp, is_zero}
use mai_unix.Libc.Str.Compare.{strcmp-eq-zero}
use mai_unix.Userland.Shell.{
  Command, cmd_cat, cmd_cd, cmd_echo, cmd_help, cmd_ls, cmd_mkdir, cmd_ps, cmd_pwd, cmd_rm,
  cmd_sleep, cmd_uname, cmd_write, command_name, commands, find_command,
}

-- `strcmp` as a test of equality.
strcmp-is_zero : (s t : List ℕ) → IsText s → IsText t → is_zero (strcmp s t) ≡ true → s ≡ t
strcmp-is_zero s t is it eq = (strcmp-eq-zero s t is it).0 (zero_of (strcmp s t) eq)
  where
    zero_of : (z : ℤ) → is_zero z ≡ true → z ≡ pos 0
    zero_of z e = ground arith

abbrev all_nonzero : List ℕ → Bool
all_nonzero [] = true
all_nonzero (c ∷ cs) = let rest = all_nonzero cs in if c == 0 then false else rest

all_nonzero-IsText : (s : List ℕ) → all_nonzero s ≡ true → IsText s
all_nonzero-IsText [] eq = tt
all_nonzero-IsText (c ∷ cs) eq = (ground arith, all_nonzero-IsText cs (ground arith))

command_name-IsText : (c : Command) → IsText (command_name c)
command_name-IsText c = all_nonzero-IsText (command_name c) (ok c)
  where
    ok : (c : Command) → all_nonzero (command_name c) ≡ true
    ok cmd_cat = refl
    ok cmd_cd = refl
    ok cmd_echo = refl
    ok cmd_help = refl
    ok cmd_ls = refl
    ok cmd_mkdir = refl
    ok cmd_ps = refl
    ok cmd_pwd = refl
    ok cmd_rm = refl
    ok cmd_sleep = refl
    ok cmd_uname = refl
    ok cmd_write = refl

found_name :
    (cs : List Command) (name : List ℕ) (c : Command)
    → IsText name
    → find_command cs name ≡ some c
    → name ≡ command_name c
unfolding find_command
found_name [] name c it eq = cc
found_name (x ∷ xs) name c it eq = elim (Bool-cases (is_zero (strcmp name (command_name x)))) [
  | inl same ↦
      let this : x ≡ c = ground arith in
      strcmp-is_zero name (command_name x) it (command_name-IsText x) same ∙ ap command_name this
  | inr other ↦ found_name xs name c it (ground arith)
]

found_itself : (c : Command) → find_command commands (command_name c) ≡ some c
unfolding find_command strcmp
found_itself cmd_cat = refl
found_itself cmd_cd = refl
found_itself cmd_echo = refl
found_itself cmd_help = refl
found_itself cmd_ls = refl
found_itself cmd_mkdir = refl
found_itself cmd_ps = refl
found_itself cmd_pwd = refl
found_itself cmd_rm = refl
found_itself cmd_sleep = refl
found_itself cmd_uname = refl
found_itself cmd_write = refl

-- The search in the table of commands finds a command for a word exactly if the word is its name.
find_command_lem :
    (name : List ℕ) (c : Command)
    → IsText name
    → (find_command commands name ≡ some c) ↔ (name ≡ command_name c)
find_command_lem name c it =
    (found_name commands name c it, λ e. ap (find_command commands) e ∙ found_itself c)
