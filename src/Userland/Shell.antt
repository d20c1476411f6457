-- ===== src/Userland/Shell.antt =====
-- The command line of userland/sh.c: `parse_args`, the table of commands, and one round of
-- `shell_main` behind the reading of a line. `argv` is the list of the strings that its pointers lead
-- to once the line has been cut. What the commands themselves do is in Userland/Builtins.antt.
pub mod Words
pub mod Commands
mod Tests
use mai_unix.Prelude.{
  ℕ, zero, suc, true, false, Option, none, some, List, [], ◌∷◌, ◌==◌, if◌then◌else◌,
}
use mai_unix.Libc.Num.{isspace, digits_value}
use mai_unix.Libc.Str.{strcmp, is_zero}

-- `MAX_ARGS - 1`
abbrev pub most_args : ℕ
most_args = 31

-- `while (*p && isspace((unsigned char)*p)) p++`
unfoldable pub skip_blanks : List ℕ → List ℕ
unfolding isspace
skip_blanks [] = []
skip_blanks (c ∷ cs) = let rest = skip_blanks cs in if isspace c then rest else c ∷ cs

-- The string at `p`, once the blank behind its first word has become NUL.
unfoldable pub take_word : List ℕ → List ℕ
unfolding isspace
take_word [] = []
take_word (c ∷ cs) = let rest = take_word cs in if isspace c then [] else c ∷ rest

-- `p` behind the first word and the byte that ends it.
unfoldable pub after_word : List ℕ → List ℕ
unfolding isspace
after_word [] = []
after_word (c ∷ cs) = let rest = after_word cs in if isspace c then cs else rest

-- The loop of `parse_args`, with room for `n` more arguments. It ends with the last of them before
-- that is cut off from the rest of the line.
unfoldable pub parse_loop : ℕ → List ℕ → List (List ℕ)
unfolding skip_blanks take_word after_word
parse_loop zero p = []
parse_loop (suc n) p = elim (skip_blanks p) [
  | [] ↦ []
  | (c ∷ cs) ↦ elim (n == 0) [
    | true ↦ (c ∷ cs) ∷ []
    | false ↦ take_word (c ∷ cs) ∷ parse_loop n (after_word (c ∷ cs))
  ]
]

unfoldable pub parse_args : List ℕ → List (List ℕ)
unfolding parse_loop
parse_args line = parse_loop most_args line

-- The functions in the table `commands`.
pub data Command : Type 0 where
  cmd_cat : Command
  cmd_cd : Command
  cmd_echo : Command
  cmd_help : Command
  cmd_ls : Command
  cmd_mkdir : Command
  cmd_ps : Command
  cmd_pwd : Command
  cmd_rm : Command
  cmd_sleep : Command
  cmd_uname : Command
  cmd_write : Command

-- The names in that table.
abbrev pub command_name : Command → List ℕ
command_name cmd_cat = b'c' ∷ b'a' ∷ b't' ∷ []
command_name cmd_cd = b'c' ∷ b'd' ∷ []
command_name cmd_echo = b'e' ∷ b'c' ∷ b'h' ∷ b'o' ∷ []
command_name cmd_help = b'h' ∷ b'e' ∷ b'l' ∷ b'p' ∷ []
command_name cmd_ls = b'l' ∷ b's' ∷ []
command_name cmd_mkdir = b'm' ∷ b'k' ∷ b'd' ∷ b'i' ∷ b'r' ∷ []
command_name cmd_ps = b'p' ∷ b's' ∷ []
command_name cmd_pwd = b'p' ∷ b'w' ∷ b'd' ∷ []
command_name cmd_rm = b'r' ∷ b'm' ∷ []
command_name cmd_sleep = b's' ∷ b'l' ∷ b'e' ∷ b'e' ∷ b'p' ∷ []
command_name cmd_uname = b'u' ∷ b'n' ∷ b'a' ∷ b'm' ∷ b'e' ∷ []
command_name cmd_write = b'w' ∷ b'r' ∷ b'i' ∷ b't' ∷ b'e' ∷ []

abbrev pub commands : List Command
commands =
    cmd_cat ∷ cmd_cd ∷ cmd_echo ∷ cmd_help ∷ cmd_ls ∷ cmd_mkdir ∷ cmd_ps ∷ cmd_pwd ∷ cmd_rm
    ∷ cmd_sleep ∷ cmd_uname ∷ cmd_write ∷ []

-- The loop of `shell_main` over the table.
unfoldable pub find_command : List Command → List ℕ → Option Command
unfolding strcmp
find_command [] name = none
find_command (c ∷ cs) name =
    let rest = find_command cs name in
    if is_zero (strcmp name (command_name c)) then some c else rest

-- The exit code of `exit`: the digits that its argument begins with.
unfoldable pub exit_code : List (List ℕ) → ℕ
unfolding digits_value
exit_code [] = 0
exit_code (s ∷ rest) = digits_value 0 s

-- What a round of `shell_main` does with a line.
pub data Action : Type 0 where
  next_line : Action
  leave_shell : ℕ → Action
  call : Command → List (List ℕ) → Action
  not_found : List ℕ → Action

abbrev pub exit_word : List ℕ
exit_word = b'e' ∷ b'x' ∷ b'i' ∷ b't' ∷ []

unfoldable pub shell_round : List ℕ → Action
unfolding parse_args find_command exit_code strcmp
shell_round line = elim (parse_args line) [
  | [] ↦ next_line
  | (name ∷ rest) ↦
      if is_zero (strcmp name exit_word)
      then leave_shell (exit_code rest)
      else elim (find_command commands name) [
        | some c ↦ call c (name ∷ rest)
        | none ↦ not_found name
      ]
]
