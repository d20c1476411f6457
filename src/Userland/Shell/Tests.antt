-- ===== src/Userland/Shell/Tests.antt =====
-- The theorems on the command line at the line ` ls  /bin`.
use mai_unix.Prelude.{ℕ, ◌≡◌, refl, List, [], ◌∷◌, arith}
use mai_unix.Userland.Shell.{parse_args, cmd_ls, call, shell_round}
use mai_unix.Libc.Num.{isspace}
use mai_unix.Userland.Shell.Words.{words, parse_args-words}

abbrev list_bin : List ℕ
list_bin = b' ' ∷ b'l' ∷ b's' ∷ b' ' ∷ b' ' ∷ b'/' ∷ b'b' ∷ b'i' ∷ b'n' ∷ []

parse_args-words_example : parse_args list_bin ≡ words list_bin
unfolding words isspace
parse_args-words_example = parse_args-words list_bin (omega arith)

calls_ls :
    shell_round list_bin ≡ call cmd_ls ((b'l' ∷ b's' ∷ []) ∷ (b'/' ∷ b'b' ∷ b'i' ∷ b'n' ∷ []) ∷ [])
unfolding shell_round isspace
calls_ls = refl
