-- ===== src/Userland/Builtins.antt =====
-- The commands of userland/sh.c that look at or change the file system and the directory of the shell:
-- `pwd`, `cd`, `mkdir` and `rm`, with `echo` and `uname`. What `printf` shows goes to descriptor 1, what
-- `tty_putchar` shows to the terminal, on which `putchar` is that function. The result is that of the
-- command, with the files and the terminal behind it; `none` is a fault.
mod Tests
use mai_unix.Prelude.{
  ℕ, ◌+◌, ◌-◌, Bool, true, false, ◌&&◌, Option, none, some, List, [], ◌∷◌, ◌++◌, ltb, leb, ◌==◌,
  if◌then◌else◌, length, get_or, take, drop,
}
use mai_unix.Prelude.Int.{is_neg}
use mai_unix.Prelude.Faults.{◌>>=◌}
use mai_unix.Libc.Str.{strrchr}
use mai_unix.Libc.Print.{Arg, string}
use mai_unix.Libc.Fd.{printf}
use mai_unix.Fs.Node.{dir, is_dir, ramfs_ops, tty_ops, Store}
use mai_unix.Fs.File.{CharDevice}
use mai_unix.Fs.Ramfs.{ramfs_create, ramfs_unlink}
use mai_unix.Fs.Vfs.{vfs_lookup}
use mai_unix.Syscall.Fd.{Sys}

abbrev pub pwd_format : List ℕ
pwd_format = b'%' ∷ b's' ∷ 10 ∷ []

abbrev pub cd_format : List ℕ
cd_format =
    b'c' ∷ b'd' ∷ b':' ∷ b' ' ∷ b'%' ∷ b's' ∷ b':' ∷ b' ' ∷ b'N' ∷ b'o' ∷ b' ' ∷ b's' ∷ b'u' ∷ b'c'
    ∷ b'h' ∷ b' ' ∷ b'd' ∷ b'i' ∷ b'r' ∷ b'e' ∷ b'c' ∷ b't' ∷ b'o' ∷ b'r' ∷ b'y' ∷ 10 ∷ []

abbrev pub mkdir_missing : List ℕ
mkdir_missing =
    b'm' ∷ b'k' ∷ b'd' ∷ b'i' ∷ b'r' ∷ b':' ∷ b' ' ∷ b'm' ∷ b'i' ∷ b's' ∷ b's' ∷ b'i' ∷ b'n' ∷ b'g'
    ∷ b' ' ∷ b'o' ∷ b'p' ∷ b'e' ∷ b'r' ∷ b'a' ∷ b'n' ∷ b'd' ∷ 10 ∷ []

abbrev pub mkdir_format : List ℕ
mkdir_format =
    b'm' ∷ b'k' ∷ b'd' ∷ b'i' ∷ b'r' ∷ b':' ∷ b' ' ∷ b'%' ∷ b's' ∷ b':' ∷ b' ' ∷ b'C' ∷ b'a' ∷ b'n'
    ∷ b'n' ∷ b'o' ∷ b't' ∷ b' ' ∷ b'c' ∷ b'r' ∷ b'e' ∷ b'a' ∷ b't' ∷ b'e' ∷ 10 ∷ []

abbrev pub rm_missing : List ℕ
rm_missing =
    b'r' ∷ b'm' ∷ b':' ∷ b' ' ∷ b'm' ∷ b'i' ∷ b's' ∷ b's' ∷ b'i' ∷ b'n' ∷ b'g' ∷ b' ' ∷ b'o' ∷ b'p'
    ∷ b'e' ∷ b'r' ∷ b'a' ∷ b'n' ∷ b'd' ∷ 10 ∷ []

abbrev pub rm_absent_format : List ℕ
rm_absent_format =
    b'r' ∷ b'm' ∷ b':' ∷ b' ' ∷ b'%' ∷ b's' ∷ b':' ∷ b' ' ∷ b'N' ∷ b'o' ∷ b' ' ∷ b's' ∷ b'u' ∷ b'c'
    ∷ b'h' ∷ b' ' ∷ b'f' ∷ b'i' ∷ b'l' ∷ b'e' ∷ 10 ∷ []

abbrev pub rm_failed_format : List ℕ
rm_failed_format =
    b'r' ∷ b'm' ∷ b':' ∷ b' ' ∷ b'%' ∷ b's' ∷ b':' ∷ b' ' ∷ b'C' ∷ b'a' ∷ b'n' ∷ b'n' ∷ b'o' ∷ b't'
    ∷ b' ' ∷ b'r' ∷ b'e' ∷ b'm' ∷ b'o' ∷ b'v' ∷ b'e' ∷ 10 ∷ []

abbrev pub uname_text : List ℕ
uname_text =
    b'M' ∷ b'y' ∷ b'O' ∷ b'S' ∷ b' ' ∷ b'1' ∷ b'.' ∷ b'0' ∷ b'.' ∷ b'0' ∷ b' ' ∷ b'x' ∷ b'8' ∷ b'6'
    ∷ b' ' ∷ b'2' ∷ b'0' ∷ b'2' ∷ b'4' ∷ 10 ∷ []

-- The files, and the terminal.
abbrev pub Shell : Type 0 → Type 0
Shell D = Sys × D

-- MAX_PATH, which is also the size of `cwd`.
abbrev pub max_path : ℕ
max_path = 256

-- `parent_path` and the name behind it, in `cmd_mkdir` and `cmd_rm`.
unfoldable pub split_path : List ℕ → List ℕ → Option (List ℕ × List ℕ)
unfolding strrchr
split_path cwd path = elim (strrchr path b'/') [
  | none ↦ if leb max_path (length cwd) then none else some (cwd, path)
  | some behind ↦
      let plen = length path - length behind in
      if leb max_path plen
      then none
      else some (if plen == 0 then b'/' ∷ [] else take plen path, drop (plen + 1) path)
]

-- The text that `cmd_cd` leaves at `cwd`, and the removal of its last slash. The code does not test
-- whether a longer directory fits: `strcat` goes on behind the buffer, where this is the text still. An
-- empty directory is read in front of its start.
unfoldable pub changed_cwd : List ℕ → List ℕ → Option (List ℕ)
changed_cwd cwd path =
    let slash = if get_or cwd (length cwd - 1) 0 == b'/' then [] else b'/' ∷ [] in
    let longer = cwd ++ (slash ++ path) in
    if get_or path 0 0 == b'/'
    then some (take (max_path - 1) path)
    else (if length cwd == 0 then none else some longer)

unfoldable pub drop_slash : List ℕ → List ℕ
drop_slash cwd =
    let len = length cwd in
    if ltb 1 len && (get_or cwd (len - 1) 0 == b'/') then take (len - 1) cwd else cwd

-- `vfs_lookup`, and whether there is a directory.
unfoldable pub finds_directory : Store → Option ℕ → List ℕ → Option Bool
unfolding vfs_lookup
finds_directory s root path = do
  found ← vfs_lookup s root path
  elim found [ none ↦ some false | some v ↦ (do n ← s.nodes v; some (is_dir n.type)) ]

module _ {D : Type 0} (dev : CharDevice D) (junk : ℕ → ℕ) where
  abbrev pub say : Shell D → List ℕ → List Arg → Option (Shell D)
  say w fmt args = printf dev junk w.1 w.0 fmt args >>= λ r. some (r.1, r.2)

  unfoldable pub cmd_pwd : Shell D → Option (ℕ × Shell D)
  unfolding printf
  cmd_pwd w = do w' ← say w pwd_format (string (some w.0.cwd) ∷ []); some (0, w')

  unfoldable pub cmd_uname : Shell D → Option (ℕ × Shell D)
  unfolding printf
  cmd_uname w = do w' ← say w uname_text []; some (0, w')

  -- The part of `cmd_cd` behind the look for the directory.
  unfoldable pub cd_to : Shell D → List ℕ → Bool → Option (ℕ × Shell D)
  unfolding printf changed_cwd drop_slash
  cd_to w path true = do
    cwd ← changed_cwd w.0.cwd path
    some (0, (record w.0 { cwd = drop_slash cwd }, w.1))
  cd_to w path false = do w' ← say w cd_format (string (some path) ∷ []); some (1, w')

  -- `operands` are the arguments behind the name of the command.
  unfoldable pub cmd_cd : Shell D → List (List ℕ) → Option (ℕ × Shell D)
  unfolding cd_to finds_directory
  cmd_cd w operands =
      let path = get_or operands 0 (b'/' ∷ []) in
      finds_directory w.0.store w.0.root path >>= λ there. cd_to w path there

  -- One operand of `cmd_mkdir`, and of `cmd_rm`.
  unfoldable pub make_one : Shell D → List ℕ → Option (Shell D)
  unfolding printf split_path vfs_lookup ramfs_create
  make_one w path = do
    (parent_path, name) ← split_path w.0.cwd path
    found ← vfs_lookup w.0.store w.0.root parent_path
    elim found [
      | none ↦ say w mkdir_format (string (some path) ∷ [])
      | some v ↦ (do
        n ← w.0.store.nodes v
        elim n.ops [
          | tty_ops ↦ say w mkdir_format (string (some path) ∷ [])
          | ramfs_ops ↦ (do
            (_, s) ← ramfs_create w.0.store v name dir
            some (record w.0 { store = s }, w.1))
        ])
    ]

  unfoldable pub remove_one : Shell D → List ℕ → Option (Shell D)
  unfolding printf split_path vfs_lookup ramfs_unlink
  remove_one w path = do
    (parent_path, name) ← split_path w.0.cwd path
    found ← vfs_lookup w.0.store w.0.root parent_path
    elim found [
      | none ↦ say w rm_absent_format (string (some path) ∷ [])
      | some v ↦ (do
        n ← w.0.store.nodes v
        elim n.ops [
          | tty_ops ↦ say w rm_absent_format (string (some path) ∷ [])
          | ramfs_ops ↦ (do
            (r, s) ← ramfs_unlink w.0.store v name
            let w' : Shell D = (record w.0 { store = s }, w.1)
            if is_neg r then say w' rm_failed_format (string (some path) ∷ []) else some w')
        ])
    ]

  -- The loops over the operands.
  unfoldable pub each_operand :
      (Shell D → List ℕ → Option (Shell D)) → Shell D → List (List ℕ) → Option (ℕ × Shell D)
  each_operand action w [] = some (0, w)
  each_operand action w (path ∷ rest) = action w path >>= λ w'. each_operand action w' rest

  unfoldable pub cmd_mkdir : Shell D → List (List ℕ) → Option (ℕ × Shell D)
  unfolding printf make_one each_operand
  cmd_mkdir w [] = do w' ← say w mkdir_missing []; some (1, w')
  cmd_mkdir w (path ∷ rest) = each_operand make_one w (path ∷ rest)

  unfoldable pub cmd_rm : Shell D → List (List ℕ) → Option (ℕ × Shell D)
  unfolding printf remove_one each_operand
  cmd_rm w [] = do w' ← say w rm_missing []; some (1, w')
  cmd_rm w (path ∷ rest) = each_operand remove_one w (path ∷ rest)

-- `tty_puts`, and the words of `cmd_echo` with the blanks between them.
module _ {D : Type 0} (putchar : D → ℕ → Option D) where
  unfoldable pub put_string : D → List ℕ → Option D
  put_string d [] = some d
  put_string d (c ∷ cs) = putchar d c >>= λ d'. put_string d' cs

  unfoldable pub echo_rest : D → List (List ℕ) → Option D
  unfolding put_string
  echo_rest d [] = some d
  echo_rest d (first ∷ rest) =
      putchar d b' ' >>= λ d₁. put_string d₁ first >>= λ d₂. echo_rest d₂ rest

  unfoldable pub cmd_echo : D → List (List ℕ) → Option (ℕ × D)
  unfolding put_string echo_rest
  cmd_echo d [] = putchar d 10 >>= λ d'. some (0, d')
  cmd_echo d (first ∷ rest) = do
    d₁ ← put_string d first
    d₂ ← echo_rest d₁ rest
    d₃ ← putchar d₂ 10
    some (0, d₃)
