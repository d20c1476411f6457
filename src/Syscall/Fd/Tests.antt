-- ===== src/Syscall/Fd/Tests.antt =====
-- The theorems on descriptors at a process with one open file.
use mai_unix.Prelude.{◌≡◌, refl, none, some, [], ◌∷◌, arith, ◌==◌, if◌then◌else◌, replicate}
use mai_unix.Fs.Sample.{a_file, sample}
use mai_unix.Fs.File.{File}
use mai_unix.Syscall.Fd.Dup.{sys_dup2_self}
use mai_unix.Syscall.Fd.{Sys, sys_dup2}

abbrev handle : File
handle = record { offset = 1; vnode = 2; flags = 2; ref = 1 }

abbrev one_open : Sys
one_open = record {
  store = sample;
  root = some 1;
  files = λ a. if a == 5 then some handle else none;
  fresh_file = 6;
  fds = some 5 ∷ replicate 31 none;
  cwd = b'/' ∷ [];
}

sys_dup2_self_example : sys_dup2 one_open 0 0 ≡ none
sys_dup2_self_example = sys_dup2_self one_open 0 5 {n = a_file} (omega arith) refl refl refl refl
