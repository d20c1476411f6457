-- ===== src/Fs/Sample.antt =====
-- A small file system: a root directory with one file, `a`, that holds three bytes.
use mai_unix.Prelude.{ℕ, refl, none, some, [], ◌∷◌, arith, ◌==◌, if◌then◌else◌}
use mai_unix.Fs.Node.{file, dir, ramfs_ops, Node, Store}
use mai_unix.Fs.Ramfs.Data.{IsFile}
use mai_unix.Fs.Ramfs.Dir.{IsDir}
use mai_unix.Libc.Str.{IsText}

abbrev pub a_file : Node
a_file = record {
  name = b'a' ∷ [];
  type = file;
  content = 65 ∷ 66 ∷ 67 ∷ [];
  size = 3;
  capacity = 3;
  inode = 2;
  children = [];
  ops = ramfs_ops;
  vsize = 3;
  mount_point = none;
  ref_count = 0;
}

abbrev pub a_dir : Node
a_dir = record {
  name = b'/' ∷ [];
  type = dir;
  content = [];
  size = 0;
  capacity = 0;
  inode = 1;
  children = 2 ∷ [];
  ops = ramfs_ops;
  vsize = 0;
  mount_point = none;
  ref_count = 0;
}

abbrev pub sample : Store
sample = record {
  nodes = λ a. if a == 1 then some a_dir else (if a == 2 then some a_file else none);
  fresh = 3;
  next_inode = 3;
}

pub a_file-IsFile : IsFile a_file
a_file-IsFile = record {
  regular = refl;
  size_in = omega arith;
  capacity_in = omega arith;
  size_capacity = omega arith;
}

pub name_a-IsText : IsText (b'a' ∷ [])
name_a-IsText = ((omega arith), tt)

pub a_dir-IsDir : IsDir sample a_dir
a_dir-IsDir = record { directory = refl; whole = ((a_file, refl, name_a-IsText), tt) }

pub junk : ℕ → ℕ
junk i = 170
