-- ===== src/Userland/Builtins/Tests.antt =====
-- Commands of userland/sh.c in a small file system.
use mai_unix.Prelude.{◌≡◌, refl, some, [], ◌∷◌}
use mai_unix.Userland.Builtins.{split_path, changed_cwd, drop_slash}

slash_dropped : drop_slash (b'/' ∷ b'a' ∷ b'/' ∷ []) ≡ b'/' ∷ b'a' ∷ []
unfolding drop_slash
slash_dropped = refl

relative_appended :
    changed_cwd (b'/' ∷ b'a' ∷ []) (b'b' ∷ []) ≡ some (b'/' ∷ b'a' ∷ b'/' ∷ b'b' ∷ [])
unfolding changed_cwd
relative_appended = refl

parent_split : split_path [] (b'/' ∷ b'a' ∷ []) ≡ some (b'/' ∷ [], b'a' ∷ [])
unfolding split_path
parent_split = refl
