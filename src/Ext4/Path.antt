-- ===== src/Ext4/Path.antt =====
-- `ext4_resolve_path` of fs/ext4/ext4.c, from a path's characters to an inode.
use kagami_os.Prelude.{ℕ, zero, suc, not, [], ◌∷◌, length, ◌==◌, if◌then◌else◌}
use kagami_os.Prelude.Bytes.{Bytes}
use kagami_os.Prelude.Cmd.{Cmd, pure, give_up, ◌>>=◌}
use kagami_os.Ext4.Layout.{Ext4Fs, ft_dir}
use kagami_os.Ext4.Blocks.{ext4_read_inode}
use kagami_os.Ext4.Dir.{ext4_find_in_dir}

-- `while (*p == '/') p++;`
unfoldable pub skip_slashes : Bytes → Bytes
skip_slashes [] = []
skip_slashes (c ∷ p) = let rest = skip_slashes p in if c == b'/' then rest else c ∷ p

-- `while (*p && *p != '/') p++;`: the characters passed, and where `p` stops.
unfoldable pub take_name : Bytes → Bytes × Bytes
take_name [] = ([], [])
take_name (c ∷ p) =
    let (name, rest) = take_name p in if c == b'/' then ([], c ∷ p) else (c ∷ name, rest)

module _ {D : Type 0} (fs : Ext4Fs D) where
  -- One name looked up in the directory that has been reached.
  unfoldable pub step_into : (current : ℕ) → Bytes → Cmd D (ℕ × ℕ)
  step_into current name = do
    dir_inode ← ext4_read_inode fs current
    ext4_find_in_dir fs dir_inode name

  -- The loop over the names. Each round consumes a character, so the path's length is fuel enough.
  unfoldable pub resolve_loop : (fuel : ℕ) → (current type : ℕ) → Bytes → Cmd D (ℕ × ℕ)
  resolve_loop zero current type p = pure (current, type)
  resolve_loop (suc fuel) current type [] = pure (current, type)
  resolve_loop (suc fuel) current type (c ∷ p) =
      let (name, rest) = take_name (c ∷ p) in
      do
        (next, next_type) ← step_into current name
        resolve_loop fuel next next_type (skip_slashes rest)

  -- Inode number and type; a null path is no path.
  unfoldable pub ext4_resolve_path : Bytes → Cmd D (ℕ × ℕ)
  ext4_resolve_path [] = give_up
  ext4_resolve_path (c ∷ path) =
      if not (c == b'/')
      then give_up
      else resolve_loop (length path) 2 ft_dir (skip_slashes (c ∷ path))
