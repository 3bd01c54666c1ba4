-- ===== src/Ext4/Listing.antt =====
-- `ext4_list_dir` of fs/ext4/ext4.c: the names of a directory, one to a line.
use kagami_os.Prelude.{
  ℕ, zero, suc, ◌+◌, Bool, true, false, not, ◌||◌, Option, none, some, [], ◌∷◌, ◌++◌, length, ltb,
  leb, ◌==◌, if◌then◌else◌, u32, u64,
}
use kagami_os.Prelude.Bytes.{Bytes, Outcome, ok, fail, fault, slice}
use kagami_os.Prelude.Cmd.{Cmd, pure, give_up, lift, ◌>>=◌}
use kagami_os.Ext4.Layout.{Ext4Fs, Extent, extent_at, is_leaf, eh_entries, has_extents, ft_dir}
use kagami_os.Ext4.Blocks.{ext4_read_block, ext4_read_inode}
use kagami_os.Ext4.Dir.{DirHead, head_at, name_eq, settled}
use kagami_os.Ext4.Path.{ext4_resolve_path}

-- The text so far, and whether the buffer is used up.
pub record Listing : Type 0 where
  pub text : Bytes
  pub full : Bool

abbrev pub listing : Bytes → Bool → Listing
listing t f = record { text = t; full = f }

-- whether the entry is `.` or `..`
unfoldable pub is_dots : Bytes → ℕ → DirHead → Outcome Bool
is_dots block off e =
    let two = name_eq block (off + 8) (b'.' ∷ b'.' ∷ []) in
    if e.name_len == 1
    then name_eq block (off + 8) (b'.' ∷ [])
    else if e.name_len == 2
    then two
    else ok false

-- the text with one entry more
unfoldable pub list_entry : (max_size : ℕ) → Bytes → ℕ → DirHead → Bytes → Outcome Listing
list_entry max_size block off e text =
    if e.inode == 0 || e.name_len == 0
    then ok (listing text false)
    else elim (is_dots block off e) [
      | fail ↦ fail
      | fault ↦ fault
      | ok true ↦ ok (listing text false)
      | ok false ↦
          if leb max_size (u32 (length text + e.name_len + 2))
          then ok (listing text true)
          else (elim (slice block (off + 8) e.name_len) [
            | fail ↦ fail
            | fault ↦ fault
            | ok name ↦ ok (listing (text ++ (name ++ (10 ∷ []))) false)
          ])
    ]

-- The walk over one block; `none` if it has used up its fuel before one of its tests ended it.
unfoldable pub list_block :
    (fuel block_size max_size : ℕ) → Bytes → ℕ → Bytes → Option (Outcome Listing)
list_block zero block_size max_size block off text = none
list_block (suc fuel) block_size max_size block off text =
    if not (ltb (off + 8) block_size)
    then some (ok (listing text false))
    else elim (head_at block off) [
      | fail ↦ some fail
      | fault ↦ some fault
      | ok e ↦
          if e.rec_len == 0
          then some (ok (listing text false))
          else (elim (list_entry max_size block off e text) [
            | fail ↦ some fail
            | fault ↦ some fault
            | ok l ↦
                let rest =
                  list_block fuel block_size max_size block (u32 (off + e.rec_len)) l.text in
                if l.full then some (ok l) else rest
          ])
    ]

module _ {D : Type 0} (fs : Ext4Fs D) (max_size : ℕ) where
  unfoldable pub list_blocks : (n : ℕ) → Extent → (b : ℕ) → Bytes → Cmd D Listing
  list_blocks zero ext b text = pure (listing text false)
  list_blocks (suc n) ext b text = do
    block ← ext4_read_block fs (u64 (ext.start_block + b))
    l ← lift (settled (list_block (suc fs.sb.block_size) fs.sb.block_size max_size block 0 text))
    if l.full then pure l else list_blocks n ext (b + 1) l.text

  unfoldable pub list_extents : (n : ℕ) → Bytes → (i : ℕ) → Bytes → Cmd D Listing
  list_extents zero inode i text = pure (listing text false)
  list_extents (suc n) inode i text = do
    ext ← lift (extent_at inode i)
    l ← list_blocks ext.block_count ext 0 text
    if l.full then pure l else list_extents n inode (i + 1) l.text

  -- The text in `out`, up to its final zero.
  unfoldable pub ext4_list_dir : Bytes → Cmd D Bytes
  ext4_list_dir path = if max_size == 0 then give_up else do
    (inode_num, type) ← ext4_resolve_path fs path
    if not (type == ft_dir) then give_up else do
      inode ← ext4_read_inode fs inode_num
      if not (has_extents inode) || not (is_leaf inode)
          then give_up
          else do l ← list_extents (eh_entries inode) inode 0 []; pure l.text
