-- ===== src/Ext4/Dir.antt =====
-- Directory blocks in fs/ext4/ext4.c: the walks of `ext4_find_in_dir`, `ext4_list_dir` and
-- `ext4_add_dir_entry`. A walk takes one more than the block size as its fuel, since every record moves
-- it forward; `none` is a walk that has used up its fuel before one of its tests ended it.
use kagami_os.Prelude.{
  ℕ, zero, suc, ◌+◌, ◌-◌, ◌*◌, ◌/◌, Bool, true, false, not, ◌&&◌, ◌||◌, Option, none, some, [], ◌∷◌,
  ◌++◌, length, ltb, leb, ◌==◌, if◌then◌else◌, u8, u32, u64, get_elem?,
}
use kagami_os.Prelude.Bytes.{
  Bytes, Outcome, ok, fail, fault, byte, le16, le32, bytes16, bytes32, slice, patch,
}
use kagami_os.Prelude.Cmd.{Cmd, pure, give_up, lift, ◌>>=◌, ◌>>◌}
use kagami_os.Ext4.Layout.{Ext4Fs, Extent, extent_at, is_leaf, eh_entries, has_extents}
use kagami_os.Ext4.Blocks.{ext4_read_block, ext4_write_block, ext4_read_inode}

unfoldable pub align4 : ℕ → ℕ
align4 v = u32 (v + 3) / 4 * 4

-- The fixed part of an `Ext4DirEntry` at an offset.
pub record DirHead : Type 0 where
  pub inode : ℕ
  pub rec_len : ℕ
  pub name_len : ℕ
  pub file_type : ℕ

unfoldable pub head_at : Bytes → ℕ → Outcome DirHead
head_at block off = elim (slice block off 8) [
  | ok e ↦
      ok
        (record { inode = le32 e 0; rec_len = le16 e 4; name_len = byte e 6; file_type = byte e 7 })
  | fail ↦ fail
  | fault ↦ fault
]

-- `str_eq(entry->name, name, name_len)`: reading stops at the first difference.
unfoldable pub name_eq : Bytes → ℕ → Bytes → Outcome Bool
name_eq block at [] = ok true
name_eq block at (c ∷ name) =
    let rest = name_eq block (at + 1) name in
    elim (get_elem? block at) [ none ↦ fault | some b ↦ if b == c then rest else ok false ]

-- the comparison that is made if the cheaper tests pass
unfoldable pub entry_matches : Bytes → ℕ → DirHead → Bytes → Outcome Bool
entry_matches block off e name =
    let compared = name_eq block (off + 8) name in
    if not (e.inode == 0) && e.name_len == length name then compared else ok false

-- what the walk does at an entry, given the outcome of the comparison and of the rest of the walk
abbrev pub found_or :
    DirHead → Outcome Bool → Option (Outcome (Option DirHead)) → Option (Outcome (Option DirHead))
found_or e (ok true) rest = some (ok (some e))
found_or e (ok false) rest = rest
found_or e fail rest = some fail
found_or e fault rest = some fault

-- A loop that never ends is undefined behaviour as well.
abbrev pub settled : {A : Type 0} → Option (Outcome A) → Outcome A
settled none = fault
settled (some r) = r

-- The walk over one block from `off` on: the entry that matches.
unfoldable pub scan_block :
    (fuel block_size : ℕ) → Bytes → ℕ → Bytes → Option (Outcome (Option DirHead))
scan_block zero block_size block off name = none
scan_block (suc fuel) block_size block off name =
    if not (ltb (off + 8) block_size) then some (ok none) else elim (head_at block off) [
      | fail ↦ some fail
      | fault ↦ some fault
      | ok e ↦
          let rest = scan_block fuel block_size block (u32 (off + e.rec_len)) name in
          if e.rec_len == 0
          then some (ok none)
          else found_or e (entry_matches block off e name) rest
    ]

module _ {D : Type 0} (fs : Ext4Fs D) where
  unfoldable pub find_in_blocks : (n : ℕ) → Extent → (b : ℕ) → Bytes → Cmd D (Option DirHead)
  find_in_blocks zero ext b name = pure none
  find_in_blocks (suc n) ext b name = do
    block ← ext4_read_block fs (u64 (ext.start_block + b))
    found ← lift (settled (scan_block (suc fs.sb.block_size) fs.sb.block_size block 0 name))
    elim found [ some e ↦ pure (some e) | none ↦ find_in_blocks n ext (b + 1) name ]

  unfoldable pub find_in_extents : (n : ℕ) → Bytes → (i : ℕ) → Bytes → Cmd D (Option DirHead)
  find_in_extents zero inode i name = pure none
  find_in_extents (suc n) inode i name = do
    ext ← lift (extent_at inode i)
    found ← find_in_blocks ext.block_count ext 0 name
    elim found [ some e ↦ pure (some e) | none ↦ find_in_extents n inode (i + 1) name ]

  -- Inode number and type of the entry.
  unfoldable pub ext4_find_in_dir : Bytes → Bytes → Cmd D (ℕ × ℕ)
  ext4_find_in_dir inode name =
      if not (has_extents inode) || not (is_leaf inode) then give_up else do
        found ← find_in_extents (eh_entries inode) inode 0 name
        elim found [ some e ↦ pure (e.inode, e.file_type) | none ↦ give_up ]

-- The entry's bytes that `ext4_add_dir_entry` writes into the free tail of another record.
abbrev pub entry_bytes : (inode_num rec_len : ℕ) → (file_type : ℕ) → Bytes → Bytes
entry_bytes inode_num rec_len file_type name =
    bytes32 inode_num ++ (bytes16 rec_len ++ (u8 (length name) ∷ file_type ∷ name))

-- Splits the record at `off`: the new entry behind the used part, and then the shorter length.
unfoldable pub insert_at : Bytes → ℕ → DirHead → (inode_num file_type : ℕ) → Bytes → Outcome Bytes
insert_at block off e inode_num file_type name =
    let used = align4 (8 + e.name_len) in
    elim (patch (off + used) (entry_bytes inode_num (e.rec_len - used) file_type name) block) [
      | ok block' ↦ patch (off + 4) (bytes16 used) block'
      | fail ↦ fail
      | fault ↦ fault
    ]

abbrev pub written : Outcome Bytes → Outcome (Option Bytes)
written (ok block) = ok (some block)
written fail = fail
written fault = fault

-- The walk of `ext4_add_dir_entry` over one block: the block with the entry in it, if there is room.
unfoldable pub insert_in_block :
    (fuel block_size : ℕ)
    → Bytes
    → ℕ
    → (inode_num file_type : ℕ) → Bytes
    → Option (Outcome (Option Bytes))
insert_in_block zero block_size block off inode_num file_type name = none
insert_in_block (suc fuel) block_size block off inode_num file_type name =
    if not (ltb (off + 8) block_size) then some (ok none) else elim (head_at block off) [
      | fail ↦ some fail
      | fault ↦ some fault
      | ok e ↦
          let next =
            insert_in_block fuel block_size block (u32 (off + e.rec_len)) inode_num file_type
              name in
          if e.rec_len == 0
          then some (ok none)
          else if leb (u32 (align4 (8 + e.name_len) + align4 (8 + length name))) e.rec_len
          then some (written (insert_at block off e inode_num file_type name))
          else next
    ]

module _ {D : Type 0} (fs : Ext4Fs D) where
  unfoldable pub add_in_blocks :
      (n : ℕ) → Extent → (b : ℕ) → (inode_num file_type : ℕ) → Bytes → Cmd D Bool
  add_in_blocks zero ext b inode_num file_type name = pure false
  add_in_blocks (suc n) ext b inode_num file_type name = do
    block ← ext4_read_block fs (u64 (ext.start_block + b))
    room ← lift (
        settled (
          insert_in_block (suc fs.sb.block_size) fs.sb.block_size block 0 inode_num file_type name))
    elim room [
      | some block' ↦ do ext4_write_block fs (u64 (ext.start_block + b)) block'; pure true
      | none ↦ add_in_blocks n ext (b + 1) inode_num file_type name
    ]

  unfoldable pub add_in_extents :
      (n : ℕ) → Bytes → (i : ℕ) → (inode_num file_type : ℕ) → Bytes → Cmd D Bool
  add_in_extents zero inode i inode_num file_type name = pure false
  add_in_extents (suc n) inode i inode_num file_type name = do
    ext ← lift (extent_at inode i)
    done ← add_in_blocks ext.block_count ext 0 inode_num file_type name
    if done then pure true else add_in_extents n inode (i + 1) inode_num file_type name

  unfoldable pub ext4_add_dir_entry : ℕ → Bytes → (file_type inode_num : ℕ) → Cmd D (Unit {0})
  ext4_add_dir_entry dir_inode_num name file_type inode_num = do
    inode ← ext4_read_inode fs dir_inode_num
    if not (has_extents inode) || not (is_leaf inode) then give_up else do
      done ← add_in_extents (eh_entries inode) inode 0 inode_num file_type name
      if done then pure tt else give_up
