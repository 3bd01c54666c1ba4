-- ===== src/Ext4/File.antt =====
-- Whole files in fs/ext4/ext4.c: `ext4_read_file` and `ext4_write_file`. The pointers are not null.
use kagami_os.Prelude.{
  ℕ, ◌+◌, ◌-◌, ◌*◌, ◌/◌, ◌^◌, Bool, false, not, ◌&&◌, Option, none, some, [], ◌∷◌, ◌++◌, length,
  ltb, leb, ◌==◌, if◌then◌else◌, u16, u32, has_bit, get_or, take, replicate,
}
use kagami_os.Prelude.Bytes.{Bytes, Outcome, ok, fail, fault, le32, bytes16, bytes32, splice}
use kagami_os.Prelude.Cmd.{Cmd, pure, give_up, lift, attempt, ◌>>=◌, ◌>>◌}
use kagami_os.Ext4.Layout.{
  Ext4Fs, ft_reg_file, ft_dir, i_size_lo, i_size_high, has_extents, eh_entries, extent_magic,
  extent_at, is_leaf,
}
use kagami_os.Ext4.Blocks.{div_mod, ext4_read_inode, ext4_write_inode}
use kagami_os.Ext4.Extents.{ext4_read_extent_blocks, ext4_write_extent_blocks}
use kagami_os.Ext4.Dir.{ext4_find_in_dir, ext4_add_dir_entry}
use kagami_os.Ext4.Path.{skip_slashes, ext4_resolve_path}
use kagami_os.Ext4.Alloc.{ext4_alloc_block_run, ext4_alloc_inode}

-- the loop of `ext4_write_file` that looks for the last slash; a pointer is the text from it on
unfoldable pub last_slash : (last p : Bytes) → Bytes
last_slash last [] = last
last_slash last (c ∷ p) = last_slash (if c == b'/' then c ∷ p else last) p

abbrev pub file_name : Bytes → Bytes
file_name path = skip_slashes (last_slash path path)

-- `parent_path`, up to its final zero; `none` if it does not fit
unfoldable pub parent_path : Bytes → Option Bytes
parent_path path =
    let parent_len = length path - length (file_name path) in
    if parent_len == 0
    then some (b'/' ∷ [])
    else if leb 256 parent_len
    then none
    else if ltb 1 parent_len && get_or path (parent_len - 1) 0 == b'/'
    then some (take (parent_len - 1) path)
    else some (take parent_len path)

-- the inode of a new file: mode 0x81A4, one link, and the extents flag
abbrev pub new_inode : Bytes
new_inode =
    splice 32 (bytes32 0x00080000)
      (splice 26 (bytes16 1) (splice 0 (bytes16 0x81A4) (replicate 128 0)))

-- A shift of a 32 bit number to the right; by 32 or more it is undefined.
unfoldable pub shift_right : (v n : ℕ) → Outcome ℕ
shift_right v n = if ltb n 32 then ok (v / 2 ^ n) else fault

-- the inode with one extent of `count` blocks from `start` on, and the extents flag
unfoldable pub extent_inode : Bytes → (count start start_hi : ℕ) → Bytes
extent_inode inode count start start_hi =
    let header = bytes16 extent_magic ++ (bytes16 1 ++ (bytes16 4 ++ (bytes16 0 ++ bytes32 0))) in
    let extent = bytes32 0 ++ (bytes16 (u16 count) ++ (bytes16 (u16 start_hi) ++ bytes32 start)) in
    let flags = le32 inode 32 in
    let flags' = if has_bit flags 19 then flags else flags + 2 ^ 19 in
    splice 32 (bytes32 flags') (splice 40 (header ++ extent) inode)

-- The source takes `start_block >> 32` of a 32 bit number.
unfoldable pub with_extent : Bytes → (count start : ℕ) → Outcome Bytes
with_extent inode count start = elim (shift_right start 32) [
  | ok start_hi ↦ ok (extent_inode inode count start start_hi)
  | fail ↦ fail
  | fault ↦ fault
]

-- size and block count
unfoldable pub with_size : Bytes → (size blocks block_size : ℕ) → Bytes
with_size inode size blocks block_size =
    splice 108 (bytes32 0)
      (splice 28 (bytes32 (u32 (blocks * (block_size / 512)))) (splice 4 (bytes32 size) inode))

module _ {D : Type 0} (fs : Ext4Fs D) where
  unfoldable pub ext4_read_file : Bytes → (max_size : ℕ) → Cmd D Bytes
  ext4_read_file path max_size = if not (get_or path 0 0 == b'/') then give_up else do
    (inode_num, type) ← ext4_resolve_path fs path
    if not (type == ft_reg_file) then give_up else do
      inode ← ext4_read_inode fs inode_num
      let size = i_size_high inode * 2 ^ 32 + i_size_lo inode
      let wanted = if ltb max_size size then max_size else size
      if not (has_extents inode) then give_up else ext4_read_extent_blocks fs inode 0 (u32 wanted)

  -- The inode of the file, made if it is missing.
  unfoldable pub find_or_create : (parent : ℕ) → Bytes → Cmd D ℕ
  find_or_create parent name = do
    dir ← ext4_read_inode fs parent
    found ← attempt (ext4_find_in_dir fs dir name)
    elim found [
      | some (inode_num, _) ↦ pure inode_num
      | none ↦ do
        inode_num ← ext4_alloc_inode fs
        ext4_write_inode fs inode_num new_inode
        ext4_add_dir_entry fs parent name ft_reg_file inode_num
        pure inode_num
    ]

  -- whether the first extent of the inode holds `blocks` blocks
  unfoldable pub can_reuse : Bytes → (blocks : ℕ) → Outcome Bool
  can_reuse inode blocks =
      if has_extents inode && (is_leaf inode && leb 1 (eh_entries inode))
      then (elim (extent_at inode 0) [
        | ok ext ↦ ok (leb blocks ext.block_count)
        | fail ↦ fail
        | fault ↦ fault
      ])
      else ok false

  -- The blocks of the file, old or new, and its content; the inode that results.
  unfoldable pub store : Bytes → Bytes → (size blocks : ℕ) → Cmd D Bytes
  store inode buffer size blocks = if blocks == 0 then pure inode else do
    reused ← lift (can_reuse inode blocks)
    if reused then ext4_write_extent_blocks fs inode 0 buffer size >> pure inode else do
      start ← ext4_alloc_block_run fs blocks
      inode' ← lift (with_extent inode blocks start)
      ext4_write_extent_blocks fs inode' 0 buffer size
      pure inode'

  unfoldable pub ext4_write_file : Bytes → Bytes → (size : ℕ) → Cmd D (Unit {0})
  ext4_write_file path buffer size =
      if not (get_or path 0 0 == b'/')
      then give_up
      else if length (file_name path) == 0
      then give_up
      else elim (parent_path path) [
        | none ↦ give_up
        | some parent ↦ do
          (parent_inode, parent_type) ← ext4_resolve_path fs parent
          if not (parent_type == ft_dir) then give_up else do
            inode_num ← find_or_create parent_inode (file_name path)
            inode ← ext4_read_inode fs inode_num
            (blocks, _) ←
                lift (div_mod (u32 (size + fs.sb.block_size + (2 ^ 32 - 1))) fs.sb.block_size)
            inode' ← store inode buffer size blocks
            ext4_write_inode fs inode_num (with_size inode' size blocks fs.sb.block_size)
      ]
