-- ===== src/Ext4/Extents.antt =====
-- `ext4_read_extent_blocks` and `ext4_write_extent_blocks` of fs/ext4/ext4.c.
use kagami_os.Prelude.{
  ℕ, zero, suc, ◌+◌, ◌*◌, Bool, not, [], ◌++◌, length, ltb, leb, ◌==◌, if◌then◌else◌, u32, u64,
  sub32, sub64,
}
use kagami_os.Prelude.Bytes.{Bytes, Outcome, ok, fault, slice, patch}
use kagami_os.Prelude.Cmd.{Cmd, pure, give_up, lift, ◌>>=◌, ◌>>◌}
use kagami_os.Ext4.Layout.{Ext4Fs, Extent, extent_at, is_leaf, eh_entries}
use kagami_os.Ext4.Blocks.{ext4_read_block, ext4_write_block}

-- What the loops carry: the bytes still wanted, and the buffer `moved` so far; its length is
-- `total_read`. Of a write, `moved` is what has been taken from the source.
pub record Progress : Type 0 where
  pub remaining : ℕ
  pub moved : Bytes

abbrev pub progress : ℕ → Bytes → Progress
progress n xs = record { remaining = n; moved = xs }

-- The copy of `part` behind what is in a buffer of `size` bytes.
unfoldable pub copy_behind : (size : ℕ) → (moved part : Bytes) → Outcome Bytes
copy_behind size moved part =
    if leb (length moved + length part) size then ok (moved ++ part) else fault

module _ {D : Type 0} (fs : Ext4Fs D) where
  -- where block `b` of an extent begins in the file
  abbrev pub byte_start : Extent → ℕ → ℕ
  byte_start ext b = u64 (u32 (ext.ee_block + b) * fs.sb.block_size)

  -- the block ends before the offset
  abbrev pub before_offset : ℕ → Extent → ℕ → Bool
  before_offset offset ext b = leb (u64 (byte_start ext b + fs.sb.block_size)) offset

  abbrev pub copy_start : ℕ → Extent → ℕ → ℕ
  copy_start offset ext b =
      if ltb (byte_start ext b) offset then u32 (sub64 offset (byte_start ext b)) else 0

  abbrev pub copy_len : ℕ → Extent → ℕ → ℕ → ℕ
  copy_len offset ext b remaining =
      let len = sub32 fs.sb.block_size (copy_start offset ext b) in
      if ltb remaining len then remaining else len

  -- One round of the inner loop that is not skipped; `size` is that of the caller's buffer.
  unfoldable pub read_part : (size offset : ℕ) → Extent → (b : ℕ) → Progress → Cmd D Progress
  read_part size offset ext b p = do
    block_buf ← ext4_read_block fs (u64 (ext.start_block + b))
    let len = copy_len offset ext b p.remaining
    part ← lift (slice block_buf (copy_start offset ext b) len)
    moved ← lift (copy_behind size p.moved part)
    pure (progress (sub32 p.remaining len) moved)

  -- The inner loop from block `b` on, with `n` blocks left.
  unfoldable pub read_blocks : (n size offset : ℕ) → Extent → (b : ℕ) → Progress → Cmd D Progress
  read_blocks zero size offset ext b p = pure p
  read_blocks (suc n) size offset ext b p =
      let skip = read_blocks n size offset ext (b + 1) p in
      let copy = read_part size offset ext b p >>= λ p'. read_blocks n size offset ext (b + 1) p' in
      if p.remaining == 0 then pure p else if before_offset offset ext b then skip else copy

  -- The outer loop from extent `i` on, with `n` extents left.
  unfoldable pub read_extents :
      (n : ℕ) → Bytes → (size offset : ℕ) → (i : ℕ) → Progress → Cmd D Progress
  read_extents zero inode size offset i p = pure p
  read_extents (suc n) inode size offset i p =
      let next = lift (extent_at inode i) >>= λ ext.
      read_blocks ext.block_count size offset ext 0 p >>= λ p'.
      read_extents n inode size offset (i + 1) p' in
      if p.remaining == 0 then pure p else next

  -- The bytes left in `buffer`, which has `size` bytes; their number is `*out_read`.
  unfoldable pub ext4_read_extent_blocks : Bytes → (offset size : ℕ) → Cmd D Bytes
  ext4_read_extent_blocks inode offset size = if not (is_leaf inode) then give_up else do
    p ← read_extents (eh_entries inode) inode size offset 0 (progress size [])
    pure p.moved

  -- The writing loops; `src` is the caller's buffer.
  unfoldable pub write_part : Bytes → (offset : ℕ) → Extent → (b : ℕ) → Progress → Cmd D Progress
  write_part src offset ext b p = do
    block_buf ← ext4_read_block fs (u64 (ext.start_block + b))
    let len = copy_len offset ext b p.remaining
    part ← lift (slice src (length p.moved) len)
    block_buf ← lift (patch (copy_start offset ext b) part block_buf)
    ext4_write_block fs (u64 (ext.start_block + b)) block_buf
    pure (progress (sub32 p.remaining len) (p.moved ++ part))

  unfoldable pub write_blocks :
      (n : ℕ) → Bytes → (offset : ℕ) → Extent → (b : ℕ) → Progress → Cmd D Progress
  write_blocks zero src offset ext b p = pure p
  write_blocks (suc n) src offset ext b p =
      let skip = write_blocks n src offset ext (b + 1) p in
      let copy = write_part src offset ext b p >>= λ p'. write_blocks n src offset ext (b + 1) p' in
      if p.remaining == 0 then pure p else if before_offset offset ext b then skip else copy

  unfoldable pub write_extents :
      (n : ℕ) → Bytes → Bytes → (offset : ℕ) → (i : ℕ) → Progress → Cmd D Progress
  write_extents zero src inode offset i p = pure p
  write_extents (suc n) src inode offset i p =
      let next = lift (extent_at inode i) >>= λ ext.
      write_blocks ext.block_count src offset ext 0 p >>= λ p'.
      write_extents n src inode offset (i + 1) p' in
      if p.remaining == 0 then pure p else next

  unfoldable pub ext4_write_extent_blocks : Bytes → (offset : ℕ) → Bytes → ℕ → Cmd D (Unit {0})
  ext4_write_extent_blocks inode offset buffer size = if not (is_leaf inode) then give_up else do
    p ← write_extents (eh_entries inode) buffer inode offset 0 (progress size [])
    if p.remaining == 0 then pure tt else give_up
