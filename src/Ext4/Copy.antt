-- ===== src/Ext4/Copy.antt =====
-- The copying loop of `ext4_read_extent_blocks` in fs/ext4/ext4.c stays within the block buffer and
-- within the caller's buffer.
use kagami_os.Prelude.{
  ℕ, zero, suc, ◌+◌, ◌*◌, ◌/◌, ◌^◌, ◌≤◌, ◌<◌, ◌≡◌, Option, some, [], length, length-append,
  length-take, length-drop, ltb, leb, ◌==◌, if◌then◌else◌, arith, Bool-cases, Option-cases, inl,
  inr, sub32, sub64, u32, u64, drop, false, true,
}
use kagami_os.Prelude.Bytes.{Bytes, slice, slice_ok}
use kagami_os.Prelude.Cmd.{lift}
use kagami_os.Prelude.Ensures.{NoFault, NoFault-bind}
use kagami_os.Storage.{IsDevice, dev_read}
use kagami_os.Ext4.Layout.{Ext4Fs, Extent, extent_at, is_leaf, eh_entries}
use kagami_os.Ext4.Blocks.{ext4_read_block, lba_of, sectors_per_block}
use kagami_os.Ext4.Extents.{
  Progress, progress, byte_start, copy_start, copy_len, before_offset, copy_behind, read_part,
  read_blocks, read_extents, ext4_read_extent_blocks,
}

-- a block that does not end before the offset holds the place where copying starts
start_inside :
    (start offset size : ℕ)
    → start < 2 ^ 64
    → offset < 2 ^ 64
    → 0 < size
    → size ≤ 4096
    → leb (u64 (start + size)) offset ≡ false
    → (if ltb start offset then u32 (sub64 offset start) else 0) < size
start_inside start offset size a b pos small after = ground arith

-- what is copied ends within the block, and is not more than is wanted
len_inside :
    (start size remaining : ℕ)
    → start < size
    → size ≤ 4096
    → (start + (if ltb remaining (sub32 size start) then remaining else sub32 size start) ≤ size)
      × ((if ltb remaining (sub32 size start) then remaining else sub32 size start) ≤ remaining)
len_inside start size remaining lt small = (ground arith, ground arith)

module _ {S : Type 0} where
  slice-NoFault :
      (xs : Bytes) (off n : ℕ) (s : S)
      → off + n ≤ length xs
      → NoFault (λ part. length part ≡ n) (lift (slice xs off n) s)
  slice-NoFault xs off n s fits =
      rw (slice_ok xs off n fits) (omega (arith, length-take n (drop off xs), length-drop off xs))

  copy_behind-NoFault :
      (size : ℕ) (moved part : Bytes) (s : S)
      → length moved + length part ≤ size
      → NoFault
          (λ all. length all ≡ length moved + length part)
          (lift (copy_behind size moved part) s)
  unfolding copy_behind
  copy_behind-NoFault size moved part s fits =
      let room : leb (length moved + length part) size ≡ true = ground arith in
      rw room (length-append moved part)

  extent_at-NoFault :
      (inode : Bytes) (i : ℕ) (s : S)
      → 52 + 12 * suc i ≤ length inode
      → NoFault (λ _. Unit {0}) (lift (extent_at inode i) s)
  unfolding extent_at
  extent_at-NoFault inode i s inside =
      rw (slice_ok inode (52 + 12 * i) 12 (omega arith), NoFault) tt

module _ {D : Type 0} (fs : Ext4Fs D) (read : D → ℕ → ℕ → Option Bytes)
    (working : IsDevice fs.device) (has : fs.device.read ≡ some read) (pos : 0 < fs.sb.block_size)
    (small : fs.sb.block_size ≤ 4096)
    (sectors : fs.sb.block_size / 512 * 512 ≡ fs.sb.block_size) where
  read_block-NoFault :
      (block : ℕ) (d : D)
      → NoFault (λ buf. length buf ≡ fs.sb.block_size) (ext4_read_block fs block d)
  unfolding ext4_read_block dev_read
  read_block-NoFault block d =
      elim (Option-cases (read d (lba_of fs block) (sectors_per_block fs))) [
        | inl e ↦ rw (has, e) tt
        | inr (buf, e) ↦
            let len : length buf ≡ fs.sb.block_size / 512 * 512 = working.whole has e in
            let fits : ltb 4096 (length buf) ≡ false = ground arith in
            rw (has, e, fits) (omega arith)
      ]

  module _ (size : ℕ) (wide : size < 2 ^ 32) (offset : ℕ) (word : offset < 2 ^ 64) where
    -- the bytes moved and the bytes wanted make up the whole
    abbrev Fits : Progress → Type 0
    Fits p = length p.moved + p.remaining ≡ size

    read_part-Fits :
        (ext : Extent) (b : ℕ) (p : Progress) (d : D)
        → before_offset fs offset ext b ≡ false
        → Fits p
        → NoFault Fits (read_part fs size offset ext b p d)
    unfolding read_part
    read_part-Fits ext b p d after fits =
        let start : ℕ = copy_start fs offset ext b in
        let len : ℕ = copy_len fs offset ext b p.remaining in
        let first =
          start_inside (byte_start fs ext b) offset fs.sb.block_size (omega arith) word pos small
            after in
        let (inside, wanted) = len_inside start fs.sb.block_size p.remaining first small in
        NoFault-bind (λ buf. length buf ≡ fs.sb.block_size) Fits
          (ext4_read_block fs (u64 (ext.start_block + b)) d) _
          (read_block-NoFault (u64 (ext.start_block + b)) d)
          λ buf s whole.
            NoFault-bind (λ part. length part ≡ len) Fits (lift (slice buf start len) s) _
              (slice-NoFault buf start len s (omega arith))
              λ part s' cut.
                NoFault-bind (λ all. length all ≡ length p.moved + length part) Fits
                  (lift (copy_behind size p.moved part) s') _
                  (copy_behind-NoFault size p.moved part s' (omega arith))
                  λ all s'' grown. omega arith

    read_blocks-Fits :
        (n : ℕ) (ext : Extent) (b : ℕ) (p : Progress) (d : D)
        → Fits p
        → NoFault Fits (read_blocks fs n size offset ext b p d)
    unfolding read_blocks
    read_blocks-Fits zero ext b p d fits = fits
    read_blocks-Fits (suc n) ext b p d fits = elim (Bool-cases (p.remaining == 0)) [
      | inl done ↦ rw done fits
      | inr more ↦ elim (Bool-cases (before_offset fs offset ext b)) [
        | inl skip ↦ rw (more, skip) (read_blocks-Fits n ext (b + 1) p d fits)
        | inr copy ↦
            rw (more, copy)
              (NoFault-bind Fits Fits (read_part fs size offset ext b p d) _
                (read_part-Fits ext b p d copy fits)
                λ p' d' fits'. read_blocks-Fits n ext (b + 1) p' d' fits')
      ]
    ]

    read_extents-Fits :
        (n : ℕ) (inode : Bytes) (i : ℕ) (p : Progress) (d : D)
        → 52 + 12 * (i + n) ≤ length inode
        → Fits p
        → NoFault Fits (read_extents fs n inode size offset i p d)
    unfolding read_extents
    read_extents-Fits zero inode i p d inside fits = fits
    read_extents-Fits (suc n) inode i p d inside fits = elim (Bool-cases (p.remaining == 0)) [
      | inl done ↦ rw done fits
      | inr more ↦ rw more (
          NoFault-bind (λ _. Unit {0}) Fits (lift (extent_at inode i) d) _
            (extent_at-NoFault inode i d (omega arith))
            λ ext d' _.
              NoFault-bind Fits Fits (read_blocks fs ext.block_count size offset ext 0 p d') _
                (read_blocks-Fits ext.block_count ext 0 p d' fits)
                λ p' d'' fits'. read_extents-Fits n inode (i + 1) p' d'' (omega arith) fits')
    ]

    -- On a working device with blocks of whole sectors and at most 4096 bytes, for an inode that holds
    -- all its extents, a 64 bit offset and a buffer whose size is a 32 bit number:
    -- `ext4_read_extent_blocks` reads nothing outside the inode and the block buffer and copies
    -- nothing outside the caller's buffer, whether it succeeds or a read fails on the way, and if it
    -- succeeds it has copied at most as many bytes as the buffer has.
    pub ext4_read_extent_blocks_fits :
        (inode : Bytes) (d : D)
        → 52 + 12 * eh_entries inode ≤ length inode
        → NoFault (λ out. length out ≤ size) (ext4_read_extent_blocks fs inode offset size d)
    unfolding ext4_read_extent_blocks
    ext4_read_extent_blocks_fits inode d inside = elim (Bool-cases (is_leaf inode)) [
      | inl leaf ↦ rw leaf (
          NoFault-bind Fits (λ out. length out ≤ size)
            (read_extents fs (eh_entries inode) inode size offset 0 (progress size []) d) _
            (read_extents-Fits (eh_entries inode) inode 0 (progress size []) d (omega arith)
              (omega arith))
            λ p d' fits. omega arith)
      | inr other ↦ rw other tt
    ]
