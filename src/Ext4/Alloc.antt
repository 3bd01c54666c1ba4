-- ===== src/Ext4/Alloc.antt =====
-- `ext4_alloc_block_run` and `ext4_alloc_inode` of fs/ext4/ext4.c: the bitmaps of group 0.
use kagami_os.Prelude.{
  ℕ, zero, suc, ◌+◌, ◌-◌, ◌/◌, ◌%◌, ◌^◌, Bool, true, false, Option, none, some, leb, ◌==◌,
  if◌then◌else◌, u32, has_bit, get_elem?, set,
}
use kagami_os.Prelude.Bytes.{Bytes, Outcome, ok, fail, fault, bytes16, bytes32, splice}
use kagami_os.Prelude.Cmd.{Cmd, pure, give_up, lift, attempt, ignored, ◌>>=◌, ◌>>◌}
use kagami_os.Ext4.Layout.{
  Ext4Fs, bg_block_bitmap_lo, bg_inode_bitmap_lo, bg_free_blocks_count_lo, bg_free_inodes_count_lo,
  s_free_blocks_count_lo, s_free_inodes_count,
}
use kagami_os.Ext4.Blocks.{
  ext4_read_block, ext4_write_block, ext4_read_group_desc, ext4_write_group_desc,
  ext4_read_super_raw, ext4_write_super_raw,
}

-- `(bitmap[i / 8] >> (i % 8)) & 1`
unfoldable pub bit_at : Bytes → ℕ → Outcome Bool
bit_at bitmap i = elim (get_elem? bitmap (i / 8)) [ none ↦ fault | some b ↦ ok (has_bit b (i % 8)) ]

-- `b |= 1 << k`
abbrev pub or_bit : ℕ → ℕ → ℕ
or_bit b k = if has_bit b k then b else b + 2 ^ k

unfoldable pub set_bit : Bytes → ℕ → Outcome Bytes
set_bit bitmap i = elim (get_elem? bitmap (i / 8)) [
  | none ↦ fault
  | some b ↦ ok (set bitmap (i / 8) (or_bit b (i % 8)))
]

-- The search loop at bit `i`, with `n` bits left: the start of the run of `count` clear bits.
unfoldable pub find_run : (n count : ℕ) → Bytes → (i run start : ℕ) → Outcome (Option ℕ)
find_run zero count bitmap i run start = ok none
find_run (suc n) count bitmap i run start =
    let start' = if run == 0 then i else start in
    let more = find_run n count bitmap (i + 1) (run + 1) start' in
    let again = find_run n count bitmap (i + 1) 0 start in
    elim (bit_at bitmap i) [
      | fail ↦ fail
      | fault ↦ fault
      | ok true ↦ again
      | ok false ↦ if run + 1 == count then ok (some start') else more
    ]

-- The marking loop: `n` bits from `i` on.
unfoldable pub mark_run : (n : ℕ) → Bytes → (i : ℕ) → Outcome Bytes
mark_run zero bitmap i = ok bitmap
mark_run (suc n) bitmap i = elim (set_bit bitmap i) [
  | fail ↦ fail
  | fault ↦ fault
  | ok bitmap' ↦ mark_run n bitmap' (i + 1)
]

-- `if (free >= count) free -= count;`
abbrev pub less : ℕ → ℕ → ℕ
less free count = if leb count free then free - count else free

module _ {D : Type 0} (fs : Ext4Fs D) where
  -- The free counters of the descriptor and of the superblock, as far as they can be written: the
  -- failures of these steps are ignored. `at` and `size` place the superblock's counter.
  unfoldable pub count_down :
      (gd gd_buf : Bytes) → (free_count : Bytes → ℕ) → (at : ℕ) → ℕ → Cmd D (Unit {0})
  count_down gd gd_buf free_count at count = do
    ignored (ext4_write_group_desc fs 0 gd gd_buf)
    raw ← attempt (ext4_read_super_raw fs)
    elim raw [
      | none ↦ pure tt
      | some sbr ↦
          ignored (ext4_write_super_raw fs (splice at (bytes32 (less (free_count sbr) count)) sbr))
    ]

  -- The first block of the run.
  unfoldable pub ext4_alloc_block_run : ℕ → Cmd D ℕ
  ext4_alloc_block_run count = do
    (gd, gd_buf) ← ext4_read_group_desc fs 0
    bitmap ← ext4_read_block fs (bg_block_bitmap_lo gd)
    found ← lift (find_run fs.sb.blocks_per_group count bitmap 0 0 0)
    elim found [
      | none ↦ give_up
      | some start ↦ do
        bitmap' ← lift (mark_run count bitmap start)
        ext4_write_block fs (bg_block_bitmap_lo gd) bitmap'
        let gd' = splice 12 (bytes16 (less (bg_free_blocks_count_lo gd) count)) gd
        count_down gd' gd_buf s_free_blocks_count_lo 12 count
        pure (u32 (start + fs.sb.first_data_block))
    ]

  -- The number of the first inode whose bit is clear. It is one more than the bit's index.
  unfoldable pub ext4_alloc_inode : Cmd D ℕ
  ext4_alloc_inode = do
    (gd, gd_buf) ← ext4_read_group_desc fs 0
    bitmap ← ext4_read_block fs (bg_inode_bitmap_lo gd)
    found ← lift (find_run fs.sb.inodes_per_group 1 bitmap 0 0 0)
    elim found [
      | none ↦ give_up
      | some i ↦ do
        bitmap' ← lift (set_bit bitmap i)
        ext4_write_block fs (bg_inode_bitmap_lo gd) bitmap'
        let gd' = splice 14 (bytes16 (less (bg_free_inodes_count_lo gd) 1)) gd
        count_down gd' gd_buf s_free_inodes_count 16 1
        pure (u32 (i + 1))
    ]
