-- ===== src/Ext4/Inode.antt =====
-- Inodes and the superblock on a working device: what is written is read back, and what else the
-- superblock's sectors lose.
use kagami_os.Prelude.{
  ℕ, ◌+◌, ◌*◌, ◌≤◌, ◌≡◌, ◌⊎◌, refl, ap, sym, ◌∙◌, Bool, true, false, Option, some, ◌++◌, length,
  ltb, if◌then◌else◌, arith, u32, sub32, take, drop, replicate, length-append, length-replicate,
  length-take,
}
use kagami_os.Prelude.Bytes.{
  Bytes, Outcome, ok, fail, slice, splice, le32, slice_ok, patch_ok, length-splice, slice-append,
}
use kagami_os.Storage.{IsDevice, dev_read, dev_write, sector_size}
use kagami_os.Ext4.Layout.{Ext4Fs, buffer_size, super_raw_size, group_desc_bytes, inode_bytes}
use kagami_os.Ext4.Blocks.{
  div_mod, sectors_per_block, lba_of, ext4_read_block, ext4_write_block, super_lba,
  ext4_write_super_raw, group_desc_place, ext4_read_group_desc, inode_place, ext4_read_inode,
  ext4_write_inode,
}

-- the outcome of a write, read backwards
finished :
    {D : Type 0} {d' : D} (r : Bool × D)
    → ◌≡◌ {A = Outcome (Unit {0}) × D} (if r.0 then (ok tt, r.1) else (fail, r.1)) (ok tt, d')
    → r ≡ (true, d')
finished {D} (true, d) e = ap (λ (t : Outcome (Unit {0}) × D). (true, t.1)) e
finished (false, d) e = cc

module _ {D : Type 0} (fs : Ext4Fs D) (read : D → ℕ → ℕ → Option Bytes)
    (write : D → ℕ → ℕ → Bytes → Bool × D) (reads : fs.device.read ≡ some read)
    (writes : fs.device.write ≡ some write) where
  read_block_ok :
      (d : D) (block : ℕ) (buf : Bytes)
      → read d (lba_of fs block) (sectors_per_block fs) ≡ some buf
      → length buf ≤ buffer_size
      → ext4_read_block fs block d ≡ (ok buf, d)
  unfolding ext4_read_block dev_read
  read_block_ok d block buf e small =
      let fits : ltb buffer_size (length buf) ≡ false = ground arith in rw (reads, e, fits)

  write_block_ok :
      (d d' : D) (block : ℕ) (buf : Bytes)
      → write d (lba_of fs block) (sectors_per_block fs) buf ≡ (true, d')
      → ext4_write_block fs block buf d ≡ (ok tt, d')
  unfolding ext4_write_block dev_write
  write_block_ok d d' block buf e = rw (writes, e)

  -- Where an inode lies on a medium: its group's descriptor is read, and the block that holds the
  -- inode. Both blocks are read without error, and they are not the same sectors.
  pub record Placed (d : D) (inode_num : ℕ) : Type 0 where
    pub group : ℕ
    pub index : ℕ
    pub in_group : div_mod (sub32 inode_num 1) fs.sb.inodes_per_group ≡ ok (group, index)
    pub gd_block : ℕ
    pub gd_off : ℕ
    pub gd_place : group_desc_place fs group ≡ ok (gd_block, gd_off)
    pub gd_buf : Bytes
    pub gd_read : read d (lba_of fs gd_block) (sectors_per_block fs) ≡ some gd_buf
    pub gd_small : length gd_buf ≤ buffer_size
    pub gd_inside : gd_off + group_desc_bytes ≤ length gd_buf
    pub q : ℕ
    pub off : ℕ
    pub in_table : div_mod (u32 (index * fs.sb.inode_size)) fs.sb.block_size ≡ ok (q, off)
    pub block : ℕ
    pub block_eq : block ≡ u32 (le32 (take group_desc_bytes (drop gd_off gd_buf)) 8 + q)
    pub buf : Bytes
    pub buf_read : read d (lba_of fs block) (sectors_per_block fs) ≡ some buf
    pub buf_small : length buf ≤ buffer_size
    pub inside : off + inode_bytes ≤ length buf
    pub apart :
        (lba_of fs gd_block + sectors_per_block fs ≤ lba_of fs block)
        ⊎ (lba_of fs block + sectors_per_block fs ≤ lba_of fs gd_block)

  inode_place_ok :
      (d : D) (inode_num group index gd_block gd_off q off : ℕ) (gd_buf : Bytes)
      → div_mod (sub32 inode_num 1) fs.sb.inodes_per_group ≡ ok (group, index)
      → group_desc_place fs group ≡ ok (gd_block, gd_off)
      → read d (lba_of fs gd_block) (sectors_per_block fs) ≡ some gd_buf
      → length gd_buf ≤ buffer_size
      → gd_off + group_desc_bytes ≤ length gd_buf
      → div_mod (u32 (index * fs.sb.inode_size)) fs.sb.block_size ≡ ok (q, off)
      → let gd = take group_desc_bytes (drop gd_off gd_buf) in
        inode_place fs inode_num d ≡ (ok (u32 (le32 gd 8 + q), off, gd), d)
  unfolding inode_place ext4_read_group_desc
  inode_place_ok d inode_num group index gd_block gd_off q off gd_buf e₁ e₂ e₃ small inside e₄ =
      rw (e₁, e₂, read_block_ok d gd_block gd_buf e₃ small, slice_ok gd_buf gd_off 32 inside, e₄)
        refl

  -- On a working device, an inode that is placed on the medium and whose block is written without
  -- error: `ext4_write_inode` succeeds, and `ext4_read_inode` then gives the 128 bytes written.
  pub read_inode-write_inode :
      (d d' : D) (inode_num : ℕ) (inode : Bytes) (p : Placed d inode_num)
      → IsDevice fs.device
      → length inode ≡ inode_bytes
      → write d (lba_of fs p.block) (sectors_per_block fs) (splice p.off inode p.buf) ≡ (true, d')
      → (ext4_write_inode fs inode_num inode d ≡ (ok tt, d'))
        × (ext4_read_inode fs inode_num d' ≡ (ok inode, d'))
  unfolding ext4_write_inode ext4_read_inode
  read_inode-write_inode d d' inode_num inode p dev len done =
      let open_gd = take group_desc_bytes (drop p.gd_off p.gd_buf) in
      let at_block : (m : D)
          → read m (lba_of fs p.gd_block) (sectors_per_block fs) ≡ some p.gd_buf
          → inode_place fs inode_num m ≡ (ok (p.block, p.off, open_gd), m) =
        λ m gd_read.
          inode_place_ok m inode_num p.group p.index p.gd_block p.gd_off p.q p.off p.gd_buf
            p.in_group p.gd_place gd_read p.gd_small p.gd_inside p.in_table
          ∙ ap (λ b. (ok (b, p.off, open_gd), m)) (sym p.block_eq) in
      let new = splice p.off inode p.buf in
      let same_length : length new ≡ length p.buf =
        length-splice p.off inode p.buf (omega (arith, p.inside)) in
      let new_small : length new ≤ buffer_size = omega (arith, p.buf_small) in
      let back : read d' (lba_of fs p.block) (sectors_per_block fs) ≡ some new =
        dev.read_back reads writes (same_length ∙ dev.whole reads p.buf_read) done in
      let kept = dev.elsewhere reads writes done p.apart ∙ p.gd_read in
      let found : slice new p.off inode_bytes ≡ ok inode =
        slice-append (take p.off p.buf) inode _ p.off inode_bytes
          (omega (arith, length-take p.off p.buf, p.inside)) (sym len) in
      (
        rw
            (
              at_block d p.gd_read,
              read_block_ok d p.block p.buf p.buf_read p.buf_small,
              patch_ok p.off inode p.buf (omega (arith, p.inside)),
            )
            (write_block_ok d d' p.block new done),
        rw (at_block d' kept, read_block_ok d' p.block new back new_small, found) refl,
      )

  -- On a working device a superblock update that succeeds leaves in the superblock's two sectors
  -- the 104 bytes given, and zero in all of the 920 bytes behind them, whatever stood there.
  pub ext4_write_super_raw_erases :
      (d d' : D) (raw : Bytes)
      → IsDevice fs.device
      → length raw ≡ super_raw_size
      → ext4_write_super_raw fs raw d ≡ (ok tt, d')
      → read d' (super_lba fs) 2 ≡ some (raw ++ replicate 920 0)
  unfolding ext4_write_super_raw dev_write
  ext4_write_super_raw_erases d d' raw dev len done =
      let buf = raw ++ replicate 920 0 in
      let whole : length buf ≡ 2 * sector_size =
        omega (arith, length-append raw (replicate 920 0), length-replicate {A = ℕ} 920 0) in
      dev.read_back reads writes whole
        (finished (write d (super_lba fs) 2 buf) (rw (writes, dev_write) at done))
