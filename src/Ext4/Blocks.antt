-- ===== src/Ext4/Blocks.antt =====
-- Blocks, the superblock, group descriptors and inodes: the lowest layer of fs/ext4/ext4.c.
use kagami_os.Prelude.{
  ℕ, ◌+◌, ◌*◌, ◌/◌, ◌%◌, ◌^◌, ◌-◌, not, Option, none, some, ◌++◌, ltb, ◌==◌, if◌then◌else◌, u32,
  u64, sub32, replicate,
}
use kagami_os.Prelude.Bytes.{Bytes, Outcome, ok, fail, fault, le16, le32, slice, patch}
use kagami_os.Prelude.Cmd.{Cmd, pure, give_up, lift, ◌>>=◌}
use kagami_os.Storage.{BlockDevice, dev_read, dev_write, sector_size}
use kagami_os.Ext4.Layout.{
  Ext4Fs, Ext4SuperblockInfo, superblock_lba, super_magic, buffer_size, super_raw_size,
  group_desc_bytes, inode_bytes, bg_inode_table_lo,
}

-- A division by zero is a fault.
unfoldable pub div_mod : ℕ → ℕ → Outcome (ℕ × ℕ)
div_mod a b = if b == 0 then fault else ok (a / b, a % b)

module _ {D : Type 0} (fs : Ext4Fs D) where
  abbrev pub sectors_per_block : ℕ
  sectors_per_block = fs.sb.block_size / sector_size

  abbrev pub lba_of : ℕ → ℕ
  lba_of block = u64 (fs.partition_lba + block * sectors_per_block)

  unfoldable pub ext4_read_block : ℕ → Cmd D Bytes
  ext4_read_block block = dev_read fs.device buffer_size (lba_of block) sectors_per_block

  unfoldable pub ext4_write_block : ℕ → Bytes → Cmd D (Unit {0})
  ext4_write_block block buf = dev_write fs.device (lba_of block) sectors_per_block buf

  -- the sectors of the superblock, and the fields that the source declares
  abbrev pub super_lba : ℕ
  super_lba = u64 (fs.partition_lba + superblock_lba)

  unfoldable pub ext4_read_super_raw : Cmd D Bytes
  ext4_read_super_raw = do
    buf ← dev_read fs.device (sector_size * 2) super_lba 2
    lift (slice buf 0 super_raw_size)

  unfoldable pub ext4_write_super_raw : Bytes → Cmd D (Unit {0})
  ext4_write_super_raw raw =
      dev_write fs.device super_lba 2 (raw ++ replicate (sector_size * 2 - super_raw_size) 0)

  abbrev pub group_desc_block : ℕ
  group_desc_block = if fs.sb.block_size == 1024 then 2 else 1

  -- block and offset of a group descriptor
  unfoldable pub group_desc_place : ℕ → Outcome (ℕ × ℕ)
  unfolding div_mod
  group_desc_place group = elim (div_mod (u32 (group * fs.sb.group_desc_size)) fs.sb.block_size) [
    | ok (q, r) ↦ ok (u32 (group_desc_block + q), r)
    | fail ↦ fail
    | fault ↦ fault
  ]

  -- The descriptor, and the block that holds it.
  unfoldable pub ext4_read_group_desc : ℕ → Cmd D (Bytes × Bytes)
  ext4_read_group_desc group = do
    (block, off) ← lift (group_desc_place group)
    buf ← ext4_read_block block
    gd ← lift (slice buf off group_desc_bytes)
    pure (gd, buf)

  unfoldable pub ext4_write_group_desc : ℕ → Bytes → Bytes → Cmd D (Unit {0})
  ext4_write_group_desc group gd block_buf = do
    (block, off) ← lift (group_desc_place group)
    buf ← lift (patch off gd block_buf)
    ext4_write_block block buf

  -- block and offset of an inode, from its group's descriptor
  unfoldable pub inode_place : ℕ → Cmd D (ℕ × ℕ × Bytes)
  inode_place inode_num = do
    (group, index) ← lift (div_mod (sub32 inode_num 1) fs.sb.inodes_per_group)
    (gd, _) ← ext4_read_group_desc group
    (q, off) ← lift (div_mod (u32 (index * fs.sb.inode_size)) fs.sb.block_size)
    pure (u32 (bg_inode_table_lo gd + q), off, gd)

  unfoldable pub ext4_read_inode : ℕ → Cmd D Bytes
  ext4_read_inode inode_num = do
    (block, off, _) ← inode_place inode_num
    buf ← ext4_read_block block
    lift (slice buf off inode_bytes)

  unfoldable pub ext4_write_inode : ℕ → Bytes → Cmd D (Unit {0})
  ext4_write_inode inode_num inode = do
    (block, off, _) ← inode_place inode_num
    buf ← ext4_read_block block
    buf ← lift (patch off inode buf)
    ext4_write_block block buf

-- `1024U << s_log_block_size`; a shift by 32 or more is undefined.
unfoldable pub block_size_of : ℕ → Outcome ℕ
block_size_of log = if ltb log 32 then ok (u32 (1024 * 2 ^ log)) else fault

-- `read_superblock` of a device that is not null
unfoldable pub read_superblock : {D : Type 0} → BlockDevice D → ℕ → Cmd D Ext4SuperblockInfo
read_superblock dev partition_lba = elim dev.read [
  | none ↦ give_up
  | some _ ↦ do
    raw ← dev_read dev (sector_size * 2) (u64 (partition_lba + superblock_lba)) 2
    if not (le16 raw 56 == super_magic) then give_up else do
      block_size ← lift (block_size_of (le32 raw 24))
      pure (record {
        block_size = block_size;
        inodes_per_group = le32 raw 40;
        inode_size = le16 raw 88;
        blocks_per_group = le32 raw 32;
        total_blocks = le32 raw 4;
        total_inodes = le32 raw 0;
        features_compat = le32 raw 92;
        features_incompat = le32 raw 96;
        features_ro_compat = le32 raw 100;
        first_data_block = le32 raw 20;
        group_desc_size = 32;
      })
]

-- The messages to the serial port and the log are left out.
unfoldable pub ext4_mount : {D : Type 0} → Option (BlockDevice D) → ℕ → Cmd D (Ext4Fs D)
ext4_mount none partition_lba = give_up
ext4_mount (some dev) partition_lba = do
  sb ← read_superblock dev partition_lba
  pure (record { device = dev; sb = sb; partition_lba = partition_lba })
