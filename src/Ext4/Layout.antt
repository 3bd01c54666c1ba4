-- ===== src/Ext4/Layout.antt =====
-- The mounted filesystem and the on-disk structs of fs/ext4/ext4.h and ext4.c. An inode is 128
-- bytes, a group descriptor 32, and the superblock's declared fields 104.
use kagami_os.Prelude.{ℕ, ◌+◌, ◌*◌, ◌%◌, ◌^◌, Bool, ◌&&◌, ◌==◌, has_bit}
use kagami_os.Prelude.Bytes.{Bytes, Outcome, ok, fail, fault, le16, le32, slice}
use kagami_os.Storage.{BlockDevice}

-- `Ext4SuperblockInfo`
pub record Ext4SuperblockInfo : Type 0 where
  pub block_size : ℕ
  pub inodes_per_group : ℕ
  pub inode_size : ℕ
  pub blocks_per_group : ℕ
  pub total_blocks : ℕ
  pub total_inodes : ℕ
  pub features_compat : ℕ
  pub features_incompat : ℕ
  pub features_ro_compat : ℕ
  pub first_data_block : ℕ
  pub group_desc_size : ℕ

pub record Ext4Fs (D : Type 0) : Type 0 where
  pub device : BlockDevice D
  pub sb : Ext4SuperblockInfo
  pub partition_lba : ℕ

abbrev pub superblock_lba : ℕ
superblock_lba = 2

abbrev pub super_magic : ℕ
super_magic = 0xEF53

abbrev pub extent_magic : ℕ
extent_magic = 0xF30A

abbrev pub ft_reg_file : ℕ
ft_reg_file = 1

abbrev pub ft_dir : ℕ
ft_dir = 2

abbrev pub buffer_size : ℕ
buffer_size = 4096

abbrev pub super_raw_size : ℕ
super_raw_size = 104

abbrev pub group_desc_bytes : ℕ
group_desc_bytes = 32

abbrev pub inode_bytes : ℕ
inode_bytes = 128

-- `Ext4GroupDesc`
abbrev pub bg_block_bitmap_lo : Bytes → ℕ
bg_block_bitmap_lo gd = le32 gd 0

abbrev pub bg_inode_bitmap_lo : Bytes → ℕ
bg_inode_bitmap_lo gd = le32 gd 4

abbrev pub bg_inode_table_lo : Bytes → ℕ
bg_inode_table_lo gd = le32 gd 8

abbrev pub bg_free_blocks_count_lo : Bytes → ℕ
bg_free_blocks_count_lo gd = le16 gd 12

abbrev pub bg_free_inodes_count_lo : Bytes → ℕ
bg_free_inodes_count_lo gd = le16 gd 14

-- `Ext4SuperblockRaw`
abbrev pub s_free_blocks_count_lo : Bytes → ℕ
s_free_blocks_count_lo raw = le32 raw 12

abbrev pub s_free_inodes_count : Bytes → ℕ
s_free_inodes_count raw = le32 raw 16

-- `Ext4Inode`, and `i_flags & EXT4_EXTENTS_FL`
abbrev pub i_size_lo : Bytes → ℕ
i_size_lo inode = le32 inode 4

abbrev pub i_size_high : Bytes → ℕ
i_size_high inode = le32 inode 108

abbrev pub has_extents : Bytes → Bool
has_extents inode = has_bit (le32 inode 32) 19

-- `Ext4ExtentHeader`, at the start of `i_block`
abbrev pub eh_magic : Bytes → ℕ
eh_magic inode = le16 inode 40

abbrev pub eh_entries : Bytes → ℕ
eh_entries inode = le16 inode 42

abbrev pub eh_depth : Bytes → ℕ
eh_depth inode = le16 inode 46

-- the test in front of every walk over extents, negated
abbrev pub is_leaf : Bytes → Bool
is_leaf inode = eh_magic inode == extent_magic && eh_depth inode == 0

-- `Ext4Extent`, with `ee_len & 0x7FFF` and `extent_start_block`
pub record Extent : Type 0 where
  pub ee_block : ℕ
  pub block_count : ℕ
  pub start_block : ℕ

-- `ext[i]`, which lies in the inode or is read beyond it.
unfoldable pub extent_at : Bytes → ℕ → Outcome Extent
extent_at inode i = elim (slice inode (52 + 12 * i) 12) [
  | ok e ↦ ok (record {
    ee_block = le32 e 0;
    block_count = le16 e 4 % 2 ^ 15;
    start_block = le16 e 6 * 2 ^ 32 + le32 e 8;
  })
  | fail ↦ fail
  | fault ↦ fault
]
