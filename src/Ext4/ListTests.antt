-- ===== src/Ext4/ListTests.antt =====
-- A small volume whose root directory holds one file, the listing of that directory, and a copy from
-- its block.
use kagami_os.Prelude.{
  All, take, drop, ◌+◌, ◌≡◌, ◌≤◌, refl, [], ◌∷◌, ◌++◌, arith, length, replicate,
}
use kagami_os.Prelude.Bytes.{Bytes, ok, slice, bytes16, bytes32}
use kagami_os.Prelude.Text.{codes}
use kagami_os.Prelude.Ensures.{Ensures, NoFault}
use kagami_os.Storage.{dev_read}
use kagami_os.Storage.Journal.{Medium, journal, journal-IsDevice, recall, find}
use kagami_os.Ext4.Layout.{Ext4Fs, extent_at}
use kagami_os.Ext4.Blocks.{
  ext4_read_block, ext4_read_inode, ext4_read_group_desc, group_desc_place, inode_place, div_mod,
}
use kagami_os.Ext4.Path.{ext4_resolve_path, resolve_loop, skip_slashes}
use kagami_os.Ext4.Dir.{head_at, name_eq}
use kagami_os.Ext4.Listing.{
  ext4_list_dir, list_extents, list_blocks, list_block, list_entry, is_dots,
}
use kagami_os.Prelude.Bytes.{IsByte}
use kagami_os.Ext4.Listed.{ext4_list_dir_fits}
use kagami_os.Ext4.Extents.{
  ext4_read_extent_blocks, read_extents, read_blocks, read_part, copy_behind,
}
use kagami_os.Ext4.Copy.{ext4_read_extent_blocks_fits}

-- the inode table in block 5
abbrev groups : Bytes
groups = replicate 8 0 ++ (bytes32 5 ++ replicate 1012 0)

-- inode 2: one extent of one block, block 6
abbrev root : Bytes
root =
    replicate 32 0
    ++ (bytes32 0x80000
        ++ (replicate 4 0
            ++ (bytes16 0xf30a
                ++ (bytes16 1
                    ++ (bytes16 4
                        ++ (replicate 6 0
                            ++ (bytes32 0
                                ++ (bytes16 1
                                    ++ (bytes16 0 ++ (bytes32 6 ++ replicate 64 0))))))))))

abbrev inodes : Bytes
inodes = replicate 128 0 ++ (root ++ replicate 768 0)

-- the entry `a`, inode 12
abbrev names : Bytes
names = 12 ∷ 0 ∷ 0 ∷ 0 ∷ 32 ∷ 0 ∷ 1 ∷ 1 ∷ b'a' ∷ replicate 1015 0

abbrev volume : Medium
volume = (4, 2, groups) ∷ (10, 2, inodes) ∷ (12, 2, names) ∷ []

abbrev mounted : Ext4Fs Medium
mounted = record {
  device = journal;
  sb = record {
    block_size = 1024;
    inodes_per_group = 8;
    inode_size = 128;
    blocks_per_group = 64;
    total_blocks = 64;
    total_inodes = 8;
    features_compat = 0;
    features_incompat = 0;
    features_ro_compat = 0;
    first_data_block = 1;
    group_desc_size = 32;
  };
  partition_lba = 0;
}

list_runs : ext4_list_dir mounted 100 (codes "/") volume ≡ (ok (b'a' ∷ 10 ∷ []), volume)
unfolding ext4_list_dir list_extents list_blocks list_block list_entry is_dots ext4_resolve_path
    resolve_loop skip_slashes head_at name_eq ext4_read_block ext4_read_inode ext4_read_group_desc
    group_desc_place inode_place div_mod dev_read recall find slice extent_at
list_runs = refl

ext4_list_dir_fits_example :
    Ensures (λ text. length text + 1 ≤ 100) (ext4_list_dir mounted 100 (codes "/") volume)
ext4_list_dir_fits_example = ext4_list_dir_fits mounted 100 (omega arith) (codes "/") volume

names-IsByte : All IsByte (take 32 names)
names-IsByte = omega arith

read_runs :
    ext4_read_extent_blocks mounted root 2 100 volume ≡ (ok (take 100 (drop 2 names)), volume)
unfolding ext4_read_extent_blocks read_extents read_blocks read_part copy_behind ext4_read_block
    dev_read recall find slice extent_at
read_runs = refl

ext4_read_extent_blocks_fits_example :
    NoFault (λ out. length out ≤ 100) (ext4_read_extent_blocks mounted root 2 100 volume)
ext4_read_extent_blocks_fits_example =
    ext4_read_extent_blocks_fits mounted recall journal-IsDevice refl (omega arith) (omega arith)
      refl 100 (omega arith) 2 (omega arith) root volume (omega arith)
