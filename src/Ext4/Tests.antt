-- ===== src/Ext4/Tests.antt =====
-- Runs of the filesystem on a device that remembers every write, and its theorems there.
use kagami_os.Prelude.{
  ℕ, ◌+◌, ◌≤◌, ◌≡◌, ◌⊎◌, inr, refl, true, ◌&&◌, none, some, [], ◌∷◌, ◌++◌, arith, length-replicate,
  replicate, ltb, leb, if◌then◌else◌, All,
}
use kagami_os.Prelude.Bytes.{Bytes, ok, fault, splice, slice, patch}
use kagami_os.Prelude.Text.{codes}
use kagami_os.Prelude.Bytes.{IsByte}
use kagami_os.Storage.{dev_write}
use kagami_os.Storage.Journal.{Medium, journal, journal-IsDevice, recall, record_write, find}
use kagami_os.Ext4.Layout.{Ext4Fs, ft_dir}
use kagami_os.Ext4.Blocks.{
  ext4_write_inode, ext4_read_inode, ext4_write_super_raw, div_mod, group_desc_place,
}
use kagami_os.Ext4.Path.{ext4_resolve_path}
use kagami_os.Ext4.Resolve.{components, split, walk, ext4_resolve_path-walk}
use kagami_os.Ext4.Alloc.{find_run, mark_run, bit_at, set_bit}
use kagami_os.Ext4.Bitmap.{FirstRun, find_run_lem, runs_disjoint}
use kagami_os.Ext4.Mark.{mark_run_lem}
use kagami_os.Ext4.Inode.{Placed, read_inode-write_inode, ext4_write_super_raw_erases}
use kagami_os.Ext4.Dir.{
  scan_block, insert_in_block, head_at, align4, name_eq, entry_matches, insert_at,
}
use kagami_os.Ext4.Fuel.{Ends, scan_block_fuel}

-- a filesystem of 1024 byte blocks on an untouched medium
abbrev blank : Ext4Fs Medium
blank = record {
  device = journal;
  sb = record {
    block_size = 1024;
    inodes_per_group = 8;
    inode_size = 128;
    blocks_per_group = 64;
    total_blocks = 64;
    total_inodes = 8;
    features_compat = 0;
    features_incompat = 0;
    features_ro_compat = 0;
    first_data_block = 1;
    group_desc_size = 32;
  };
  partition_lba = 0;
}

abbrev zeros : Bytes
zeros = replicate 1024 0

first_inode : Placed blank recall record_write refl refl [] 1
unfolding div_mod group_desc_place recall find
first_inode = record {
  group = 0;
  index = 0;
  in_group = refl;
  gd_block = 2;
  gd_off = 0;
  gd_place = refl;
  gd_buf = zeros;
  gd_read = refl;
  gd_small = omega (arith, length-replicate {A = ℕ} 1024 0);
  gd_inside = omega (arith, length-replicate {A = ℕ} 1024 0);
  q = 0;
  off = 0;
  in_table = refl;
  block = 0;
  block_eq = refl;
  buf = zeros;
  buf_read = refl;
  buf_small = omega (arith, length-replicate {A = ℕ} 1024 0);
  inside = omega (arith, length-replicate {A = ℕ} 1024 0);
  apart = inr (omega arith);
}

abbrev inode : Bytes
inode = replicate 128 7

-- the medium with that inode written
abbrev after : Medium
after = (0, 2, splice 0 inode zeros) ∷ []

read_inode-write_inode_example :
    (ext4_write_inode blank 1 inode [] ≡ (ok tt, after))
    × (ext4_read_inode blank 1 after ≡ (ok inode, after))
unfolding first_inode record_write
read_inode-write_inode_example =
    read_inode-write_inode blank recall record_write refl refl [] after 1 inode first_inode
      journal-IsDevice refl refl

abbrev raw : Bytes
raw = replicate 104 5

ext4_write_super_raw_erases_example :
    recall ((2, 2, raw ++ replicate 920 0) ∷ []) 2 2 ≡ some (raw ++ replicate 920 0)
unfolding ext4_write_super_raw dev_write record_write
ext4_write_super_raw_erases_example =
    ext4_write_super_raw_erases blank recall record_write refl refl []
      ((2, 2, raw ++ replicate 920 0) ∷ []) raw journal-IsDevice refl refl

components_runs : components (codes "home//root/a") ≡ codes "home" ∷ codes "root" ∷ codes "a" ∷ []
unfolding components split
components_runs = refl

ext4_resolve_path-walk_example :
    ext4_resolve_path blank (b'/' ∷ codes "a//b") ≡ walk blank (components (codes "a//b")) 2 ft_dir
ext4_resolve_path-walk_example = ext4_resolve_path-walk blank (codes "a//b")

-- 0xF7 has bit 3 clear
abbrev bitmap : Bytes
bitmap = 0xf7 ∷ 0x01 ∷ 0 ∷ []

searches :
    (find_run 24 1 bitmap 0 0 0 ≡ ok (some 3))
    × (find_run 24 4 bitmap 0 0 0 ≡ ok (some 9))
    × (mark_run 4 bitmap 9 ≡ ok (0xf7 ∷ 0x1f ∷ 0 ∷ []))
    × (find_run 24 12 (0xf7 ∷ 0x1f ∷ 0 ∷ []) 0 0 0 ≡ ok none)
    × (find_run 32 12 (0xf7 ∷ 0x1f ∷ 0 ∷ []) 0 0 0 ≡ fault)
unfolding find_run mark_run bit_at set_bit
searches = (refl, refl, refl, refl, refl)

find_run_lem_example : FirstRun bitmap 4 24 (find_run 24 4 bitmap 0 0 0)
find_run_lem_example = find_run_lem 24 4 bitmap (omega arith)

mark_run_lem_example :
    All IsByte (0xf7 ∷ 0x1f ∷ 0 ∷ [])
    × ((j : ℕ)
        → bit_at (0xf7 ∷ 0x1f ∷ 0 ∷ []) j
          ≡ (if leb 9 j && ltb j (9 + 4) then ok true else bit_at bitmap j))
unfolding mark_run set_bit
mark_run_lem_example = mark_run_lem 4 bitmap (0xf7 ∷ 0x1f ∷ 0 ∷ []) 9 (omega arith) refl

runs_disjoint_example : (9 + 4 ≤ 13) ⊎ (13 + 5 ≤ 9)
unfolding find_run mark_run bit_at set_bit
runs_disjoint_example =
    runs_disjoint 24 24 4 5 9 13 bitmap (0xf7 ∷ 0x1f ∷ 0 ∷ []) (omega arith) (omega arith)
      (omega arith) refl refl refl

-- a directory block of 32 bytes: the entry `a`, inode 12, takes all of it
abbrev dir_block : Bytes
dir_block = 12 ∷ 0 ∷ 0 ∷ 0 ∷ 32 ∷ 0 ∷ 1 ∷ 1 ∷ b'a' ∷ replicate 23 0

-- the entry `bc`, inode 13, behind it
abbrev dir_block' : Bytes
dir_block' =
    12
    ∷ 0
    ∷ 0
    ∷ 0
    ∷ 12
    ∷ 0
    ∷ 1
    ∷ 1
    ∷ b'a'
    ∷ 0
    ∷ 0
    ∷ 0
    ∷ 13
    ∷ 0
    ∷ 0
    ∷ 0
    ∷ 20
    ∷ 0
    ∷ 2
    ∷ 1
    ∷ b'b'
    ∷ b'c'
    ∷ replicate 10 0

directory_runs :
    (insert_in_block 32 32 dir_block 0 13 1 (codes "bc") ≡ some (ok (some dir_block')))
    × (scan_block 32 32 dir_block 0 (codes "bc") ≡ some (ok none))
    × (scan_block 32 32 dir_block' 0 (codes "bc")
        ≡ some (ok (some (record { inode = 13; rec_len = 20; name_len = 2; file_type = 1 }))))
unfolding insert_in_block scan_block head_at align4 name_eq entry_matches insert_at slice patch
directory_runs = (refl, refl, refl)

scan_block_fuel_example :
    Ends (scan_block 33 32 dir_block' 0 (codes "x")) (scan_block 90 32 dir_block' 0 (codes "x"))
scan_block_fuel_example =
    scan_block_fuel 32 dir_block' (omega arith) (omega arith) (codes "x") 32 89 0 (omega arith)
      (omega arith)
