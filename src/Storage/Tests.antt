-- ===== src/Storage/Tests.antt =====
-- Disks with a GPT and with an MBR, and the searches and the registry at them.
use kagami_os.Prelude.{ℕ, ◌≡◌, ◌≤◌, refl, Option, none, some, List, [], ◌∷◌, ◌++◌, arith, replicate}
use kagami_os.Prelude.Bytes.{Bytes, ok, fail, fault, bytes32, slice}
use kagami_os.Storage.{dev_read}
use kagami_os.Storage.Registry.{
  pos, negsuc, block_get, block_count, register_all, block_get-register_all,
}
use kagami_os.Storage.Journal.{Medium, journal, journal-IsDevice, recall, find}
use kagami_os.Storage.Partition.{
  gpt_linux_fs_guid, partition, read_sectors, gpt_find_linux_partition, mbr_find_linux_partition,
  find_linux_partition, or_else, when_readable, scan_entries, read_entry, entry_place, is_linux,
  guid_equal, scan_parts, is_linux_part, raw_find_ext4,
}
use kagami_os.Storage.Gpt.{
  FirstSafe, gpt_find_linux_partition-First, gpt_find_linux_partition-fault,
}
use kagami_os.Storage.Mbr.{FirstSlot, mbr_find_linux_partition-FirstSlot}

-- a header with `size` bytes for each of two entries from sector 2 on
abbrev header : ℕ → Bytes
header size =
    (0x45 ∷ 0x46 ∷ 0x49 ∷ 0x20 ∷ 0x50 ∷ 0x41 ∷ 0x52 ∷ 0x54 ∷ [])
    ++ (replicate 64 0 ++ ((2 ∷ replicate 7 0) ++ (bytes32 2 ++ (bytes32 size ++ replicate 424 0))))

-- an empty entry, and one for sectors 64 to 127
abbrev entries : Bytes
entries =
    replicate 128 0
    ++ (gpt_linux_fs_guid
        ++ (replicate 16 1 ++ ((64 ∷ replicate 7 0) ++ ((127 ∷ replicate 7 0) ++ replicate 336 0))))

abbrev gpt_disk : ℕ → Medium
gpt_disk size = (1, 1, header size) ∷ (2, 1, entries) ∷ []

gpt_runs :
    find_linux_partition (some journal) (gpt_disk 128) ≡ (ok (partition 64 127), gpt_disk 128)
unfolding find_linux_partition or_else gpt_find_linux_partition when_readable read_sectors dev_read
    recall find slice scan_entries read_entry entry_place is_linux guid_equal
gpt_runs = refl

-- slot 1 has type 0x83 and the sectors 64 to 95
abbrev mbr : Bytes
mbr =
    replicate 446 0
    ++ (replicate 16 0
        ++ ((0 ∷ 0 ∷ 0 ∷ 0 ∷ 0x83 ∷ 0 ∷ 0 ∷ 0 ∷ bytes32 64)
            ++ (bytes32 32 ++ (replicate 32 0 ++ (0x55 ∷ 0xaa ∷ [])))))

abbrev mbr_disk : Medium
mbr_disk = (0, 1, mbr) ∷ []

mbr_runs : find_linux_partition (some journal) mbr_disk ≡ (ok (partition 64 95), mbr_disk)
unfolding find_linux_partition or_else gpt_find_linux_partition mbr_find_linux_partition
    when_readable read_sectors dev_read recall find slice scan_parts is_linux_part
mbr_runs = refl

blank_runs : find_linux_partition (some journal) [] ≡ (fail, [])
unfolding find_linux_partition or_else gpt_find_linux_partition mbr_find_linux_partition
    raw_find_ext4 when_readable read_sectors dev_read recall find slice
blank_runs = refl

header_read :
    (size : ℕ) → read_sectors journal 1 1 (gpt_disk size) ≡ (ok (header size), gpt_disk size)
unfolding read_sectors dev_read recall find slice
header_read size = refl

header_found : recall (gpt_disk 128) 1 1 ≡ some (header 128)
unfolding recall find
header_found = refl

mbr_read : read_sectors journal 0 1 mbr_disk ≡ (ok mbr, mbr_disk)
unfolding read_sectors dev_read recall find slice
mbr_read = refl

gpt_find_linux_partition-First_example :
    FirstSafe recall (gpt_disk 128) 128 2 2 (gpt_find_linux_partition journal (gpt_disk 128)).0
    × ((gpt_find_linux_partition journal (gpt_disk 128)).1 ≡ gpt_disk 128)
gpt_find_linux_partition-First_example =
    gpt_find_linux_partition-First journal recall (header 128) (gpt_disk 128) journal-IsDevice refl
      header_found refl (omega arith) (omega arith)

gpt_find_linux_partition-fault_example :
    gpt_find_linux_partition journal (gpt_disk 1024) ≡ (fault, gpt_disk 1024)
gpt_find_linux_partition-fault_example =
    gpt_find_linux_partition-fault journal recall (header 1024) (gpt_disk 1024) refl
      (header_read 1024) refl (omega arith) (omega arith) (omega arith)

mbr_find_linux_partition-FirstSlot_example :
    FirstSlot mbr (mbr_find_linux_partition journal mbr_disk).0
    × ((mbr_find_linux_partition journal mbr_disk).1 ≡ mbr_disk)
mbr_find_linux_partition-FirstSlot_example =
    mbr_find_linux_partition-FirstSlot journal recall mbr mbr_disk refl mbr_read refl refl

abbrev calls : List (Option ℕ)
calls = some 5 ∷ none ∷ some 6 ∷ []

block_get-register_all_example :
    (block_get (pos 1) (register_all calls []) ≡ some 6)
    × (block_get (negsuc 1) (register_all calls []) ≡ none)
    × (block_count (register_all calls []) ≤ 8)
    × (block_count (register_all calls []) ≤ 2)
block_get-register_all_example = block_get-register_all calls 1
