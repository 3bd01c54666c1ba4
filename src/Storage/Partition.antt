-- ===== src/Storage/Partition.antt =====
-- drivers/storage/partition.c: the search for a Linux partition in a GPT, in an MBR, and on a disk
-- that is one filesystem. A result is what is stored in `*out`; the messages are left out.
use kagami_os.Prelude.{
  ℕ, zero, suc, ◌+◌, ◌-◌, ◌*◌, ◌/◌, ◌%◌, Bool, true, false, not, ◌&&◌, ◌||◌, Option, none, some, [],
  ◌∷◌, ltb, ◌==◌, if◌then◌else◌, u32, u64, take,
}
use kagami_os.Prelude.Bytes.{Bytes, Outcome, ok, fail, fault, byte, le16, le32, le64, slice}
use kagami_os.Prelude.Cmd.{Cmd, pure, give_up, lift, attempt, ◌>>=◌}
use kagami_os.Storage.{BlockDevice, dev_read, sector_size}

-- `PartitionInfo`
pub record PartitionInfo : Type 0 where
  pub first_lba : ℕ
  pub last_lba : ℕ

abbrev pub partition : ℕ → ℕ → PartitionInfo
partition a b = record { first_lba = a; last_lba = b }

abbrev pub gpt_linux_fs_guid : Bytes
gpt_linux_fs_guid =
    0xaf ∷ 0x3d ∷ 0xc6 ∷ 0x0f ∷ 0x83 ∷ 0x84 ∷ 0x72 ∷ 0x47 ∷ 0x8e ∷ 0x79 ∷ 0x3d ∷ 0x69 ∷ 0xd8 ∷ 0x47
    ∷ 0x7d ∷ 0xe4 ∷ []

abbrev pub gpt_signature : ℕ
gpt_signature = 0x5452415020494645

-- `sizeof(GptEntry)`
abbrev pub gpt_entry_bytes : ℕ
gpt_entry_bytes = 128

-- The loop ends with the 16 bytes.
unfoldable pub guid_equal : Bytes → Bytes → Bool
guid_equal (a ∷ xs) (b ∷ ys) = if a == b then guid_equal xs ys else false
guid_equal [] ys = true
guid_equal (a ∷ xs) [] = true

-- Whether an entry is taken, and what it is taken as.
unfoldable pub is_linux : Bytes → Bool
is_linux entry =
    if (le64 entry 32 == 0) || (le64 entry 40 == 0)
    then false
    else guid_equal (take 16 entry) gpt_linux_fs_guid

abbrev pub entry_info : Bytes → PartitionInfo
entry_info entry = partition (le64 entry 32) (le64 entry 40)

-- Sector and offset of entry `idx`; no entry in a sector makes the division undefined.
unfoldable pub entry_place : (entry_size entries_lba idx : ℕ) → Outcome (ℕ × ℕ)
entry_place entry_size entries_lba idx =
    let entries_per_sector = sector_size / entry_size in
    if entries_per_sector == 0
    then fault
    else ok
        (u64 (entries_lba + idx / entries_per_sector), u32 (idx % entries_per_sector * entry_size))

-- Slot `i` of the MBR: its type, first sector and number of sectors.
abbrev pub part_at : Bytes → ℕ → ℕ
part_at mbr i = 446 + 16 * i

unfoldable pub is_linux_part : Bytes → ℕ → Bool
is_linux_part mbr i =
    (byte mbr (part_at mbr i + 4) == 0x83) && ltb 0 (le32 mbr (part_at mbr i + 12))

-- The sum is one of 32 bit numbers.
abbrev pub part_info : Bytes → ℕ → PartitionInfo
part_info mbr i =
    let first = le32 mbr (part_at mbr i + 8) in
    partition first (u32 (first + le32 mbr (part_at mbr i + 12) - 1))

-- The loop over the `n` slots from `i` on.
unfoldable pub scan_parts : (n i : ℕ) → Bytes → Outcome PartitionInfo
scan_parts zero i mbr = fail
scan_parts (suc n) i mbr =
    let rest = scan_parts n (i + 1) mbr in
    if is_linux_part mbr i then ok (part_info mbr i) else rest

module _ {D : Type 0} (dev : BlockDevice D) where
  -- A sector or two; a driver that delivers less leaves bytes of the buffer undefined.
  unfoldable pub read_sectors : (lba count : ℕ) → Cmd D Bytes
  read_sectors lba count = do
    buf ← dev_read dev (sector_size * count) lba count
    lift (slice buf 0 (sector_size * count))

  unfoldable pub read_entry : (entry_size entries_lba idx : ℕ) → Cmd D Bytes
  read_entry entry_size entries_lba idx = do
    (lba, offset) ← lift (entry_place entry_size entries_lba idx)
    buf ← read_sectors lba 1
    lift (slice buf offset gpt_entry_bytes)

  -- The loop over the `n` entries from `idx` on.
  unfoldable pub scan_entries : (entry_size entries_lba n idx : ℕ) → Cmd D PartitionInfo
  scan_entries entry_size entries_lba zero idx = give_up
  scan_entries entry_size entries_lba (suc n) idx = do
    entry ← read_entry entry_size entries_lba idx
    if is_linux entry
        then pure (entry_info entry)
        else scan_entries entry_size entries_lba n (idx + 1)

  -- The test of `dev->read` in front of each search.
  unfoldable pub when_readable : Cmd D PartitionInfo → Cmd D PartitionInfo
  when_readable m = elim dev.read [ none ↦ give_up | some _ ↦ m ]

  unfoldable pub gpt_find_linux_partition : Cmd D PartitionInfo
  gpt_find_linux_partition = when_readable (do
    hdr ← read_sectors 1 1
    let entry_size = le32 hdr 84
    if not (le64 hdr 0 == gpt_signature)
        then give_up
        else if ltb entry_size gpt_entry_bytes || ltb 4096 entry_size
        then give_up
        else scan_entries entry_size (le64 hdr 72) (le32 hdr 80) 0)

  unfoldable pub mbr_find_linux_partition : Cmd D PartitionInfo
  mbr_find_linux_partition = when_readable (do
    mbr ← read_sectors 0 1
    if not (byte mbr 510 == 0x55) || not (byte mbr 511 == 0xaa)
        then give_up
        else lift (scan_parts 4 0 mbr))

  unfoldable pub raw_find_ext4 : Cmd D PartitionInfo
  raw_find_ext4 = when_readable (do
    buf ← read_sectors 2 2
    if not (le16 buf 56 == 0xef53) then give_up else pure (partition 0 (dev.total_sectors - 1)))

  -- The first of the three searches that succeeds.
  unfoldable pub or_else : Cmd D PartitionInfo → Cmd D PartitionInfo → Cmd D PartitionInfo
  or_else m n = do found ← attempt m; elim found [ some info ↦ pure info | none ↦ n ]

-- The pointer `out` is not null.
unfoldable pub find_linux_partition : {D : Type 0} → Option (BlockDevice D) → Cmd D PartitionInfo
find_linux_partition none = give_up
find_linux_partition (some dev) =
    or_else dev (gpt_find_linux_partition dev)
      (or_else dev (mbr_find_linux_partition dev) (raw_find_ext4 dev))
