-- ===== src/Storage/Gpt.antt =====
-- Which entry `gpt_find_linux_partition` of drivers/storage/partition.c takes.
use native.Mathlib.Nat.{div-eq_of_lt}
use kagami_os.Prelude.{
  ℕ, suc, ◌+◌, ◌-◌, ◌/◌, ◌≤◌, ◌<◌, ◌≡◌, ◌≢◌, refl, sym, ap, ◌∙◌, true, false, not, ◌||◌, Option,
  some, arith, ltb, ◌==◌,
}
use kagami_os.Prelude.Bytes.{Bytes, Outcome, ok, fail, fault, le32, le64}
use kagami_os.Prelude.Cmd.{Cmd}
use kagami_os.Storage.{BlockDevice, IsDevice}
use kagami_os.Storage.Partition.{
  PartitionInfo, entry_place, read_sectors, read_entry, scan_entries, when_readable,
  gpt_find_linux_partition, gpt_signature,
}
use kagami_os.Storage.First.{First, First-map}
use kagami_os.Storage.Scan.{entry_at, TakenEntry, PassedEntry, scan_entries-First}
use kagami_os.Storage.Table.{table_entry, LinuxEntry}
use kagami_os.Storage.Entries.{
  read_entry-table, read_sectors-whole, is_linux-LinuxEntry, is_linux-other,
}

-- The entry that is taken is Linux and gives its two sectors, one that is passed over is not.
abbrev pub TakenAs : Bytes → PartitionInfo → Type 0
TakenAs e info = LinuxEntry e × (info.first_lba ≡ le64 e 32) × (info.last_lba ≡ le64 e 40)

abbrev pub NotLinux : Bytes → Type 0
NotLinux e = ¬ LinuxEntry e

-- The outcome of a search through the first `n` entries of a table, which is no fault.
abbrev pub FirstSafe :
    {D : Type 0} (read : D → ℕ → ℕ → Option Bytes) (d : D) (size lba n : ℕ)
    → Outcome PartitionInfo
    → Type 0
FirstSafe read d size lba n r =
    First (table_entry read d size lba) TakenAs NotLinux n 0 r × (r ≢ fault)

module _ {D : Type 0} (dev : BlockDevice D) (working : IsDevice dev)
    (read : D → ℕ → ℕ → Option Bytes) (d : D) (has : dev.read ≡ some read) (size : ℕ)
    (lo : 128 ≤ size) (hi : size ≤ 512) where
  no_fault :
      (lba n : ℕ) (r : Outcome PartitionInfo)
      → First (table_entry read d size lba) TakenAs NotLinux n 0 r
      → r ≢ fault
  no_fault lba n (ok info) f = λ bad. cc
  no_fault lba n fail f = λ bad. cc
  no_fault lba n fault (k, lt, at, ps) =
      let (_, _, safe) = read_entry-table dev working read d has size lo hi lba (0 + k) in
      absurd (safe at)

  scan_entries-FirstSafe :
      (lba n : ℕ) → FirstSafe read d size lba n (scan_entries dev size lba n 0 d).0
  scan_entries-FirstSafe lba n =
      let entry = read_entry-table dev working read d has size lo hi lba in
      let first =
        First-map (entry_at dev d size lba) (table_entry read d size lba) (TakenEntry dev d) TakenAs
          (PassedEntry dev d) NotLinux (λ j. (entry j).0)
          (λ j e info at (taken, same). (
            is_linux-LinuxEntry e ((entry j).1 e (sym (entry j).0 ∙ at)) taken,
            ap (λ (p : PartitionInfo). p.first_lba) same,
            ap (λ (p : PartitionInfo). p.last_lba) same,
          ))
          is_linux-other n 0 (scan_entries dev size lba n 0 d).0
          (scan_entries-First dev d size lba n 0).0 in
      (first, no_fault lba n (scan_entries dev size lba n 0 d).0 first)

module _ {D : Type 0} (dev : BlockDevice D) where
  pub when_readable_lem :
      {read : D → ℕ → ℕ → Option Bytes} (m : Cmd D PartitionInfo) (d : D)
      → dev.read ≡ some read
      → when_readable dev m d ≡ m d
  unfolding when_readable
  when_readable_lem m d has = rw has refl

  gpt_find_linux_partition-scan :
      (read : D → ℕ → ℕ → Option Bytes) (hdr : Bytes) (d : D)
      → dev.read ≡ some read
      → read_sectors dev 1 1 d ≡ (ok hdr, d)
      → le64 hdr 0 ≡ gpt_signature
      → 128 ≤ le32 hdr 84
      → le32 hdr 84 ≤ 4096
      → gpt_find_linux_partition dev d
        ≡ scan_entries dev (le32 hdr 84) (le64 hdr 72) (le32 hdr 80) 0 d
  unfolding gpt_find_linux_partition
  gpt_find_linux_partition-scan read hdr d has got sig lo hi =
      let size : ℕ = le32 hdr 84 in
      let signed : not (le64 hdr 0 == gpt_signature) ≡ false = ground arith in
      let sized : (ltb size 128 || ltb 4096 size) ≡ false = ground arith in
      when_readable_lem _ d has ∙ rw (got, signed, sized) refl

-- On a working device whose header is read, has the signature and gives entries of 128 to 512
-- bytes: of the entries as they lie on the disk, one behind the other and none across the end of a
-- sector, the search takes the first one with two nonzero addresses and the type
-- 0FC63DAF-8483-4772-8E79-3D69D8477DE4, and gives its two addresses. It fails at the first sector that
-- cannot be read before it or if there is no such entry, meets no undefined behaviour, and leaves the
-- medium as it was.
pub gpt_find_linux_partition-First :
    {D : Type 0} (dev : BlockDevice D) (read : D → ℕ → ℕ → Option Bytes) (hdr : Bytes) (d : D)
    → IsDevice dev
    → dev.read ≡ some read
    → read d 1 1 ≡ some hdr
    → le64 hdr 0 ≡ 0x5452415020494645
    → 128 ≤ le32 hdr 84
    → le32 hdr 84 ≤ 512
    → FirstSafe read d (le32 hdr 84) (le64 hdr 72) (le32 hdr 80) (gpt_find_linux_partition dev d).0
      × ((gpt_find_linux_partition dev d).1 ≡ d)
gpt_find_linux_partition-First dev read hdr d working has got sig lo hi =
    let size : ℕ = le32 hdr 84 in
    let lba : ℕ = le64 hdr 72 in
    let n : ℕ = le32 hdr 80 in
    let (header, _) = read_sectors-whole dev working read d has 1 hdr got in
    rw (gpt_find_linux_partition-scan dev read hdr d has header sig lo (omega arith)) (
      scan_entries-FirstSafe dev working read d has size lo hi lba n,
      (scan_entries-First dev d size lba n 0).1,
    )

entry_place_fault : (size lba i : ℕ) → 512 < size → entry_place size lba i ≡ fault
unfolding entry_place
entry_place_fault size lba i lo =
    let none_fits : (512 / size == 0) ≡ true = ground (arith, div-eq_of_lt lo) in rw none_fits refl

-- On any device that delivers a header with the signature, at least one entry and entries of 513
-- to 4096 bytes: the header passes the check, the first entry is then looked for with a division by
-- zero, and the medium is as it was.
pub gpt_find_linux_partition-fault :
    {D : Type 0} (dev : BlockDevice D) (read : D → ℕ → ℕ → Option Bytes) (hdr : Bytes) (d : D)
    → dev.read ≡ some read
    → read_sectors dev 1 1 d ≡ (ok hdr, d)
    → le64 hdr 0 ≡ gpt_signature
    → 512 < le32 hdr 84
    → le32 hdr 84 ≤ 4096
    → 0 < le32 hdr 80
    → gpt_find_linux_partition dev d ≡ (fault, d)
unfolding scan_entries read_entry
gpt_find_linux_partition-fault dev read hdr d has got sig lo hi some_entry =
    let more : le32 hdr 80 ≡ suc (le32 hdr 80 - 1) = omega arith in
    gpt_find_linux_partition-scan dev read hdr d has got sig (omega arith) hi
    ∙ ap (λ n. scan_entries dev (le32 hdr 84) (le64 hdr 72) n 0 d) more
    ∙ rw (entry_place_fault (le32 hdr 84) (le64 hdr 72) 0 lo) refl
