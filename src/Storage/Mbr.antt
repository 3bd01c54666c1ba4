-- ===== src/Storage/Mbr.antt =====
-- Which slot `mbr_find_linux_partition` of drivers/storage/partition.c takes, and in which order
-- `find_linux_partition` searches.
use kagami_os.Prelude.{
  ℕ, zero, suc, ◌+◌, ◌-◌, ◌*◌, ◌%◌, ◌^◌, ◌<◌, ◌≡◌, refl, ap, ◌∙◌, true, false, not, ◌||◌, Option,
  some, arith, ◌==◌, Bool-cases, inl, inr,
}
use kagami_os.Prelude.Bytes.{Bytes, Outcome, ok, fail, fault, byte, le32}
use kagami_os.Storage.{BlockDevice}
use kagami_os.Storage.Gpt.{when_readable_lem}
use kagami_os.Storage.Partition.{
  PartitionInfo, read_sectors, is_linux_part, part_info, scan_parts, mbr_find_linux_partition,
}

-- the first of the slots `i` to `i + n - 1` that passes the source's test, or none
abbrev FirstPassing : (n i : ℕ) → Bytes → Outcome PartitionInfo → Type 0
FirstPassing n i mbr (ok info) =
    (k : ℕ) × (k < n)
    × (is_linux_part mbr (i + k) ≡ true)
    × (info ≡ part_info mbr (i + k))
    × ((j : ℕ) → j < k → is_linux_part mbr (i + j) ≡ false)
FirstPassing n i mbr fail = (j : ℕ) → j < n → is_linux_part mbr (i + j) ≡ false
FirstPassing n i mbr fault = ⊥

-- Slot `k` of the table at byte 446, with 16 bytes for each slot: type 0x83 in byte 4, and a nonzero
-- number of sectors in the bytes 12 to 15.
abbrev pub LinuxSlot : Bytes → (k : ℕ) → Type 0
LinuxSlot mbr k = (byte mbr (446 + 16 * k + 4) ≡ 0x83) × (0 < le32 mbr (446 + 16 * k + 12))

-- The first of the four slots that is a Linux partition, from the sector in its bytes 8 to 11 to the
-- last of its sectors in 32 bits, or none.
abbrev pub FirstSlot : Bytes → Outcome PartitionInfo → Type 0
FirstSlot mbr (ok info) =
    (k : ℕ) × (k < 4)
    × LinuxSlot mbr k
    × (info.first_lba ≡ le32 mbr (446 + 16 * k + 8))
    × (info.last_lba ≡ (le32 mbr (446 + 16 * k + 8) + le32 mbr (446 + 16 * k + 12) - 1) % 2 ^ 32)
    × ((j : ℕ) → j < k → ¬ LinuxSlot mbr j)
FirstSlot mbr fail = (j : ℕ) → j < 4 → ¬ LinuxSlot mbr j
FirstSlot mbr fault = ⊥

is_linux_part-LinuxSlot : (mbr : Bytes) (k : ℕ) → is_linux_part mbr k ≡ true → LinuxSlot mbr k
unfolding is_linux_part
is_linux_part-LinuxSlot mbr k h = (ground arith, ground arith)

is_linux_part-other : (mbr : Bytes) (k : ℕ) → is_linux_part mbr k ≡ false → ¬ LinuxSlot mbr k
unfolding is_linux_part
is_linux_part-other mbr k h = λ (type, count). ground arith

FirstPassing-FirstSlot :
    (mbr : Bytes) (r : Outcome PartitionInfo) → FirstPassing 4 0 mbr r → FirstSlot mbr r
FirstPassing-FirstSlot mbr (ok info) (k, lt, taken, same, ps) =
    let same' : info ≡ part_info mbr k = same ∙ ap (part_info mbr) (omega arith) in
    (
      k,
      lt,
      is_linux_part-LinuxSlot mbr k (ap (is_linux_part mbr) (omega arith) ∙ taken),
      ap (λ (p : PartitionInfo). p.first_lba) same',
      ap (λ (p : PartitionInfo). p.last_lba) same',
      λ j below. is_linux_part-other mbr j (ap (is_linux_part mbr) (omega arith) ∙ ps j below),
    )
FirstPassing-FirstSlot mbr fail ps =
    λ j below. is_linux_part-other mbr j (ap (is_linux_part mbr) (omega arith) ∙ ps j below)
FirstPassing-FirstSlot mbr fault bad = bad

module _ (mbr : Bytes) where
  passed_more :
      (n i : ℕ)
      → is_linux_part mbr i ≡ false
      → ((j : ℕ) → j < n → is_linux_part mbr (i + 1 + j) ≡ false)
      → (j : ℕ) → j < suc n
      → is_linux_part mbr (i + j) ≡ false
  passed_more n i e ps zero lt = ap (is_linux_part mbr) (omega arith) ∙ e
  passed_more n i e ps (suc j) lt = ap (is_linux_part mbr) (omega arith) ∙ ps j (omega arith)

  FirstPassing-more :
      (n i : ℕ) (r : Outcome PartitionInfo)
      → is_linux_part mbr i ≡ false
      → FirstPassing n (i + 1) mbr r
      → FirstPassing (suc n) i mbr r
  FirstPassing-more n i (ok info) e (k, lt, taken, same, ps) =
      let there : i + 1 + k ≡ i + suc k = omega arith in
      (
        suc k,
        omega arith,
        ap (is_linux_part mbr) (omega arith) ∙ taken,
        same ∙ ap (part_info mbr) there,
        passed_more k i e ps,
      )
  FirstPassing-more n i fail e ps = passed_more n i e ps
  FirstPassing-more n i fault e bad = absurd bad

  scan_parts-FirstPassing : (n i : ℕ) → FirstPassing n i mbr (scan_parts n i mbr)
  unfolding scan_parts
  scan_parts-FirstPassing zero i = λ j lt. absurd (omega arith)
  scan_parts-FirstPassing (suc n) i = elim (Bool-cases (is_linux_part mbr i)) [
    | inl e ↦
        let here : i ≡ i + 0 = omega arith in
        rw e (
          zero,
          omega arith,
          ap (is_linux_part mbr) (omega arith) ∙ e,
          ap (part_info mbr) here,
          λ j lt. absurd (omega arith),
        )
    | inr e ↦
        rw e
          (FirstPassing-more n i (scan_parts n (i + 1) mbr) e (scan_parts-FirstPassing n (i + 1)))
  ]

-- On any device that delivers a first sector with the signature 0x55 0xaa: the search takes the
-- first of the four slots that has type 0x83 and a nonzero number of sectors, as the sectors from
-- the slot's first to its last, fails only if there is none, and leaves the medium as it was.
pub mbr_find_linux_partition-FirstSlot :
    {D : Type 0} (dev : BlockDevice D) (read : D → ℕ → ℕ → Option Bytes) (mbr : Bytes) (d : D)
    → dev.read ≡ some read
    → read_sectors dev 0 1 d ≡ (ok mbr, d)
    → byte mbr 510 ≡ 0x55
    → byte mbr 511 ≡ 0xaa
    → FirstSlot mbr (mbr_find_linux_partition dev d).0 × ((mbr_find_linux_partition dev d).1 ≡ d)
unfolding mbr_find_linux_partition
mbr_find_linux_partition-FirstSlot dev read mbr d has got a b =
    let signed : (not (byte mbr 510 == 0x55) || not (byte mbr 511 == 0xaa)) ≡ false =
      ground arith in
    let found : mbr_find_linux_partition dev d ≡ (scan_parts 4 0 mbr, d) =
      when_readable_lem dev _ d has ∙ rw (got, signed) refl in
    rw found
      (FirstPassing-FirstSlot mbr (scan_parts 4 0 mbr) (scan_parts-FirstPassing mbr 4 0), refl)
