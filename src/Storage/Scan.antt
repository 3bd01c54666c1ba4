-- ===== src/Storage/Scan.antt =====
-- The loop of `gpt_find_linux_partition` in drivers/storage/partition.c over any table of entries.
use native.Mathlib.Nat.{}
use kagami_os.Prelude.{
  ℕ, zero, suc, ◌+◌, ◌*◌, ◌≡◌, refl, ap, ap₂, ◌∙◌, true, false, arith, Bool-cases, inl, inr,
}
use kagami_os.Prelude.Bytes.{Bytes, Outcome, ok, fail, fault, slice, Outcome-cases}
use kagami_os.Prelude.Cmd.{Cmd, and_then}
use kagami_os.Storage.{BlockDevice, dev_read, sector_size}
use kagami_os.Storage.First.{First, First-more}
use kagami_os.Storage.Partition.{
  PartitionInfo, is_linux, entry_info, entry_place, read_sectors, read_entry, scan_entries,
}

module _ {A B D : Type 0} where
  keeps_bind :
      (r : Outcome A × D) (f : A → Cmd D B) (d : D)
      → r.1 ≡ d
      → ((a : A) (d' : D) → d' ≡ d → (f a d').1 ≡ d)
      → (and_then r f).1 ≡ d
  keeps_bind (ok a, d') f d e next = next a d' e
  keeps_bind (fail, d') f d e next = e
  keeps_bind (fault, d') f d e next = e

module _ {D : Type 0} (dev : BlockDevice D) (d : D) where
  -- entry `i` of the table, as the device holds it
  abbrev pub entry_at : (entry_size entries_lba : ℕ) → ℕ → Outcome Bytes
  entry_at size lba i = (read_entry dev size lba i d).0

  abbrev pub TakenEntry : Bytes → PartitionInfo → Type 0
  TakenEntry e info = (is_linux e ≡ true) × (info ≡ entry_info e)

  abbrev pub PassedEntry : Bytes → Type 0
  PassedEntry e = is_linux e ≡ false

  abbrev pub FirstEntry : (size lba n i : ℕ) → Outcome PartitionInfo → Type 0
  FirstEntry size lba = First (entry_at size lba) TakenEntry PassedEntry

  dev_read_keeps : (room lba count : ℕ) (d' : D) → d' ≡ d → (dev_read dev room lba count d').1 ≡ d
  unfolding dev_read
  dev_read_keeps room lba count d' e = ground arith

  read_sectors_keeps : (lba count : ℕ) (d' : D) → d' ≡ d → (read_sectors dev lba count d').1 ≡ d
  unfolding read_sectors
  read_sectors_keeps lba count d' e =
      keeps_bind (dev_read dev (sector_size * count) lba count d')
        (λ buf s. (slice buf 0 (sector_size * count), s)) d
        (dev_read_keeps (sector_size * count) lba count d' e) (λ buf s e'. e')

  pub read_entry_keeps : (size lba i : ℕ) → (read_entry dev size lba i d).1 ≡ d
  unfolding read_entry
  read_entry_keeps size lba i =
      keeps_bind (entry_place size lba i, d)
        (λ p s. and_then (read_sectors dev p.0 1 s) (λ buf s'. (slice buf p.1 128, s'))) d refl
        (λ p s e.
          keeps_bind (read_sectors dev p.0 1 s) (λ buf s. (slice buf p.1 128, s)) d
            (read_sectors_keeps p.0 1 s e) (λ buf s e'. e'))

  pub scan_entries-First :
      (size lba n i : ℕ)
      → FirstEntry size lba n i (scan_entries dev size lba n i d).0
        × ((scan_entries dev size lba n i d).1 ≡ d)
  unfolding scan_entries
  scan_entries-First size lba zero i = (inl (λ j lt. absurd (omega arith)), refl)
  scan_entries-First size lba (suc n) i = elim (Outcome-cases (entry_at size lba i)) [
    | inl (e, at) ↦
        let here : read_entry dev size lba i d ≡ (ok e, d) =
          ap₂ (λ a b. (a, b)) at (read_entry_keeps size lba i) in
        elim (Bool-cases (is_linux e)) [
          | inl taken ↦
              rw (here, taken)
                (
                  (
                    zero,
                    omega arith,
                    (e, ap (entry_at size lba) (omega arith) ∙ at, (taken, refl)),
                    λ j lt. absurd (omega arith),
                  ),
                  refl,
                )
          | inr passed ↦
              let (rest, same) = scan_entries-First size lba n (i + 1) in
              rw (here, passed)
                (
                  First-more (entry_at size lba) TakenEntry PassedEntry n i e
                      (scan_entries dev size lba n (i + 1) d).0 at passed rest,
                  same,
                )
        ]
    | inr (inl at) ↦
        let here : read_entry dev size lba i d ≡ (fail, d) =
          ap₂ (λ a b. (a, b)) at (read_entry_keeps size lba i) in
        rw here (
          inr (
            zero,
            omega arith,
            ap (entry_at size lba) (omega arith) ∙ at,
            λ j lt. absurd (omega arith),
          ),
          refl,
        )
    | inr (inr at) ↦
        let here : read_entry dev size lba i d ≡ (fault, d) =
          ap₂ (λ a b. (a, b)) at (read_entry_keeps size lba i) in
        rw here (
          (
            zero,
            omega arith,
            ap (entry_at size lba) (omega arith) ∙ at,
            λ j lt. absurd (omega arith),
          ),
          refl,
        )
  ]
