-- ===== src/Storage/Entries.antt =====
-- The entries that `gpt_find_linux_partition` of drivers/storage/partition.c reads and tests are those
-- of the table on the disk.
use kagami_os.Prelude.{
  ℕ, zero, suc, ◌+◌, ◌*◌, ◌/◌, ◌%◌, ◌^◌, ◌≤◌, ◌<◌, ◌≡◌, ◌≢◌, refl, sym, ap, ap₂, ◌∙◌, true, false,
  Option, none, some, [], ◌∷◌, length, length-take, length-drop, ltb, leb, ◌==◌, Option-cases, inl,
  inr, arith, take, drop, u64,
}
use native.Mathlib.Nat.{mod-lt, mul-le-mul_right, suc-mul, div-mul-le_self}
use kagami_os.Prelude.Bytes.{Bytes, ok, fail, fault, slice, slice_ok, ok-injective}
use kagami_os.Storage.{BlockDevice, dev_read, IsDevice}
use kagami_os.Storage.Partition.{
  guid_equal, is_linux, entry_place, read_sectors, read_entry, gpt_linux_fs_guid,
}
use kagami_os.Storage.Scan.{entry_at}
use kagami_os.Storage.Table.{packed, packed_lem, in_sector-pos, table_entry, LinuxEntry}

guid_equal-same : (xs ys : Bytes) → length xs ≡ length ys → guid_equal xs ys ≡ true → xs ≡ ys
unfolding guid_equal
guid_equal-same [] [] len h = refl
guid_equal-same [] (y ∷ ys) len h = absurd (omega arith)
guid_equal-same (x ∷ xs) [] len h = absurd (omega arith)
guid_equal-same (x ∷ xs) (y ∷ ys) len h =
    let rest : guid_equal xs ys ≡ true = ground arith in
    ap₂ (λ a as'. a ∷ as') (ground arith) (guid_equal-same xs ys (omega arith) rest)

guid_equal_refl : (xs : Bytes) → guid_equal xs xs ≡ true
unfolding guid_equal
guid_equal_refl [] = refl
guid_equal_refl (x ∷ xs) = ground (arith, guid_equal_refl xs)

pub is_linux-LinuxEntry : (e : Bytes) → length e ≡ 128 → is_linux e ≡ true → LinuxEntry e
unfolding is_linux
is_linux-LinuxEntry e len h =
    let equal : guid_equal (take 16 e) gpt_linux_fs_guid ≡ true = ground arith in
    (
      guid_equal-same (take 16 e) gpt_linux_fs_guid (omega (arith, length-take 16 e)) equal,
      ground arith,
      ground arith,
    )

pub is_linux-other : (e : Bytes) → is_linux e ≡ false → ¬ LinuxEntry e
unfolding is_linux
is_linux-other e h = λ (type, first, last).
    let equal : guid_equal (take 16 e) gpt_linux_fs_guid ≡ true =
      ap (λ g. guid_equal g gpt_linux_fs_guid) type ∙ guid_equal_refl gpt_linux_fs_guid in
    ground arith

module _ (size : ℕ) (lo : 128 ≤ size) (hi : size ≤ 512) where
  entry_place-packed :
      (lba i : ℕ)
      → (entry_place size lba i ≡ ok ((lba + (packed size i).0) % 2 ^ 64, (packed size i).1))
        × ((packed size i).1 + 128 ≤ 512)
  unfolding entry_place
  entry_place-packed lba i =
      let q : ℕ = 512 / size in
      let pos : 0 < q = in_sector-pos size lo hi in
      let nonzero : (q == 0) ≡ false = ground arith in
      let below : suc (i % q) * size ≤ q * size = mul-le-mul_right size (mod-lt i pos) in
      let fits : i % q * size + 128 ≤ 512 =
        omega (arith, suc-mul (i % q) size, div-mul-le_self 512 size) in
      rw (packed_lem size lo hi i, nonzero)
        (ap (λ (o : ℕ). ok (u64 (lba + i / q), o)) (omega arith), fits)

take_whole : (n : ℕ) (xs : Bytes) → length xs ≡ n → take n xs ≡ xs
take_whole zero [] e = refl
take_whole zero (x ∷ xs) e = absurd (omega arith)
take_whole (suc n) [] e = refl
take_whole (suc n) (x ∷ xs) e = ap (λ r. x ∷ r) (take_whole n xs (omega arith))

module _ {D : Type 0} (dev : BlockDevice D) (working : IsDevice dev)
    (read : D → ℕ → ℕ → Option Bytes) (d : D) (has : dev.read ≡ some read) where
  -- a sector of a working device, read whole or not at all
  pub read_sectors-whole :
      (lba : ℕ) (buf : Bytes)
      → read d lba 1 ≡ some buf
      → (read_sectors dev lba 1 d ≡ (ok buf, d)) × (length buf ≡ 512)
  unfolding read_sectors dev_read slice
  read_sectors-whole lba buf e =
      let len : length buf ≡ 1 * 512 = working.whole has e in
      let fits : ltb 512 (length buf) ≡ false = ground arith in
      let full : leb 512 (length buf) ≡ true = ground arith in
      rw (has, e, fits, full) (ap (λ b. (ok b, d)) (take_whole 512 buf (omega arith)), omega arith)

  read_sectors-failed : (lba : ℕ) → read d lba 1 ≡ none → read_sectors dev lba 1 d ≡ (fail, d)
  unfolding read_sectors dev_read
  read_sectors-failed lba e = rw (has, e) refl

  module _ (size : ℕ) (lo : 128 ≤ size) (hi : size ≤ 512) where
    -- Every entry is read as it lies in the table, with its 128 bytes, or its sector cannot be read.
    pub read_entry-table :
        (lba i : ℕ)
        → (entry_at dev d size lba i ≡ table_entry read d size lba i)
          × ((e : Bytes) → table_entry read d size lba i ≡ ok e → length e ≡ 128)
          × (table_entry read d size lba i ≢ fault)
    unfolding read_entry
    read_entry-table lba i =
        let (place, fits) = entry_place-packed size lo hi lba i in
        let sector : ℕ = (lba + (packed size i).0) % 2 ^ 64 in
        let offset : ℕ = (packed size i).1 in
        elim (Option-cases (read d sector 1)) [
          | inl e ↦
              let failed : read_entry dev size lba i d ≡ (fail, d) =
                rw (place, read_sectors-failed sector e) refl in
              let there : table_entry read d size lba i ≡ fail = rw (e, table_entry) refl in
              (ap (λ r. r.0) failed ∙ sym there, λ e' same. cc, λ bad. cc)
          | inr (buf, e) ↦
              let (got, len) = read_sectors-whole sector buf e in
              let entry : Bytes = take 128 (drop offset buf) in
              let read' : read_entry dev size lba i d ≡ (ok entry, d) =
                rw (place, got) (ap (λ r. (r, d)) (slice_ok buf offset 128 (omega arith))) in
              let there : table_entry read d size lba i ≡ ok entry = rw (e, table_entry) refl in
              (
                ap (λ r. r.0) read' ∙ sym there,
                λ e' same. omega (
                  arith,
                  length-take 128 (drop offset buf),
                  length-drop offset buf,
                  ap length (ok-injective entry e' (sym there ∙ same)),
                ),
                λ bad. cc,
              )
        ]
