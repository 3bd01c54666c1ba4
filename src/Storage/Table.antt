-- ===== src/Storage/Table.antt =====
-- The partition entries of a GPT as they lie on the disk, described without the code of
-- drivers/storage/partition.c, and the code's place of an entry there.
use native.Mathlib.Nat.{
  le-div_iff_mul-le, mod-add-div', suc-mul, mod-lt, mod-eq_of_lt, div-eq_of_lt, div-eq_of_lt-le,
}
use kagami_os.Prelude.{
  ℕ, zero, suc, ◌+◌, ◌*◌, ◌/◌, ◌%◌, ◌^◌, ◌≤◌, ◌<◌, ◌≡◌, sym, ap, ap₂, Option, none, some, ◌∷◌, [],
  ◌++◌, leb, leb→le, if◌then◌else◌, Bool-cases, inl, inr, arith, take, drop,
}
use kagami_os.Prelude.Bytes.{Bytes, Outcome, ok, fail, le64, bytes16, bytes32}
use kagami_os.Storage.Partition.{PartitionInfo}

-- Entries lie one behind the other from the start of a sector; one that would not fit whole starts
-- the next sector. The sector of entry `i`, counted from the table's first, and the offset in it.
unfoldable pub packed : (size i : ℕ) → ℕ × ℕ
packed size zero = (0, 0)
packed size (suc i) =
    let (sector, offset) = packed size i in
    if leb (offset + size + size) 512 then (sector, offset + size) else (sector + 1, 0)

-- the type GUID 0FC63DAF-8483-4772-8E79-3D69D8477DE4 in its order on disk
abbrev pub linux_filesystem : Bytes
linux_filesystem =
    bytes32 0x0fc63daf
    ++ (bytes16 0x8483
        ++ (bytes16 0x4772 ++ (0x8e ∷ 0x79 ∷ 0x3d ∷ 0x69 ∷ 0xd8 ∷ 0x47 ∷ 0x7d ∷ 0xe4 ∷ [])))

-- The type in the first 16 bytes, a first sector in the bytes 32 to 39 and a last one in the bytes 40
-- to 47 that are not zero.
abbrev pub LinuxEntry : Bytes → Type 0
LinuxEntry e = (take 16 e ≡ linux_filesystem) × (0 < le64 e 32) × (0 < le64 e 40)

abbrev pub Partition : Bytes → PartitionInfo → Type 0
Partition e info = (info.first_lba ≡ le64 e 32) × (info.last_lba ≡ le64 e 40)

module _ {D : Type 0} (read : D → ℕ → ℕ → Option Bytes) (d : D) where
  -- The 128 bytes of entry `i` in a table of entries of `size` bytes from sector `lba` on.
  abbrev pub table_entry : (size lba : ℕ) → ℕ → Outcome Bytes
  table_entry size lba i =
      let (sector, offset) = packed size i in
      elim (read d ((lba + sector) % 2 ^ 64) 1) [
        | none ↦ fail
        | some buf ↦ ok (take 128 (drop offset buf))
      ]

-- the next quotient and remainder, within a row of `q` and at its end
next_within : (q i : ℕ) → 0 < q → i % q + 1 < q → (suc i / q ≡ i / q) × (suc i % q ≡ i % q + 1)
next_within q i pos within =
    let e : suc i / q ≡ i / q =
      div-eq_of_lt-le q (omega (arith, mod-add-div' i q))
        (omega (arith, mod-add-div' i q, suc-mul (i / q) q)) in
    (e, omega (arith, mod-add-div' i q, mod-add-div' (suc i) q, ap (λ (t : ℕ). t * q) e))

next_row : (q i : ℕ) → 0 < q → i % q + 1 ≡ q → (suc i / q ≡ i / q + 1) × (suc i % q ≡ 0)
next_row q i pos last =
    let e : suc i / q ≡ suc (i / q) =
      div-eq_of_lt-le q (omega (arith, mod-add-div' i q, suc-mul (i / q) q))
        (omega (arith, mod-add-div' i q, suc-mul (i / q) q, suc-mul (suc (i / q)) q)) in
    (
      omega arith,
      omega (
        arith,
        mod-add-div' i q,
        mod-add-div' (suc i) q,
        suc-mul (i / q) q,
        ap (λ (t : ℕ). t * q) e,
      ),
    )

module _ (size : ℕ) (lo : 128 ≤ size) (hi : size ≤ 512) where
  abbrev pub in_sector : ℕ
  in_sector = 512 / size

  pub in_sector-pos : 0 < in_sector
  in_sector-pos = (le-div_iff_mul-le {k = size} {x = 1} {y = 512} (omega arith)).1 (omega arith)

  -- one more entry fits behind entry `i` exactly when its sector has a place left
  fits_iff :
      (i : ℕ) → leb (i % in_sector * size + size + size) 512 ≡ leb (i % in_sector + 2) in_sector
  fits_iff i =
      let r : ℕ = i % in_sector in
      let two : suc (suc r) * size ≡ r * size + size + size =
        omega (arith, suc-mul (suc r) size, suc-mul r size) in
      let (from, to) = le-div_iff_mul-le {k = size} {x = suc (suc r)} {y = 512} (omega arith) in
      elim (Bool-cases (leb (r + 2) in_sector)) [
        | inl more ↦
            let le : suc (suc r) * size ≤ 512 =
              from (omega (arith, leb→le (r + 2) in_sector more)) in
            ground arith
        | inr full ↦
            let gt : suc (suc r) ≤ in_sector → ⊥ = λ le. ground arith in
            let past : suc (suc r) * size ≤ 512 → ⊥ = λ le. gt (to le) in ground (arith, past)
      ]

  pub packed_lem : (i : ℕ) → packed size i ≡ (i / in_sector, i % in_sector * size)
  unfolding packed
  packed_lem zero =
      ap₂ (λ (a b : ℕ). (a, b)) (sym (div-eq_of_lt in_sector-pos))
        (omega (arith, ap (λ (t : ℕ). t * size) (mod-eq_of_lt in_sector-pos)))
  packed_lem (suc i) =
      rw (packed_lem i, fits_iff i)
        (elim (Bool-cases (leb (i % in_sector + 2) in_sector)) [
          | inl more ↦
              let (q, r) = next_within in_sector i in_sector-pos (ground arith) in
              rw more (
                ap₂ (λ (a b : ℕ). (a, b)) (sym q)
                  (omega (arith, suc-mul (i % in_sector) size, ap (λ (t : ℕ). t * size) r)))
          | inr full ↦
              let (q, r) =
                next_row in_sector i in_sector-pos (ground (arith, mod-lt i in_sector-pos)) in
              rw full
                (ap₂ (λ (a b : ℕ). (a, b)) (sym q) (omega (arith, ap (λ (t : ℕ). t * size) r)))
        ])
