-- ===== src/Storage.antt =====
-- The block layer: drivers/storage/block.h, with block.c and partition.c in the children. A device
-- is what its driver does to a medium of type `D`; a null function pointer is `none`.
pub mod Registry
pub mod Partition
pub mod Table
pub mod Entries
pub mod First
pub mod Scan
pub mod Gpt
pub mod Mbr
pub mod Journal
mod Tests
use kagami_os.Prelude.{
  ℕ, ◌+◌, ◌*◌, ◌≤◌, ◌≡◌, ◌⊎◌, Bool, true, false, Option, none, some, length, ltb, if◌then◌else◌,
}
use kagami_os.Prelude.Bytes.{Bytes, Outcome, ok, fail, fault}
use kagami_os.Prelude.Cmd.{Cmd}

abbrev pub sector_size : ℕ
sector_size = 512

-- `struct BlockDevice`. A write may change the medium even when it reports a failure.
pub record BlockDevice (D : Type 0) : Type 0 where
  pub total_sectors : ℕ
  pub read : Option (D → (lba count : ℕ) → Option Bytes)
  pub write : Option (D → (lba count : ℕ) → Bytes → Bool × D)

module _ {D : Type 0} (dev : BlockDevice D) where
  -- `dev->read(dev, lba, count, buffer)` into a buffer of `room` bytes.
  unfoldable pub dev_read : (room lba count : ℕ) → Cmd D Bytes
  dev_read room lba count d = elim dev.read [
    | none ↦ (fault, d)
    | some read ↦ elim (read d lba count) [
      | none ↦ (fail, d)
      | some buf ↦ if ltb room (length buf) then (fault, d) else (ok buf, d)
    ]
  ]

  -- `dev->write && dev->write(dev, lba, count, buffer)`
  unfoldable pub dev_write : (lba count : ℕ) → Bytes → Cmd D (Unit {0})
  dev_write lba count buf d = elim dev.write [
    | none ↦ (fail, d)
    | some write ↦
        let (done, d') = write d lba count buf in if done then (ok tt, d') else (fail, d')
  ]

  -- What a working driver does: a read gives whole sectors, a finished write is read back, and it
  -- leaves the sectors outside its range as they were.
  pub record IsDevice : Type 0 where
    pub whole :
        {read : D → ℕ → ℕ → Option Bytes} {d : D} {lba count : ℕ} {buf : Bytes}
        → dev.read ≡ some read
        → read d lba count ≡ some buf
        → length buf ≡ count * sector_size
    pub read_back :
        {read : D → ℕ → ℕ → Option Bytes} {write : D → ℕ → ℕ → Bytes → Bool × D} {d d' : D}
        {lba count : ℕ} {buf : Bytes}
        → dev.read ≡ some read
        → dev.write ≡ some write
        → length buf ≡ count * sector_size
        → write d lba count buf ≡ (true, d')
        → read d' lba count ≡ some buf
    pub elsewhere :
        {read : D → ℕ → ℕ → Option Bytes} {write : D → ℕ → ℕ → Bytes → Bool × D} {d d' : D}
        {lba count at n : ℕ} {buf : Bytes}
        → dev.read ≡ some read
        → dev.write ≡ some write
        → write d lba count buf ≡ (true, d')
        → (at + n ≤ lba) ⊎ (lba + count ≤ at)
        → read d' at n ≡ read d at n
