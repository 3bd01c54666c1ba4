-- ===== src/Pci.antt =====
-- drivers/bus/pci.c: configuration space through the ports 0xcf8 and 0xcfc, the search for a class
-- and the enumeration of all functions. The port operations of kernel/core/io.h are a record of
-- operations on a machine of type `D`.
pub mod Walk
pub mod Space
pub mod Enumerate
pub mod CardBus
mod Tests
use Prim.Native.Nat.{bit_or, bit_and}
use kagami_os.Prelude.{
  ℕ, zero, suc, ◌+◌, ◌-◌, ◌*◌, ◌/◌, ◌%◌, ◌^◌, Bool, true, false, not, ◌&&◌, Option, none, some,
  List, [], ◌∷◌, ◌++◌, length, ltb, leb, ◌==◌, if◌then◌else◌, has_bit, u8, u16,
}

-- `inb` to `outl`; reading a port may change the machine.
pub record PortIo (D : Type 0) : Type 0 where
  pub inb : D → (port : ℕ) → ℕ × D
  pub inw : D → (port : ℕ) → ℕ × D
  pub inl : D → (port : ℕ) → ℕ × D
  pub outb : D → (port value : ℕ) → D
  pub outw : D → (port value : ℕ) → D
  pub outl : D → (port value : ℕ) → D

-- `PciDevice`
pub record PciDevice : Type 0 where
  pub bus : ℕ
  pub slot : ℕ
  pub func : ℕ
  pub vendor_id : ℕ
  pub device_id : ℕ
  pub class_code : ℕ
  pub subclass : ℕ
  pub prog_if : ℕ
  pub header_type : ℕ

abbrev pub pci_config_address : ℕ
pci_config_address = 0xcf8

abbrev pub pci_config_data : ℕ
pci_config_data = 0xcfc

unfoldable pub config_address : (bus slot func offset : ℕ) → ℕ
config_address bus slot func offset =
    bit_or (bit_or (bit_or (bit_or (2 ^ 31) (bus * 2 ^ 16)) (slot * 2 ^ 11)) (func * 2 ^ 8))
      (bit_and offset 0xfc)

-- The fields of a function that answers, from its registers 0x00, 0x08 and 0x0c.
unfoldable pub device_of : (bus slot func vendor_device class_reg header_reg : ℕ) → PciDevice
device_of bus slot func vendor_device class_reg header_reg = record {
  bus = bus;
  slot = slot;
  func = func;
  vendor_id = u16 vendor_device;
  device_id = u16 (vendor_device / 2 ^ 16);
  class_code = u8 (class_reg / 2 ^ 24);
  subclass = u8 (class_reg / 2 ^ 16);
  prog_if = u8 (class_reg / 2 ^ 8);
  header_type = u8 (header_reg / 2 ^ 16);
}

-- `(dev.header_type & 0x80) ? 8 : 1`
unfoldable pub functions_of : ℕ → ℕ
functions_of header_type = if has_bit header_type 7 then 8 else 1

module _ {D : Type 0} (io : PortIo D) where
  unfoldable pub pci_read32 : (bus slot func offset : ℕ) → D → ℕ × D
  pci_read32 bus slot func offset d =
      io.inl (io.outl d pci_config_address (config_address bus slot func offset)) pci_config_data

  unfoldable pub pci_write32 : (bus slot func offset value : ℕ) → D → D
  pci_write32 bus slot func offset value d =
      io.outl (io.outl d pci_config_address (config_address bus slot func offset)) pci_config_data
        value

  unfoldable pub pci_get_device : (bus slot func : ℕ) → D → Option PciDevice × D
  pci_get_device bus slot func d =
      let (vendor_device, d) = pci_read32 bus slot func 0x00 d in
      let (class_reg, d') = pci_read32 bus slot func 0x08 d in
      let (header_reg, d'') = pci_read32 bus slot func 0x0c d' in
      if u16 vendor_device == 0xffff
      then (none, d)
      else (some (device_of bus slot func vendor_device class_reg header_reg), d'')

-- The loops that `pci_find_class` and `pci_enumerate` have in common: over 8 bit buses, 5 bit slots,
-- and the functions of a slot that answers. `probe` finds their number, `visit` is the innermost
-- body; it says whether the search returns.
module _ {D S : Type 0} (probe : (bus slot : ℕ) → D → Option ℕ × D)
    (visit : (bus slot func : ℕ) → S → D → (S × Bool) × D) where
  unfoldable pub walk_functions : (n bus slot func : ℕ) → S → D → (S × Bool) × D
  walk_functions zero bus slot func s d = ((s, false), d)
  walk_functions (suc n) bus slot func s d =
      let ((s', stop), d') = visit bus slot func s d in
      let rest = walk_functions n bus slot (func + 1) s' d' in
      if stop then ((s', true), d') else rest

  -- What follows an inner loop: a return, or the next round.
  abbrev pub unless_stopped : (S → D → (S × Bool) × D) → (S × Bool) × D → (S × Bool) × D
  unless_stopped rest ((s, true), d) = ((s, true), d)
  unless_stopped rest ((s, false), d) = rest s d

  abbrev pub visit_slot :
      (bus slot : ℕ) → S → (S → D → (S × Bool) × D) → Option ℕ × D → (S × Bool) × D
  visit_slot bus slot s rest (none, d) = rest s d
  visit_slot bus slot s rest (some functions, d) =
      unless_stopped rest (walk_functions functions bus slot 0 s d)

  unfoldable pub walk_slots : (n bus slot : ℕ) → S → D → (S × Bool) × D
  walk_slots zero bus slot s d = ((s, false), d)
  walk_slots (suc n) bus slot s d =
      visit_slot bus slot s (λ s' d'. walk_slots n bus (slot + 1) s' d') (probe bus slot d)

  unfoldable pub walk_buses : (n bus : ℕ) → S → D → (S × Bool) × D
  walk_buses zero bus s d = ((s, false), d)
  walk_buses (suc n) bus s d =
      unless_stopped (λ s' d'. walk_buses n (bus + 1) s' d') (walk_slots 32 bus 0 s d)

-- `out` with `count`: the devices stored, and how many were counted.
pub record Listed : Type 0 where
  pub devices : List PciDevice
  pub count : ℕ

abbrev pub listed : List PciDevice → ℕ → Listed
listed ds n = record { devices = ds; count = n }

unfoldable pub add_device : (max : ℕ) → PciDevice → Listed → Listed
add_device max dev l =
    listed (if ltb l.count max then l.devices ++ (dev ∷ []) else l.devices) (l.count + 1)

unfoldable pub has_class : (class_code subclass prog_if : ℕ) → PciDevice → Bool
has_class class_code subclass prog_if dev =
    dev.class_code == class_code && (dev.subclass == subclass && dev.prog_if == prog_if)

-- What the loops do with what answers at an address; a `continue` if nothing does.
abbrev pub functions_at : Option PciDevice → Option ℕ
functions_at none = none
functions_at (some dev) = some (functions_of dev.header_type)

abbrev pub count_device : (max : ℕ) → Listed → Option PciDevice → Listed × Bool
count_device max l none = (l, false)
count_device max l (some dev) = let l' = add_device max dev l in (l', leb max l'.count)

abbrev pub match_device :
    (class_code subclass prog_if : ℕ)
    → Option PciDevice
    → Option PciDevice
    → Option PciDevice × Bool
match_device class_code subclass prog_if s none = (s, false)
match_device class_code subclass prog_if s (some dev) =
    if has_class class_code subclass prog_if dev then (some dev, true) else (s, false)

module _ {D : Type 0} (io : PortIo D) where
  unfoldable pub slot_functions : (bus slot : ℕ) → D → Option ℕ × D
  slot_functions bus slot d =
      let (found, d') = pci_get_device io bus slot 0 d in (functions_at found, d')

  unfoldable pub visit_enumerate : (max bus slot func : ℕ) → Listed → D → (Listed × Bool) × D
  visit_enumerate max bus slot func l d =
      let (found, d') = pci_get_device io bus slot func d in (count_device max l found, d')

  -- `out` is not null. What is stored, and what is returned.
  unfoldable pub pci_enumerate : (max : ℕ) → D → (List PciDevice × ℕ) × D
  pci_enumerate max d =
      let ((l, _), d') = walk_buses slot_functions (visit_enumerate max) 256 0 (listed [] 0) d in
      ((l.devices, l.count), d')

  unfoldable pub visit_class :
      (class_code subclass prog_if bus slot func : ℕ)
      → Option PciDevice
      → D
      → (Option PciDevice × Bool) × D
  visit_class class_code subclass prog_if bus slot func s d =
      let (found, d') = pci_get_device io bus slot func d in
      (match_device class_code subclass prog_if s found, d')

  -- `none` is a return of 0.
  unfoldable pub pci_find_class : (class_code subclass prog_if : ℕ) → D → Option PciDevice × D
  pci_find_class class_code subclass prog_if d =
      let ((s, _), d') =
        walk_buses slot_functions (visit_class class_code subclass prog_if) 256 0 none d in
      (s, d')
