-- ===== src/Pci/Space.antt =====
-- The configuration space behind the ports of drivers/bus/pci.c, and the functions that answer in it.
use kagami_os.Prelude.{
  ℕ, ◌/◌, ◌%◌, ◌^◌, ◌<◌, ◌≡◌, refl, ap, ◌∙◌, true, false, Option, none, some, List, [], ◌∷◌, leb,
  ◌==◌, has_bit, if◌then◌else◌, arith, Bool-cases, inl, inr,
}
use kagami_os.Pci.{
  PortIo, PciDevice, config_address, device_of, pci_read32, pci_get_device, pci_config_address,
  pci_config_data, slot_functions, functions_at, functions_of,
}
use kagami_os.Pci.Walk.{Address, Yields, bus_addresses}

-- The registers of a bus, by their configuration addresses: on a machine of the kind `P` an address
-- written to 0xcf8 and a read of 0xcfc give the register, and leave such a machine.
pub record IsConfigSpace {D : Type 0} (io : PortIo D) (P : D → Type 0) (reg : ℕ → ℕ) : Type 0 where
  pub selects :
      (address : ℕ) (d : D)
      → P d
      → Yields P (reg address) (io.inl (io.outl d pci_config_address address) pci_config_data)

module _ (reg : ℕ → ℕ) where
  abbrev pub register : Address → ℕ → ℕ
  register (bus, slot, func) offset = reg (config_address bus slot func offset)

  -- `width` bits of a register, from bit `low` on
  abbrev pub bits : Address → (offset low width : ℕ) → ℕ
  bits a offset low width = register a offset / 2 ^ low % 2 ^ width

  -- The device at an address, if one answers: its identity is in register 0x00, its class in the
  -- three upper bytes of register 0x08, its header type in the third byte of register 0x0c.
  unfoldable pub answer : Address → Option PciDevice
  answer (bus, slot, func) =
      let at = bits (bus, slot, func) in
      let vendor = register (bus, slot, func) 0x00 % 2 ^ 16 in
      if vendor == 0xffff
      then none
      else some (record {
        bus = bus;
        slot = slot;
        func = func;
        vendor_id = vendor;
        device_id = at 0x00 16 16;
        class_code = at 0x08 24 8;
        subclass = at 0x08 16 8;
        prog_if = at 0x08 8 8;
        header_type = at 0x0c 16 8;
      })

  -- The number of functions that a slot may have: none if function 0 does not answer, and eight or
  -- one as the header type of function 0 has its upper half or not.
  unfoldable pub heads : ℕ → ℕ → Option ℕ
  heads bus slot = elim (answer (bus, slot, 0)) [
    | none ↦ none
    | some _ ↦ some (if leb 128 (bits (bus, slot, 0) 0x0c 16 8) then 8 else 1)
  ]

  abbrev pub cons_some : {A : Type 0} → Option A → List A → List A
  cons_some none xs = xs
  cons_some (some x) xs = x ∷ xs

  unfoldable pub answers : List Address → List PciDevice
  answers [] = []
  answers (a ∷ as') = cons_some (answer a) (answers as')

  -- The functions that answer, in the order of their addresses: of each slot function 0, and of a
  -- slot whose function 0 answers with bit 7 of its header type set the functions 1 to 7 as well.
  abbrev pub present : List PciDevice
  present = answers (bus_addresses heads 256 0)

has_bit-leb : (b : ℕ) → b < 256 → has_bit b 7 ≡ leb 128 b
has_bit-leb b lt = ground arith

functions_at-answer :
    (reg : ℕ → ℕ) (bus slot : ℕ) → functions_at (answer reg (bus, slot, 0)) ≡ heads reg bus slot
unfolding answer heads functions_of
functions_at-answer reg bus slot =
    elim (Bool-cases (register reg (bus, slot, 0) 0x00 % 2 ^ 16 == 0xffff)) [
      | inl absent ↦ rw (absent, heads, answer) refl
      | inr there ↦
          rw (there, has_bit-leb (bits reg (bus, slot, 0) 0x0c 16 8) (omega arith), heads, answer)
            refl
    ]

module _ (reg : ℕ → ℕ) (bus slot : ℕ) where
  pub heads_absent :
      (register reg (bus, slot, 0) 0x00 % 2 ^ 16 == 0xffff) ≡ true → heads reg bus slot ≡ none
  unfolding heads answer
  heads_absent absent = rw (absent, heads, answer) refl

  pub heads_there :
      (register reg (bus, slot, 0) 0x00 % 2 ^ 16 == 0xffff) ≡ false
      → heads reg bus slot
        ≡ some (if leb 128 (register reg (bus, slot, 0) 0x0c / 2 ^ 16 % 2 ^ 8) then 8 else 1)
  unfolding heads answer
  heads_there there = rw (there, heads, answer) refl

module _ {D : Type 0} (io : PortIo D) (P : D → Type 0) (reg : ℕ → ℕ)
    (space : IsConfigSpace io P reg) where
  pub read-Yields :
      (bus slot func offset : ℕ) (d : D)
      → P d
      → Yields P (register reg (bus, slot, func) offset) (pci_read32 io bus slot func offset d)
  unfolding pci_read32
  read-Yields bus slot func offset d p = space.selects (config_address bus slot func offset) d p

  pub get_device-Yields :
      (bus slot func : ℕ) (d : D)
      → P d
      → Yields P (answer reg (bus, slot, func)) (pci_get_device io bus slot func d)
  unfolding pci_get_device answer device_of
  get_device-Yields bus slot func d p =
      let (same, p1) = read-Yields bus slot func 0x00 d p in
      let d1 : D = (pci_read32 io bus slot func 0x00 d).1 in
      let (same', p2) = read-Yields bus slot func 0x08 d1 p1 in
      let d2 : D = (pci_read32 io bus slot func 0x08 d1).1 in
      let (same'', p3) = read-Yields bus slot func 0x0c d2 p2 in
      elim (Bool-cases (register reg (bus, slot, func) 0x00 % 2 ^ 16 == 0xffff)) [
        | inl absent ↦ rw (same, absent) (refl, p1)
        | inr there ↦ rw (same, same', same'', there) (refl, p3)
      ]

  pub slot_functions-Yields :
      (bus slot : ℕ) (d : D) → P d → Yields P (heads reg bus slot) (slot_functions io bus slot d)
  unfolding slot_functions
  slot_functions-Yields bus slot d p =
      let (same, p') = get_device-Yields bus slot 0 d p in
      (ap functions_at same ∙ functions_at-answer reg bus slot, p')
