-- ===== src/Rtl8139/Find.antt =====
-- The card that `rtl_find_device` of drivers/net/rtl8139.c finds.
use kagami_os.Prelude.{
  ℕ, ◌/◌, ◌%◌, ◌^◌, ◌≡◌, refl, ap, ◌∙◌, Bool, true, false, ◌&&◌, Option, none, some, List, [], ◌∷◌,
  ◌==◌, if◌then◌else◌, arith, has_bit, leb, u16, Bool-cases, inl, inr,
}
use kagami_os.Pci.{PortIo, PciDevice, pci_read32}
use kagami_os.Pci.Walk.{Address, Yields, fold_until, walk_buses-fold, bus_addresses}
use kagami_os.Pci.Space.{
  IsConfigSpace, register, answer, answers, heads, present, read-Yields, heads_absent, heads_there,
}
use kagami_os.Pci.Enumerate.{first_of}
use kagami_os.Rtl8139.{Place, is_rtl, rtl_probe, rtl_visit, rtl_find_device}

-- the card's identification in a device of the enumeration
abbrev pub is_card : PciDevice → Bool
is_card dev = dev.vendor_id == 0x10ec && dev.device_id == 0x8139

abbrev pub place_of : Option PciDevice → Option Place
place_of none = none
place_of (some dev) = some (dev.bus, dev.slot, dev.func)

module _ (reg : ℕ → ℕ) where
  abbrev visit_at : Address → Option Place → Option Place × Bool
  visit_at (bus, slot, func) s =
      if is_rtl (register reg (bus, slot, func) 0x00)
      then (some (bus, slot, func), true)
      else (s, false)

  fold-visit :
      (as' : List Address)
      → (fold_until visit_at as' none).0 ≡ place_of (first_of is_card (answers reg as'))
  unfolding fold_until answers first_of answer is_rtl
  fold-visit [] = refl
  fold-visit ((bus, slot, func) ∷ as') =
      let id : ℕ = register reg (bus, slot, func) 0x00 in
      elim (Bool-cases (is_rtl id)) [
        | inl card ↦ let there : (u16 id == 0xffff) ≡ false = ground arith in rw (there, card) refl
        | inr other ↦ elim (Bool-cases (u16 id == 0xffff)) [
          | inl absent ↦ rw (absent, other) (fold-visit as')
          | inr there ↦ rw (there, other) (fold-visit as')
        ]
      ]

module _ {D : Type 0} (io : PortIo D) (P : D → Type 0) (reg : ℕ → ℕ)
    (space : IsConfigSpace io P reg) where
  probe-Yields :
      (bus slot : ℕ) (d : D) → P d → Yields P (heads reg bus slot) (rtl_probe io bus slot d)
  unfolding rtl_probe
  probe-Yields bus slot d p =
      let (same, p1) = read-Yields io P reg space bus slot 0 0x00 d p in
      let d1 : D = (pci_read32 io bus slot 0 0x00 d).1 in
      let (same', p2) = read-Yields io P reg space bus slot 0 0x0c d1 p1 in
      let header : ℕ = register reg (bus, slot, 0) 0x0c in
      let bit : has_bit header 23 ≡ leb 128 (header / 2 ^ 16 % 2 ^ 8) = ground arith in
      elim (Bool-cases (u16 (register reg (bus, slot, 0) 0x00) == 0xffff)) [
        | inl absent ↦ rw (same, absent, heads_absent reg bus slot absent) (refl, p1)
        | inr there ↦ rw (same, same', there, bit, heads_there reg bus slot there) (refl, p2)
      ]

  -- On a machine with a configuration space `rtl_find_device` returns the place of the first
  -- function, among those that the enumeration of the bus lists, with the card's vendor and device
  -- number, and 0 only if there is none.
  pub rtl_find_device-present :
      (d : D) → P d → Yields P (place_of (first_of is_card (present reg))) (rtl_find_device io d)
  unfolding rtl_find_device rtl_visit
  rtl_find_device-present d p =
      let (same, p') =
        walk_buses-fold P (rtl_probe io) (rtl_visit io) (heads reg) (visit_at reg) probe-Yields
          (λ bus slot func s d p.
            let (same, p') = read-Yields io P reg space bus slot func 0x00 d p in
            (ap (λ v. if is_rtl v then (some (bus, slot, func), true) else (s, false)) same, p'))
          256 0 none d p in
      (
        ap (λ (r : Option Place × Bool). r.0) same
            ∙ fold-visit reg (bus_addresses (heads reg) 256 0),
        p',
      )
