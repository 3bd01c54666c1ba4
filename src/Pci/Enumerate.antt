-- ===== src/Pci/Enumerate.antt =====
-- What `pci_enumerate` and `pci_find_class` of drivers/bus/pci.c find in a configuration space.
use mathlib.Core.List.{append-nil, append_assoc}
use kagami_os.Prelude.{
  ℕ, zero, suc, ◌+◌, ◌≤◌, ◌<◌, ◌≡◌, refl, ap, ap₂, sym, ◌∙◌, Bool, true, Option, none, some, List,
  [], ◌∷◌, ◌++◌, if◌then◌else◌, Bool-cases, Option-cases, inl, inr, length, length-append, take,
  take-append_add, min, arith, ltb, leb,
}
use kagami_os.Pci.{
  PortIo, PciDevice, Listed, listed, add_device, count_device, match_device, has_class,
  pci_enumerate, visit_enumerate, pci_find_class, visit_class, slot_functions,
}
use kagami_os.Pci.Walk.{Address, Yields, fold_until, walk_buses-fold, bus_addresses}
use kagami_os.Pci.Space.{
  IsConfigSpace, answer, answers, heads, present, get_device-Yields, slot_functions-Yields,
}

-- the first device that passes a test
unfoldable pub first_of : (PciDevice → Bool) → List PciDevice → Option PciDevice
first_of test [] = none
first_of test (dev ∷ devs) = if test dev then some dev else first_of test devs

take_all : (n : ℕ) (xs : List PciDevice) → length xs ≤ n → take n xs ≡ xs
take_all zero [] h = refl
take_all zero (x ∷ xs) h = absurd (omega arith)
take_all (suc n) [] h = refl
take_all (suc n) (x ∷ xs) h = ap (λ r. x ∷ r) (take_all n xs (omega arith))

module _ (reg : ℕ → ℕ) (max : ℕ) where
  abbrev count_at : Address → Listed → Listed × Bool
  count_at a l = count_device max l (answer reg a)

  fold-count :
      (as' : List Address) (devs : List PciDevice)
      → length devs < max
      → (fold_until count_at as' (listed devs (length devs))).0
        ≡ listed (take max (devs ++ answers reg as')) (min max (length (devs ++ answers reg as')))
  unfolding fold_until answers add_device
  fold-count [] devs room =
      rw (append-nil devs) (ap₂ listed (sym (take_all max devs (omega arith))) (omega arith))
  fold-count (a ∷ as') devs room = elim (Option-cases (answer reg a)) [
    | inl absent ↦ rw absent (fold-count as' devs room)
    | inr (dev, there) ↦
        let fits : ltb (length devs) max ≡ true = ground arith in
        let devs' : List PciDevice = devs ++ (dev ∷ []) in
        let rest : List PciDevice = answers reg as' in
        let long : length devs' ≡ length devs + 1 = omega (arith, length-append devs (dev ∷ [])) in
        let regroup : devs' ++ rest ≡ devs ++ (dev ∷ rest) = append_assoc devs (dev ∷ []) rest in
        elim (Bool-cases (leb max (length devs + 1))) [
          | inl full ↦
              let exact : max ≡ length devs' + 0 = ground arith in
              rw (there, fits, full)
                (ap₂ listed
                  (sym (append-nil devs')
                    ∙ sym (take-append_add devs' rest max 0 exact)
                    ∙ ap (take max) regroup)
                  (omega (arith, ap length regroup, length-append devs' rest)))
          | inr more ↦
              let below : length devs' < max = ground arith in
              rw (there, fits, more)
                (ap (λ n. (fold_until count_at as' (listed devs' n)).0) (sym long)
                  ∙ fold-count as' devs' below
                  ∙ ap (λ xs. listed (take max xs) (min max (length xs))) regroup)
        ]
  ]

module _ (reg : ℕ → ℕ) (class_code subclass prog_if : ℕ) where
  abbrev match_at : Address → Option PciDevice → Option PciDevice × Bool
  match_at a s = match_device class_code subclass prog_if s (answer reg a)

  fold-match :
      (as' : List Address)
      → (fold_until match_at as' none).0
        ≡ first_of (has_class class_code subclass prog_if) (answers reg as')
  unfolding fold_until answers first_of
  fold-match [] = refl
  fold-match (a ∷ as') = elim (Option-cases (answer reg a)) [
    | inl absent ↦ rw absent (fold-match as')
    | inr (dev, there) ↦ elim (Bool-cases (has_class class_code subclass prog_if dev)) [
      | inl wanted ↦ rw (there, wanted) refl
      | inr other ↦ rw (there, other) (fold-match as')
    ]
  ]

module _ {D : Type 0} (io : PortIo D) (P : D → Type 0) (reg : ℕ → ℕ)
    (space : IsConfigSpace io P reg) where
  -- On a machine with a configuration space, for a list with room for `max` devices, not zero: the
  -- enumeration stores the first `max` of the functions that answer, in the order of their addresses,
  -- where of a slot the functions behind 0 count only if function 0 answers and bit 7 of its header
  -- type is set. It returns their number, which is at most `max`; the space is left as it was.
  pub pci_enumerate-present :
      (max : ℕ) (d : D)
      → P d
      → 0 < max
      → Yields P (take max (present reg), min max (length (present reg))) (pci_enumerate io max d)
  unfolding pci_enumerate visit_enumerate
  pci_enumerate-present max d p room =
      let (same, p') =
        walk_buses-fold P (slot_functions io) (visit_enumerate io max) (heads reg)
          (count_at reg max) (slot_functions-Yields io P reg space)
          (λ bus slot func l d p.
            let (same, p') = get_device-Yields io P reg space bus slot func d p in
            (ap (count_device max l) same, p'))
          256 0 (listed [] 0) d p in
      (
        ap (λ (r : Listed × Bool). (r.0.devices, r.0.count)) same
            ∙ ap (λ (l : Listed). (l.devices, l.count))
                (fold-count reg max (bus_addresses (heads reg) 256 0) [] room),
        p',
      )

  -- On such a machine `pci_find_class` returns the first function of the class, in that order, and 0
  -- only if there is none.
  pub pci_find_class-present :
      (class_code subclass prog_if : ℕ) (d : D)
      → P d
      → Yields P
          (first_of (has_class class_code subclass prog_if) (present reg))
          (pci_find_class io class_code subclass prog_if d)
  unfolding pci_find_class visit_class
  pci_find_class-present class_code subclass prog_if d p =
      let (same, p') =
        walk_buses-fold P (slot_functions io) (visit_class io class_code subclass prog_if)
          (heads reg) (match_at reg class_code subclass prog_if)
          (slot_functions-Yields io P reg space)
          (λ bus slot func s d p.
            let (same, p') = get_device-Yields io P reg space bus slot func d p in
            (ap (match_device class_code subclass prog_if s) same, p'))
          256 0 none d p in
      (
        ap (λ (r : Option PciDevice × Bool). r.0) same
            ∙ fold-match reg class_code subclass prog_if (bus_addresses (heads reg) 256 0),
        p',
      )

  -- On such a machine, for an enumeration that returned less than its `max`: `pci_find_class` finds
  -- what a search of the enumerated list for the class finds.
  pub pci_find_class-pci_enumerate :
      (max class_code subclass prog_if : ℕ) (d d' : D)
      → P d
      → P d'
      → (pci_enumerate io max d).0.1 < max
      → (pci_find_class io class_code subclass prog_if d').0
        ≡ first_of (has_class class_code subclass prog_if) (pci_enumerate io max d).0.0
  pci_find_class-pci_enumerate max class_code subclass prog_if d d' p p' less =
      let (listing, _) = pci_enumerate-present max d p (omega arith) in
      let (found, _) = pci_find_class-present class_code subclass prog_if d' p' in
      let few : length (present reg) ≤ max =
        omega (arith, ap (λ (r : List PciDevice × ℕ). r.1) listing) in
      found
      ∙ ap (first_of (has_class class_code subclass prog_if)) (
          sym (take_all max (present reg) few) ∙ sym (ap (λ (r : List PciDevice × ℕ). r.0) listing))
