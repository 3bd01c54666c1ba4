-- ===== src/Pci/Tests.antt =====
-- Runs of the enumeration on a bus with one network card, and its theorems there.
use kagami_os.Prelude.{◌<◌, ◌≡◌, refl, false, [], ◌∷◌, arith, length, min, take}
use kagami_os.Pci.{
  walk_buses, config_address, device_of, pci_enumerate, pci_find_class, has_class, walk_slots,
  walk_functions, visit_enumerate, slot_functions, pci_get_device, pci_read32, add_device, listed,
  functions_of,
}
use kagami_os.Pci.CardBus.{card_reg, bus, AnyMachine, bus-IsConfigSpace}
use kagami_os.Pci.Walk.{Yields}
use kagami_os.Pci.Space.{present}
use kagami_os.Pci.Enumerate.{first_of, pci_enumerate-present, pci_find_class-pci_enumerate}

config_address_runs : config_address 0 3 0 0x0b ≡ 0x80001808
unfolding config_address
config_address_runs = refl

walk_runs :
    (walk_slots (slot_functions bus) (visit_enumerate bus 4) 32 0 0 (listed [] 0) 7).0
    ≡ (listed (device_of 0 3 0 0x813910ec 0x02000000 0 ∷ []) 1, false)
unfolding walk_slots walk_functions slot_functions visit_enumerate pci_get_device pci_read32
    config_address add_device functions_of device_of
walk_runs = refl

pci_enumerate-present_example :
    Yields AnyMachine
      (take 4 (present card_reg), min 4 (length (present card_reg)))
      (pci_enumerate bus 4 7)
pci_enumerate-present_example =
    pci_enumerate-present bus AnyMachine card_reg bus-IsConfigSpace 4 7 tt (omega arith)

enumerate_count : (pci_enumerate bus 4 7).0.1 < 4
unfolding pci_enumerate walk_slots walk_functions slot_functions visit_enumerate pci_get_device
    pci_read32 config_address add_device functions_of device_of walk_buses
enumerate_count = omega arith

pci_find_class-pci_enumerate_example :
    (pci_find_class bus 2 0 0 9).0 ≡ first_of (has_class 2 0 0) (pci_enumerate bus 4 7).0.0
pci_find_class-pci_enumerate_example =
    pci_find_class-pci_enumerate bus AnyMachine card_reg bus-IsConfigSpace 4 2 0 0 7 9 tt tt
      enumerate_count
