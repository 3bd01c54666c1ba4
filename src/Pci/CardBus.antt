-- ===== src/Pci/CardBus.antt =====
-- A bus with one network card, as a machine with a configuration space.
use kagami_os.Prelude.{ℕ, refl, ◌==◌, if◌then◌else◌}
use kagami_os.Pci.{PortIo}
use kagami_os.Pci.Space.{IsConfigSpace}

-- The registers: a card in slot 3 of bus 0, and nothing elsewhere.
abbrev pub card_reg : ℕ → ℕ
card_reg address =
    if address == 0x80001800
    then 0x813910ec
    else if address == 0x80001808
    then 0x02000000
    else if address == 0x8000180c
    then 0
    else 0xffffffff

-- A machine is the address that was selected last.
abbrev pub bus : PortIo ℕ
bus = record {
  inb = λ d port. (0, d);
  inw = λ d port. (1, d);
  inl = λ d port. (card_reg d, d);
  outb = λ d port value. d;
  outw = λ d port value. d;
  outl = λ d port value. if port == 0xcf8 then value else d;
}

abbrev pub AnyMachine : ℕ → Type 0
AnyMachine d = Unit

pub bus-IsConfigSpace : IsConfigSpace bus AnyMachine card_reg
bus-IsConfigSpace = record { selects = λ address d p. (refl, tt) }
