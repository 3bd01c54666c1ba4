-- ===== src/Rtl8139.antt =====
-- drivers/net/rtl8139.c, the driver of the network card. The card's registers are reached through the
-- port operations; `rx_buffer` is what the card has written to the receive buffer by the time of a
-- call. The pointers are not null, and the messages are left out.
pub mod Find
pub mod Receive
mod Tests
use Prim.Native.Nat.{bit_or}
use kagami_os.Prelude.{
  ℕ, zero, suc, ◌+◌, ◌-◌, ◌*◌, ◌/◌, ◌%◌, ◌^◌, Bool, true, false, not, ◌&&◌, ◌||◌, Option, none,
  some, List, [], ◌∷◌, ◌++◌, length, ltb, leb, ◌==◌, if◌then◌else◌, has_bit, u16, u32, set, get_or,
  take,
}
use kagami_os.Prelude.Bytes.{Bytes, Outcome, ok, fail, fault, le16, slice, patch}
use kagami_os.Prelude.Cmd.{Cmd, pure, give_up, lift, get, put, ◌>>=◌, ◌>>◌}
use kagami_os.Net.Frames.{max_frame}
use kagami_os.Pci.{PortIo, pci_read32, pci_write32, walk_buses}

-- the registers and their bits
abbrev pub rtl_reg_tsd0 : ℕ
rtl_reg_tsd0 = 0x10

abbrev pub rtl_reg_tsad0 : ℕ
rtl_reg_tsad0 = 0x20

abbrev pub rtl_reg_rbstart : ℕ
rtl_reg_rbstart = 0x30

abbrev pub rtl_reg_cr : ℕ
rtl_reg_cr = 0x37

abbrev pub rtl_reg_capr : ℕ
rtl_reg_capr = 0x38

abbrev pub rtl_reg_imr : ℕ
rtl_reg_imr = 0x3c

abbrev pub rtl_reg_isr : ℕ
rtl_reg_isr = 0x3e

abbrev pub rtl_reg_rcr : ℕ
rtl_reg_rcr = 0x44

abbrev pub rtl_reg_config1 : ℕ
rtl_reg_config1 = 0x52

-- `sizeof(rx_buffer)`
abbrev pub rx_buffer_size : ℕ
rx_buffer_size = 8192 + 16 + 1500

-- The file's variables and the machine.
pub record Rtl (D : Type 0) : Type 0 where
  pub tx_buffer : List Bytes
  pub tx_cur : ℕ
  pub rx_offset : ℕ
  pub machine : D

-- `Rtl8139Device`
pub record Rtl8139Device : Type 0 where
  pub mac : Bytes
  pub io_base : ℕ

-- bus, slot and function
abbrev pub Place : Type 0
Place = ℕ × ℕ × ℕ

unfoldable pub is_rtl : (vendor_device : ℕ) → Bool
is_rtl vendor_device = u16 vendor_device == 0x10ec && u16 (vendor_device / 2 ^ 16) == 0x8139

-- `(uint16_t)(offset + length + 4 + 3) & ~3U`, back at the front behind 8192
unfoldable pub next_offset : (offset length : ℕ) → ℕ
next_offset offset length =
    let next = u16 (offset + length + 7) / 4 * 4 in if leb 8192 next then next - 8192 else next

-- `header[0]` and `header[1]`
unfoldable pub rx_header : Bytes → (offset : ℕ) → Outcome (ℕ × ℕ)
rx_header rx_buffer offset = elim (slice rx_buffer offset 4) [
  | ok h ↦ ok (le16 h 0, le16 h 2)
  | fail ↦ fail
  | fault ↦ fault
]

module _ {D : Type 0} (io : PortIo D) where
  -- The number of functions of a slot that answers; header_reg bit 23 tells.
  unfoldable pub rtl_probe : (bus slot : ℕ) → D → Option ℕ × D
  rtl_probe bus slot d =
      let (vendor_device, d') = pci_read32 io bus slot 0 0x00 d in
      let (header_reg, d'') = pci_read32 io bus slot 0 0x0c d' in
      if u16 vendor_device == 0xffff
      then (none, d')
      else (some (if has_bit header_reg 23 then 8 else 1), d'')

  unfoldable pub rtl_visit : (bus slot func : ℕ) → Option Place → D → (Option Place × Bool) × D
  rtl_visit bus slot func s d =
      let (vendor_device, d') = pci_read32 io bus slot func 0x00 d in
      (if is_rtl vendor_device then (some (bus, slot, func), true) else (s, false), d')

  unfoldable pub rtl_find_device : D → Option Place × D
  rtl_find_device d = let ((s, _), d') = walk_buses rtl_probe rtl_visit 256 0 none d in (s, d')

  -- `while (rtl_read8(io_base, RTL_REG_CR) & RTL_CR_RST) { }`, for at most `fuel` rounds; `none` if
  -- the card is still in reset then.
  unfoldable pub reset_wait : (fuel io_base : ℕ) → D → Option D
  reset_wait zero io_base d = none
  reset_wait (suc fuel) io_base d =
      let (cr, d') = io.inb d (u16 (io_base + rtl_reg_cr)) in
      let rest = reset_wait fuel io_base d' in if has_bit cr 4 then rest else some d'

  -- The six bytes of the hardware address.
  unfoldable pub read_mac : (n io_base i : ℕ) → D → Bytes × D
  read_mac zero io_base i d = ([], d)
  read_mac (suc n) io_base i d =
      let (b, d') = io.inb d (u16 (io_base + i)) in
      let (bs, d'') = read_mac n io_base (i + 1) d' in (b ∷ bs, d'')

  -- The registers that are set once the reset is over.
  unfoldable pub start_card : (io_base rx_address : ℕ) → D → D
  start_card io_base rx_address d =
      let d = io.outl d (u16 (io_base + rtl_reg_rbstart)) rx_address in
      let d = io.outw d (u16 (io_base + rtl_reg_imr)) 0x0f in
      let d = io.outl d (u16 (io_base + rtl_reg_rcr)) 0x8f in
      io.outb d (u16 (io_base + rtl_reg_cr)) 0x0c

  -- From the device's place to the reset command, and the base of its registers.
  unfoldable pub wake_card : Place → D → ℕ × D
  wake_card (bus, slot, func) d =
      let (bar0, d) = pci_read32 io bus slot func 0x10 d in
      let io_base = bar0 / 4 * 4 in
      let (command, d) = pci_read32 io bus slot func 0x04 d in
      let d = pci_write32 io bus slot func 0x04 (bit_or command 5) d in
      let d = io.outb d (u16 (io_base + rtl_reg_config1)) 0x00 in
      (io_base, io.outb d (u16 (io_base + rtl_reg_cr)) 0x10)

  abbrev pub after_reset :
      (io_base rx_address : ℕ) → Rtl D → Option D → Option (Outcome Rtl8139Device × Rtl D)
  after_reset io_base rx_address s none = none
  after_reset io_base rx_address s (some d) =
      let (mac, d') = read_mac 6 io_base 0 (start_card io_base rx_address d) in
      some (
        ok (record { mac = mac; io_base = io_base }),
        record { tx_buffer = s.tx_buffer; tx_cur = 0; rx_offset = 0; machine = d' },
      )

  abbrev pub init_found :
      (fuel rx_address : ℕ) → Rtl D → Option Place × D → Option (Outcome Rtl8139Device × Rtl D)
  init_found fuel rx_address s (none, d) = some (fail, record s { machine = d })
  init_found fuel rx_address s (some place, d) =
      let (io_base, d') = wake_card place d in
      after_reset io_base rx_address s (reset_wait fuel io_base d')

  -- `none` if the card does not leave its reset within `fuel` reads.
  unfoldable pub rtl8139_init :
      (fuel rx_address : ℕ) → Rtl D → Option (Outcome Rtl8139Device × Rtl D)
  rtl8139_init fuel rx_address s = init_found fuel rx_address s (rtl_find_device s.machine)

  -- `tx_address` gives the addresses of the four transmit buffers.
  unfoldable pub rtl8139_send :
      (dev : Rtl8139Device) (tx_address : ℕ → ℕ) (frame : Bytes) (n : ℕ) → Cmd (Rtl D) (Unit {0})
  rtl8139_send dev tx_address frame n = if n == 0 || ltb max_frame n then give_up else do
    s ← get
    sent ← lift (slice frame 0 n)
    buffer ← lift (patch 0 sent (get_or s.tx_buffer s.tx_cur []))
    let d =
        io.outl s.machine (u16 (dev.io_base + (rtl_reg_tsad0 + s.tx_cur * 4)))
          (u32 (tx_address s.tx_cur))
    let d = io.outl d (u16 (dev.io_base + (rtl_reg_tsd0 + s.tx_cur * 4))) n
    put (record {
      tx_buffer = set s.tx_buffer s.tx_cur buffer;
      tx_cur = (s.tx_cur + 1) % 4;
      rx_offset = s.rx_offset;
      machine = d;
    })

  -- The frame that is stored in `out_buf`, whose length is `*out_len`.
  unfoldable pub rtl8139_poll :
      (dev : Rtl8139Device) (rx_buffer : Bytes) (max_len : ℕ) → Cmd (Rtl D) Bytes
  rtl8139_poll dev rx_buffer max_len = do
    s ← get
    let (isr, d) = io.inw s.machine (u16 (dev.io_base + rtl_reg_isr))
    put (record s { machine = d })
    if not (has_bit isr 0) then give_up else do
      let d = io.outw d (u16 (dev.io_base + rtl_reg_isr)) 1
      put (record s { machine = d })
      (status, received) ← lift (rx_header rx_buffer s.rx_offset)
      if not (has_bit status 0) then give_up else do
        let n = if ltb max_len received then u16 max_len else received
        frame ← lift (slice rx_buffer (s.rx_offset + 4) n)
        let offset = next_offset s.rx_offset n
        put (record s {
          rx_offset = offset;
          machine = io.outw d (u16 (dev.io_base + rtl_reg_capr)) (u16 (offset + 2 ^ 16 - 16));
        })
        pure frame
