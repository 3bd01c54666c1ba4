-- ===== src/Rtl8139/Tests.antt =====
-- Runs of the card's driver, and its theorems at concrete rings.
use kagami_os.Prelude.{ℕ, ◌+◌, ◌<◌, ◌≡◌, refl, List, [], ◌∷◌, ◌++◌, map, arith, replicate}
use kagami_os.Prelude.Bytes.{Bytes, ok, slice, patch}
use kagami_os.Pci.{PortIo}
use kagami_os.Rtl8139.{Rtl, Rtl8139Device, rtl8139_poll, rtl8139_send, read_mac}
use kagami_os.Rtl8139.Receive.{ring, frame_head, poll_times, poll_times-ring, rtl8139_poll_cut}

-- A card that reports a frame, and records what is written to its ports.
abbrev card : PortIo (List (ℕ × ℕ))
card = record {
  inb = λ d port. (port, d);
  inw = λ d port. (1, d);
  inl = λ d port. (0, d);
  outb = λ d port value. (port, value) ∷ d;
  outw = λ d port value. (port, value) ∷ d;
  outl = λ d port value. (port, value) ∷ d;
}

abbrev nic : Rtl8139Device
nic = record { mac = 2 ∷ 0 ∷ 0 ∷ 0 ∷ 0 ∷ 1 ∷ []; io_base = 0xc000 }

abbrev fresh : Rtl (List (ℕ × ℕ))
fresh = record {
  tx_buffer = replicate 4 (replicate 1600 0);
  tx_cur = 3;
  rx_offset = 0;
  machine = [];
}

abbrev frames : List Bytes
frames = (1 ∷ 2 ∷ 3 ∷ []) ∷ (4 ∷ 5 ∷ 6 ∷ 7 ∷ []) ∷ []

send_runs :
    (rtl8139_send card nic (λ i. 0x200000 + i) (9 ∷ 8 ∷ []) 2 fresh).1.machine
    ≡ (0xc01c, 2) ∷ (0xc02c, 0x200003) ∷ []
unfolding rtl8139_send slice patch
send_runs = refl

mac_runs : (read_mac card 3 0xc000 0 []).0 ≡ 0xc000 ∷ 0xc001 ∷ 0xc002 ∷ []
unfolding read_mac
mac_runs = refl

poll_times-ring_example :
    poll_times card nic (ring frames (replicate 100 0)) 1600 2 fresh ≡ map ok frames
poll_times-ring_example =
    poll_times-ring card nic frames [] (replicate 100 0) 1600 fresh (λ d. refl) refl refl
      (omega arith) (omega arith) (omega arith)

-- A frame of eight bytes for a buffer of two.
abbrev long_frame : Bytes
long_frame = 1 ∷ 2 ∷ 3 ∷ 4 ∷ 5 ∷ 6 ∷ 7 ∷ 8 ∷ []

rtl8139_poll_cut_example :
    ((rtl8139_poll card nic (frame_head long_frame ++ (long_frame ++ [])) 2 fresh).0
      ≡ ok (1 ∷ 2 ∷ []))
    × (0
        < (rtl8139_poll card nic (frame_head long_frame ++ (long_frame ++ [])) 2 fresh).1.rx_offset)
    × ((rtl8139_poll card nic (frame_head long_frame ++ (long_frame ++ [])) 2 fresh).1.rx_offset
        < 12)
rtl8139_poll_cut_example =
    rtl8139_poll_cut card nic [] long_frame [] 2 fresh refl refl refl (omega arith) (omega arith)
