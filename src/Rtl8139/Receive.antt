-- ===== src/Rtl8139/Receive.antt =====
-- The frames that `rtl8139_poll` of drivers/net/rtl8139.c takes from the receive ring.
use mathlib.Core.List.{append_assoc}
use kagami_os.Prelude.{
  ℕ, zero, suc, ◌+◌, ◌-◌, ◌*◌, ◌/◌, ◌%◌, ◌^◌, ◌≤◌, ◌<◌, ◌≡◌, refl, ap, sym, ◌∙◌, true, false, List,
  [], ◌∷◌, ◌++◌, map, arith, length, length-append, length-take, take, drop, take-append-drop,
  length-replicate, replicate, All, ltb, has_bit, u16,
}
use kagami_os.Prelude.Bytes.{Bytes, Outcome, ok, bytes16, slice, slice-append}
use kagami_os.Pci.{PortIo}
use kagami_os.Rtl8139.{
  Rtl, Rtl8139Device, rtl8139_poll, rx_header, next_offset, rtl_reg_isr, rtl_reg_capr,
}

-- What the card puts in front of a frame that it received, and the bytes up to the next header.
abbrev pub frame_head : Bytes → Bytes
frame_head frame = bytes16 1 ++ bytes16 (length frame)

abbrev pub room_of : ℕ → ℕ
room_of n = (n + 7) / 4 * 4

abbrev pub gap : Bytes → Bytes
gap frame = replicate (room_of (length frame) - 4 - length frame) 0

-- The ring from a header on: the frames one behind the other, and what follows them.
abbrev pub ring : List Bytes → Bytes → Bytes
ring [] after = after
ring (frame ∷ frames) after = frame_head frame ++ (frame ++ (gap frame ++ ring frames after))

abbrev pub ring_room : List Bytes → ℕ
ring_room [] = 0
ring_room (frame ∷ frames) = room_of (length frame) + ring_room frames

-- The outcomes of `n` calls.
unfoldable pub poll_times :
    {D : Type 0} → PortIo D → Rtl8139Device → Bytes → (max_len n : ℕ) → Rtl D → List (Outcome Bytes)
poll_times io dev rx max_len zero s = []
poll_times io dev rx max_len (suc n) s =
    let (r, s') = rtl8139_poll io dev rx max_len s in r ∷ poll_times io dev rx max_len n s'

take_whole : (frame : Bytes) → take (length frame) frame ≡ frame
take_whole [] = refl
take_whole (b ∷ frame) = ap (λ r. b ∷ r) (take_whole frame)

module _ (before frame rest : Bytes) (o : ℕ) (at : o ≡ length before) where
  rx_header-frame :
      length frame < 2 ^ 16
      → rx_header (before ++ (frame_head frame ++ (frame ++ rest))) o ≡ ok (1, length frame)
  unfolding rx_header
  rx_header-frame small =
      let head = slice-append before (frame_head frame) (frame ++ rest) o 4 at refl in
      let len : length frame % 256 + 256 * (length frame / 256 % 256) ≡ length frame =
        omega arith in
      rw (head, rx_header) (ap (λ n. ok (1, n)) len)

  slice-frame :
      (m : ℕ)
      → m ≤ length frame
      → slice (before ++ (frame_head frame ++ (frame ++ rest))) (o + 4) m ≡ ok (take m frame)
  slice-frame m le =
      let front : Bytes = before ++ frame_head frame in
      let split : frame ++ rest ≡ take m frame ++ (drop m frame ++ rest) =
        ap (λ f. f ++ rest) (sym (take-append-drop m frame))
        ∙ append_assoc (take m frame) (drop m frame) rest in
      ap (λ xs. slice xs (o + 4) m)
        (sym (append_assoc before (frame_head frame) (frame ++ rest))
          ∙ ap (λ xs. front ++ xs) split)
      ∙ slice-append front (take m frame) (drop m frame ++ rest) (o + 4) m
          (omega (arith, length-append before (frame_head frame)))
          (omega (arith, length-take m frame))

  -- behind the frame and its gap
  next_offset-frame :
      length before % 4 ≡ 0
      → length before + room_of (length frame) < 8192
      → next_offset o (length frame) ≡ length before + room_of (length frame)
  unfolding next_offset
  next_offset-frame aligned inside = ground arith

module _ {D : Type 0} (io : PortIo D) (dev : Rtl8139Device) where
  abbrev isr_port : ℕ
  isr_port = u16 (dev.io_base + rtl_reg_isr)

  -- the driver once a frame of `n` bytes has been taken
  abbrev taken : ℕ → Rtl D → Rtl D
  taken n s =
      let offset = next_offset s.rx_offset n in
      record s {
        rx_offset = offset;
        machine =
            io.outw (io.outw (io.inw s.machine isr_port).1 isr_port 1)
              (u16 (dev.io_base + rtl_reg_capr)) (u16 (offset + 2 ^ 16 - 16));
      }

  poll-taken :
      (rx frame : Bytes) (max_len : ℕ) (s : Rtl D)
      → has_bit (io.inw s.machine isr_port).0 0 ≡ true
      → rx_header rx s.rx_offset ≡ ok (1, length frame)
      → length frame ≤ max_len
      → slice rx (s.rx_offset + 4) (length frame) ≡ ok frame
      → rtl8139_poll io dev rx max_len s ≡ (ok frame, taken (length frame) s)
  unfolding rtl8139_poll
  poll-taken rx frame max_len s reported header fits cut =
      let whole : ltb max_len (length frame) ≡ false = ground arith in
      rw (reported, header, whole, cut) refl

  -- A card that reports a frame whenever it is asked, and a ring that holds, from the driver's
  -- offset on and without wrapping, these frames one behind the other, none longer than `max_len`:
  -- as many calls of `rtl8139_poll` return exactly the frames, in their order.
  pub poll_times-ring :
      (frames : List Bytes) (before after : Bytes) (max_len : ℕ) (s : Rtl D)
      → ((d : D) → has_bit (io.inw d isr_port).0 0 ≡ true)
      → s.rx_offset ≡ length before
      → length before % 4 ≡ 0
      → length before + ring_room frames < 8192
      → max_len < 2 ^ 16
      → All (λ frame. length frame ≤ max_len) frames
      → poll_times io dev (before ++ ring frames after) max_len (length frames) s ≡ map ok frames
  unfolding poll_times
  poll_times-ring [] before after max_len s reports at aligned inside small fit = refl
  poll_times-ring (frame ∷ frames) before after max_len s reports at aligned inside small
        (fit, fits) =
      let rest : Bytes = gap frame ++ ring frames after in
      let rx : Bytes = before ++ ring (frame ∷ frames) after in
      let o : ℕ = s.rx_offset in
      let n : ℕ = length frame in
      let step : rtl8139_poll io dev rx max_len s ≡ (ok frame, taken n s) =
        poll-taken rx frame max_len s (reports s.machine)
          (rx_header-frame before frame rest o at (omega arith)) fit
          (slice-frame before frame rest o at n (omega arith) ∙ ap ok (take_whole frame)) in
      let next : next_offset o n ≡ length before + room_of n =
        next_offset-frame before frame rest o at aligned (omega arith) in
      let before' : Bytes = before ++ (frame_head frame ++ (frame ++ gap frame)) in
      let len : length before' ≡ length before + room_of n = omega (
        arith,
        length-append before (frame_head frame ++ (frame ++ gap frame)),
        length-append frame (gap frame),
        length-replicate {A = ℕ} (room_of n - 4 - n) 0,
      ) in
      let same : rx ≡ before' ++ ring frames after = simp append_assoc in
      ap (λ (r : Outcome Bytes × Rtl D). r.0 ∷ poll_times io dev rx max_len (length frames) r.1)
        step
      ∙ ap (λ xs. ok frame ∷ xs)
          (ap (λ b. poll_times io dev b max_len (length frames) (taken n s)) same
            ∙ poll_times-ring frames before' after max_len (taken n s) reports (next ∙ sym len)
                (omega arith) (omega arith) small fits)

  -- A frame at the driver's offset that is longer than `max_len`, by enough to take more of the
  -- ring: the call returns its first `max_len` bytes, and leaves the driver's offset in front of the
  -- card's next header, inside the frame that was cut.
  pub rtl8139_poll_cut :
      (before frame rest : Bytes) (max_len : ℕ) (s : Rtl D)
      → has_bit (io.inw s.machine isr_port).0 0 ≡ true
      → s.rx_offset ≡ length before
      → length before % 4 ≡ 0
      → length before + room_of (length frame) < 8192
      → room_of max_len < room_of (length frame)
      → let r = rtl8139_poll io dev (before ++ (frame_head frame ++ (frame ++ rest))) max_len s in
        (r.0 ≡ ok (take max_len frame))
        × (length before < r.1.rx_offset)
        × (r.1.rx_offset < length before + room_of (length frame))
  unfolding rtl8139_poll next_offset
  rtl8139_poll_cut before frame rest max_len s reported at aligned inside cut =
      let rx : Bytes = before ++ (frame_head frame ++ (frame ++ rest)) in
      let header = rx_header-frame before frame rest s.rx_offset at (omega arith) in
      let too_long : ltb max_len (length frame) ≡ true = ground arith in
      let fits : u16 max_len ≡ max_len = omega arith in
      let part : slice rx (s.rx_offset + 4) max_len ≡ ok (take max_len frame) =
        slice-frame before frame rest s.rx_offset at max_len (omega arith) in
      rw (reported, header, too_long, fits, part) (refl, ground arith, ground arith)
