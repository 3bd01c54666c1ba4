-- ===== src/Net/Send.antt =====
-- What `net_send_frame` and `net_handle_arp` put on the wire.
use mathlib.Core.List.{append-nil}
use kagami_os.Prelude.{
  ℕ, ◌+◌, ◌-◌, ◌≤◌, ◌<◌, ◌≡◌, refl, ap, ◌∙◌, Bool, false, ◌&&◌, [], sym, ◌∷◌, ◌++◌, arith, length,
  length-append, length-drop, take, drop, ltb, ◌==◌, if◌then◌else◌, take-append_add, drop-drop,
  length-take, Bool-cases, inl, inr,
}
use kagami_os.Prelude.Bytes.{
  Bytes, le16, le32, bytes16, bytes32, patch_ok, splice, splice-extend, length-splice, ok,
}
use kagami_os.Net.Words.{swap16}
use kagami_os.Net.Arp.{arp_cache_set}
use kagami_os.Net.Frames.{
  NetState, max_frame, padded, rtl8139_send, net_send_frame, net_handle_arp, arp_bytes, arp_sha,
}

abbrev pub eth_bytes : (dst src : Bytes) → ℕ → Bytes
eth_bytes dst src type = dst ++ (src ++ bytes16 (swap16 type))

-- the frame for a payload: padded to 60 bytes with what the transmit buffer held there
abbrev pub frame_for : (tx dst src : Bytes) → ℕ → Bytes → Bytes
frame_for tx dst src type payload =
    eth_bytes dst src type
    ++ (payload ++ take (60 - (14 + length payload)) (drop (14 + length payload) tx))

length-eth_bytes :
    (dst src : Bytes) (type : ℕ)
    → length dst ≡ 6
    → length src ≡ 6
    → length (eth_bytes dst src type) ≡ 14
length-eth_bytes dst src type d s = omega (
  arith,
  length-append dst (src ++ bytes16 (swap16 type)),
  length-append src (bytes16 (swap16 type)),
)

two_writes :
    (h payload tx : Bytes)
    → length h ≡ 14
    → splice 14 payload (splice 0 h tx) ≡ h ++ (payload ++ drop (14 + length payload) tx)
two_writes h payload tx e =
    splice-extend h (drop (0 + length h) tx) payload 14 (omega arith)
    ∙ ap (λ r. h ++ (payload ++ r))
        (drop-drop (0 + length h) (length payload) (14 + length payload) tx (omega arith))

take_frame :
    (h payload r : Bytes)
    → length h ≡ 14
    → take (padded (14 + length payload)) (h ++ (payload ++ r))
      ≡ h ++ (payload ++ take (60 - (14 + length payload)) r)
take_frame h payload r e =
    take-append_add h (payload ++ r) (padded (14 + length payload))
      (length payload + (60 - (14 + length payload))) (ground arith)
    ∙ ap (λ t. h ++ t) (take-append_add payload r _ (60 - (14 + length payload)) refl)

rtl8139_send_lem :
    (frame : Bytes) (len : ℕ) (s : NetState)
    → 0 < len
    → len ≤ max_frame
    → rtl8139_send frame len s ≡ (ok tt, record s { outbox = s.outbox ++ (take len frame ∷ []) })
unfolding rtl8139_send
rtl8139_send_lem frame len s p q = ground arith

-- For a payload that fits the buffer `net_send_frame` sends exactly one frame: the Ethernet header
-- with the given destination, this card's address and the type in network order, the payload, and
-- up to 60 bytes in all the bytes that the uninitialised buffer held.
pub net_send_frame_lem :
    (tx dst payload : Bytes) (type : ℕ) (s : NetState)
    → length tx ≡ max_frame
    → length dst ≡ 6
    → length s.mac ≡ 6
    → 14 + length payload ≤ max_frame
    → net_send_frame tx dst type payload s
      ≡ (ok tt, record s { outbox = s.outbox ++ (frame_for tx dst s.mac type payload ∷ []) })
unfolding net_send_frame
net_send_frame_lem tx dst payload type s room six card fits =
    let h = eth_bytes dst s.mac type in
    let hl : length h ≡ 14 = length-eth_bytes dst s.mac type six card in
    let first : splice 0 h tx ≡ splice 0 h tx = refl in
    let e₁ = patch_ok 0 h tx (omega arith) in
    let e₂ = patch_ok 14 payload (splice 0 h tx) (omega (arith, length-splice 0 h tx)) in
    rw (e₁, e₂)
      (rtl8139_send_lem _ (padded (14 + length payload)) s (ground arith) (ground arith)
        ∙ ap (λ f. (ok tt, record s { outbox = s.outbox ++ (f ∷ []) }))
            (ap (take (padded (14 + length payload))) (two_writes h payload tx hl)
              ∙ take_frame h payload _ hl))

length-arp_bytes :
    (oper spa tpa : ℕ) (sha tha : Bytes)
    → length sha ≡ 6
    → length tha ≡ 6
    → length (arp_bytes oper sha spa tha tpa) ≡ 28
length-arp_bytes oper spa tpa sha tha a b = omega (
  arith,
  length-append sha (bytes32 spa ++ (tha ++ bytes32 tpa)),
  length-append tha (bytes32 tpa),
)

-- the ARP packet in the frame is a request for `ip`
abbrev pub asks_for : Bytes → ℕ → Bool
asks_for pkt ip = swap16 (le16 pkt 20) == 1 && le32 pkt 38 == ip

-- An Ethernet ARP packet for IPv4, complete in the received frame: the ARP cache becomes what
-- `arp_cache_set` makes of it for the sender's two addresses. If the packet asks for this host's address, exactly one frame is sent: an ARP reply to the sender
-- that names this host's two addresses and repeats the sender's. Otherwise nothing is sent.
pub net_handle_arp_lem :
    (tx pkt : Bytes) (len : ℕ) (s : NetState)
    → length tx ≡ max_frame
    → length s.mac ≡ 6
    → 42 ≤ len
    → len ≤ length pkt
    → swap16 (le16 pkt 14) ≡ 1
    → swap16 (le16 pkt 16) ≡ 0x0800
    → net_handle_arp tx pkt len s ≡ (
      ok tt,
      record s {
        arp = arp_cache_set (le32 pkt 28) (arp_sha pkt) s.arp;
        outbox =
            s.outbox
            ++ (if asks_for pkt s.ip
                then frame_for tx
                    (arp_sha pkt)
                    s.mac
                    0x0806
                    (arp_bytes 2 s.mac s.ip (arp_sha pkt) (le32 pkt 28))
                  ∷ []
                else []);
      },
    )
unfolding net_handle_arp
net_handle_arp_lem tx pkt len s room card long inside eth ip =
    let long' : ltb len 42 ≡ false = ground arith in
    let sha : length (arp_sha pkt) ≡ 6 =
      omega (arith, length-take 6 (drop 22 pkt), length-drop 22 pkt) in
    let s' = record s { arp = arp_cache_set (le32 pkt 28) (arp_sha pkt) s.arp } in
    let reply = arp_bytes 2 s.mac s.ip (arp_sha pkt) (le32 pkt 28) in
    let sent =
      net_send_frame_lem tx (arp_sha pkt) reply 0x0806 s' room sha card
        (omega (arith, length-arp_bytes 2 s.ip (le32 pkt 28) s.mac (arp_sha pkt))) in
    rw (long', eth, ip)
      (elim (Bool-cases (asks_for pkt s.ip)) [
        | inl yes' ↦ rw yes' sent
        | inr no' ↦ rw no' (ap (λ o. (ok tt, record s' { outbox = o })) (sym (append-nil s.outbox)))
      ])
