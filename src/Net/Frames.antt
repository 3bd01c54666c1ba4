-- ===== src/Net/Frames.antt =====
-- The state of net/net.c, its frames, and the ARP side: `net_send_frame`, `net_handle_arp`.
-- Local buffers that C leaves uninitialised are parameters: `tx` is what the outgoing buffer held.
use kagami_os.Prelude.{
  ℕ, ◌+◌, Bool, not, ◌&&◌, ◌||◌, Option, List, [], ◌∷◌, ◌++◌, length, ltb, ◌==◌, if◌then◌else◌,
  take, drop,
}
use kagami_os.Prelude.Bytes.{Bytes, le16, le32, bytes16, bytes32, patch, ok}
use kagami_os.Prelude.Cmd.{Cmd, get, lift, ◌>>=◌}
use kagami_os.Net.Words.{swap16}
use kagami_os.Net.Arp.{ArpEntry, arp_cache_set}

abbrev pub max_frame : ℕ
max_frame = 1600

abbrev pub eth_header : ℕ
eth_header = 14

abbrev pub arp_packet : ℕ
arp_packet = 28

-- The globals of net.c. Of the NIC: its address, what successive calls of `rtl8139_poll` will
-- deliver (`none` for a call that finds nothing), and the frames handed to the hardware.
pub record NetState : Type 0 where
  pub mac : Bytes
  pub inbox : List (Option Bytes)
  pub outbox : List Bytes
  pub ready : Bool
  pub ip : ℕ
  pub netmask : ℕ
  pub gateway : ℕ
  pub arp : List ArpEntry

abbrev pub Net : Type 0 → Type 0
Net = Cmd NetState

-- `rtl8139_send` refuses an empty and an oversized frame; its callers ignore the result.
unfoldable pub rtl8139_send : Bytes → ℕ → Net (Unit {0})
rtl8139_send frame len s =
    if len == 0 || ltb max_frame len
    then (ok tt, s)
    else (ok tt, record s { outbox = s.outbox ++ (take len frame ∷ []) })

-- the length of a frame that is padded to the Ethernet minimum
abbrev pub padded : ℕ → ℕ
padded total = if ltb total 60 then 60 else total

unfoldable pub net_send_frame : (tx dst : Bytes) → ℕ → Bytes → Net (Unit {0})
net_send_frame tx dst type payload = do
  s ← get
  frame ← lift (patch 0 (dst ++ (s.mac ++ bytes16 (swap16 type))) tx)
  frame ← lift (patch eth_header payload frame)
  rtl8139_send frame (padded (eth_header + length payload))

-- the 28 bytes of an `ArpPacket`
abbrev pub arp_bytes : ℕ → (sha : Bytes) → (spa : ℕ) → (tha : Bytes) → (tpa : ℕ) → Bytes
arp_bytes oper sha spa tha tpa =
    bytes16 (swap16 1)
    ++ (bytes16 (swap16 0x0800)
        ++ (6 ∷ 4 ∷ (bytes16 (swap16 oper) ++ (sha ++ (bytes32 spa ++ (tha ++ bytes32 tpa))))))

-- the sender of the ARP packet in a received frame
abbrev pub arp_sha : Bytes → Bytes
arp_sha pkt = take 6 (drop 22 pkt)

unfoldable pub net_handle_arp : (tx pkt : Bytes) → ℕ → Net (Unit {0})
net_handle_arp tx pkt len s =
    if ltb len (eth_header + arp_packet)
    then (ok tt, s)
    else if not (swap16 (le16 pkt 14) == 1) || not (swap16 (le16 pkt 16) == 0x0800)
    then (ok tt, s)
    else let spa = le32 pkt 28 in
      let s' = record s { arp = arp_cache_set spa (arp_sha pkt) s.arp } in
      if swap16 (le16 pkt 20) == 1 && le32 pkt 38 == s.ip
      then net_send_frame tx (arp_sha pkt) 0x0806 (arp_bytes 2 s.mac s.ip (arp_sha pkt) spa) s'
      else (ok tt, s')
