-- ===== src/Net/Echo.antt =====
-- The IP side of net/net.c: echo replies, polling, `arp_resolve` and `net_ping`.
-- `rx` is what a receive buffer held before a frame was copied into it.
use Prim.Native.Nat.{bit_and}
use kagami_os.Prelude.{
  ℕ, zero, suc, ◌+◌, ◌*◌, ◌/◌, ◌%◌, Bool, true, false, not, ◌&&◌, ◌||◌, Option, none, some, [], ◌∷◌,
  ◌++◌, length, ltb, ◌==◌, if◌then◌else◌, take, drop, u16, sub32,
}
use kagami_os.Prelude.Bytes.{Bytes, byte, le16, le32, bytes16, bytes32, patch, slice, ok}
use kagami_os.Prelude.Cmd.{pure, get, lift, ◌>>=◌, ◌>>◌}
use kagami_os.Prelude.Text.{codes}
use kagami_os.Net.Words.{swap16, swap32, checksum16}
use kagami_os.Net.Dotted.{net_parse_ipv4}
use kagami_os.Net.Arp.{arp_cache_get}
use kagami_os.Net.Frames.{
  NetState, Net, max_frame, eth_header, padded, arp_bytes, rtl8139_send, net_send_frame,
  net_handle_arp,
}

abbrev pub ip_header : ℕ
ip_header = 20

abbrev pub icmp_header : ℕ
icmp_header = 8

-- the 20 bytes of an `Ipv4Header` with a zero checksum: the part before the checksum and the rest
abbrev pub ip_front : ℕ → Bytes
ip_front total =
    0x45 ∷ 0 ∷ (bytes16 (swap16 (u16 total)) ++ (bytes16 0 ++ (bytes16 0 ++ (64 ∷ 1 ∷ []))))

abbrev pub ip_back : (src dst : ℕ) → Bytes
ip_back src dst = bytes32 src ++ bytes32 dst

-- the length that the reply's payload is taken to have
abbrev pub payload_len : Bytes → ℕ → ℕ
payload_len pkt ihl = sub32 (sub32 (swap16 (le16 pkt 16)) ihl) icmp_header

abbrev pub header_len : Bytes → ℕ
header_len pkt = byte pkt 14 % 16 * 4

-- The reply to an echo request in `pkt`, in the order of the writes to `reply_buf`.
unfoldable pub echo_reply : (tx pkt : Bytes) → Net (Unit {0})
echo_reply tx pkt = do
  s ← get
  let ihl = header_len pkt
  let len = payload_len pkt ihl
  let icmp = eth_header + ihl
  out ← lift (
      patch eth_header
        (ip_front (ihl + icmp_header + len) ++ (bytes16 0 ++ ip_back s.ip (le32 pkt 26))) tx)
  header ← lift (slice out eth_header ihl)
  out ← lift (patch 24 (bytes16 (checksum16 header)) out)
  out ← lift (
      patch icmp
        (0 ∷ 0 ∷ (bytes16 0 ++ (bytes16 (le16 pkt (icmp + 4)) ++ bytes16 (le16 pkt (icmp + 6)))))
        out)
  payload ← lift (slice pkt (icmp + icmp_header) len)
  out ← lift (patch (icmp + icmp_header) payload out)
  body ← lift (slice out icmp (icmp_header + len))
  out ← lift (patch (icmp + 2) (bytes16 (checksum16 body)) out)
  out ← lift (patch 0 (take 6 (drop 6 pkt) ++ (s.mac ++ bytes16 (swap16 0x0800))) out)
  rtl8139_send out (padded (icmp + icmp_header + len))

-- the frame is an echo request for this host
abbrev pub is_request : Bytes → ℕ → Bool
is_request pkt ip =
    byte pkt 23 == 1 && (byte pkt (eth_header + header_len pkt) == 8 && le32 pkt 30 == ip)

unfoldable pub net_handle_ip : (tx pkt : Bytes) → ℕ → Net (Unit {0})
net_handle_ip tx pkt len s =
    if ltb len (eth_header + ip_header)
    then (ok tt, s)
    else if not (byte pkt 14 / 16 == 4)
    then (ok tt, s)
    else if ltb len (eth_header + header_len pkt + icmp_header)
    then (ok tt, s)
    else if is_request pkt s.ip
    then echo_reply tx pkt s
    else (ok tt, s)

-- `rtl8139_poll`: a frame is cut at the buffer's size, and stands in front of what the buffer held.
unfoldable pub rtl8139_poll : (rx : Bytes) → Net (Option (Bytes × ℕ))
rtl8139_poll rx s = elim s.inbox [
  | [] ↦ (ok none, s)
  | none ∷ more ↦ (ok none, record s { inbox = more })
  | some frame ∷ more ↦
      let got = take max_frame frame in
      (ok (some (got ++ drop (length got) rx, length got)), record s { inbox = more })
]

-- `net_poll` once `rtl8139_poll` has returned
unfoldable pub dispatch : (tx : Bytes) → Option (Bytes × ℕ) → Net (Unit {0})
dispatch tx none = pure tt
dispatch tx (some (buf, len)) =
    let type = swap16 (le16 buf 12) in
    if ltb len eth_header
    then pure tt
    else if type == 0x0806
    then net_handle_arp tx buf len
    else if type == 0x0800
    then net_handle_ip tx buf len
    else pure tt

unfoldable pub net_poll : (rx tx : Bytes) → Net (Unit {0})
net_poll rx tx = do got ← rtl8139_poll rx; dispatch tx got

-- The waiting loop of `arp_resolve`.
unfoldable pub arp_wait : (rounds : ℕ) (rx tx : Bytes) → ℕ → Net (Option Bytes)
arp_wait zero rx tx ip = pure none
arp_wait (suc n) rx tx ip = do
  net_poll rx tx
  s ← get
  elim (arp_cache_get ip s.arp) [ some mac ↦ pure (some mac) | none ↦ arp_wait n rx tx ip ]

abbrev pub arp_rounds : ℕ
arp_rounds = 50000

-- `none` is the result 0.
unfoldable pub arp_resolve : (rx tx : Bytes) → ℕ → Net (Option Bytes)
arp_resolve rx tx ip = do
  s ← get
  elim (arp_cache_get ip s.arp) [
    | some mac ↦ pure (some mac)
    | none ↦ do
      net_send_frame tx (0xff ∷ 0xff ∷ 0xff ∷ 0xff ∷ 0xff ∷ 0xff ∷ []) 0x0806
          (arp_bytes 1 s.mac s.ip (0 ∷ 0 ∷ 0 ∷ 0 ∷ 0 ∷ 0 ∷ []) ip)
      arp_wait arp_rounds rx tx ip
  ]

-- `rtl8139_init` is given as its result: the address that it read, if it found the card.
unfoldable pub net_init : Option Bytes → NetState → Bool × NetState
net_init none s = (false, s)
net_init (some mac) s = (
  true,
  record s {
    mac = mac;
    ip = swap32 0x0A00020F;
    netmask = swap32 0xFFFFFF00;
    gateway = swap32 0x0A000202;
    ready = true;
  },
)

unfoldable pub net_set_ip : (ip netmask gateway : ℕ) → NetState → NetState
net_set_ip a m g s = record s { ip = a; netmask = m; gateway = g }

unfoldable pub net_get_ip : NetState → ℕ × ℕ × ℕ
net_get_ip s = (s.ip, s.netmask, s.gateway)

-- `char payload[] = "Kagami"`, with its zero
abbrev pub ping_payload : Bytes
ping_payload = codes "Kagami" ++ (0 ∷ [])

abbrev pub ping_icmp : ℕ → Bytes
ping_icmp sum =
    8 ∷ 0 ∷ (bytes16 sum ++ (bytes16 (swap16 0x1234) ++ (bytes16 (swap16 1) ++ ping_payload)))

-- the echo request that `net_ping` sends; the rest of the buffer keeps what it held
unfoldable pub ping_packet : (tx dst_mac mac : Bytes) → (src dst : ℕ) → Bytes
ping_packet tx dst_mac mac src dst =
    let front = ip_front (ip_header + icmp_header + length ping_payload) in
    let header = front ++ (bytes16 0 ++ ip_back src dst) in
    let used =
      dst_mac
      ++ (mac
          ++ (bytes16 (swap16 0x0800)
              ++ (front
                  ++ (bytes16 (checksum16 header)
                      ++ (ip_back src dst ++ ping_icmp (checksum16 (ping_icmp 0))))))) in
    used ++ drop (length used) tx

-- the frame is skipped by a `continue`, before `net_poll` is called
abbrev pub is_skipped : Bytes → ℕ → ℕ → Bool
is_skipped buf len dest =
    ltb len (eth_header + ip_header + icmp_header)
    || (not (swap16 (le16 buf 12) == 0x0800)
        || (not (byte buf 23 == 1) || not (le32 buf 26 == dest)))

-- The waiting loop of `net_ping`.
unfoldable pub ping_wait : (rounds : ℕ) (rx tx : Bytes) → ℕ → Net Bool
ping_wait zero rx tx dest = pure false
ping_wait (suc n) rx tx dest = do
  got ← rtl8139_poll rx
  elim got [
    | none ↦ net_poll rx tx >> ping_wait n rx tx dest
    | some (buf, len) ↦
        let again = ping_wait n rx tx dest in
        let polled = net_poll rx tx >> again in
        if is_skipped buf len dest then again else if byte buf 34 == 0 then pure true else polled
  ]

abbrev pub ping_rounds : ℕ
ping_rounds = 200000

-- the address whose hardware address is asked for; `none` without a gateway
unfoldable pub next_hop : NetState → ℕ → Option ℕ
next_hop s dest =
    if bit_and s.ip s.netmask == bit_and dest s.netmask
    then some dest
    else if s.gateway == 0
    then none
    else some s.gateway

unfoldable pub net_ping : (rx tx : Bytes) → Option Bytes → Net Bool
net_ping rx tx ip_str = do
  s ← get
  if not s.ready then pure false else elim (net_parse_ipv4 ip_str) [
    | none ↦ pure false
    | some dest ↦ elim (next_hop s dest) [
      | none ↦ pure false
      | some target ↦ do
        found ← arp_resolve rx tx target
        elim found [
          | none ↦ pure false
          | some dst_mac ↦ do
            s ← get
            let packet = ping_packet tx dst_mac s.mac s.ip dest
            rtl8139_send packet
                (padded (eth_header + ip_header + icmp_header + length ping_payload))
            ping_wait ping_rounds rx tx dest
        ]
    ]
  ]
