-- ===== src/Net/Tests.antt =====
-- Runs of the network code, and its theorems at concrete frames.
use kagami_os.Prelude.{
  ℕ, ◌≤◌, ◌≡◌, refl, true, not, ◌&&◌, none, some, [], ◌∷◌, ◌++◌, arith, length, leb, ◌==◌,
  replicate, if◌then◌else◌,
}
use kagami_os.Prelude.Bytes.{Bytes, bytes16, bytes32, ok, fault}
use kagami_os.Prelude.Text.{codes}
use kagami_os.Net.Words.{swap16, swap32, word_sum, fold_carry, checksum16}
use kagami_os.Net.Checksum.{checksum16_verifies}
use kagami_os.Net.Dotted.{
  net_parse_ipv4, net_ip_to_str, scan_loop, dotted, net_parse_ipv4-net_ip_to_str,
}
use kagami_os.Net.Arp.{
  entry, arp_capacity, cached, arp_cache_set, arp_cache_get, DistinctIps, arp_cache_set_lem,
}
use kagami_os.Net.Frames.{NetState, net_send_frame, net_handle_arp, arp_bytes}
use kagami_os.Net.Send.{frame_for, asks_for, net_send_frame_lem, net_handle_arp_lem}
use kagami_os.Net.Echo.{net_handle_ip}
use kagami_os.Net.Overflow.{net_handle_ip_overflow}

abbrev card : Bytes
card = 0x52 ∷ 0x54 ∷ 0 ∷ 1 ∷ 2 ∷ 3 ∷ []

abbrev host : NetState
host = record {
  mac = card;
  inbox = [];
  outbox = [];
  ready = true;
  ip = 0x0f02000a;
  netmask = 0x00ffffff;
  gateway = 0x0202000a;
  arp = entry 0x0202000a card ∷ [];
}

-- an uninitialised buffer
stale : Bytes
stale = replicate 1600 0xcc

stale-length : length stale ≡ 1600
unfolding stale
stale-length = refl

addresses :
    (net_parse_ipv4 (some (codes "10.0.2.15")) ≡ some 0x0f02000a)
    × (net_parse_ipv4 (some (codes "10.0.2.256")) ≡ none)
    × (net_parse_ipv4 (some (codes "...")) ≡ some 0)
    × (net_parse_ipv4 none ≡ none)
    × (net_ip_to_str 0x0f02000a 16 ≡ some (codes "10.0.2.15"))
    × (net_ip_to_str 0x0f02000a 4 ≡ some (codes "10."))
unfolding net_parse_ipv4 net_ip_to_str scan_loop swap32
addresses = (refl, refl, refl, refl, refl, refl)

checksum_runs : checksum16 (0x45 ∷ 0 ∷ 1 ∷ []) ≡ 0xffb9
unfolding checksum16 word_sum fold_carry
checksum_runs = refl

checksum16_verifies_example :
    checksum16
      (8 ∷ 0 ∷ (bytes16 (checksum16 (8 ∷ 0 ∷ (bytes16 0 ++ (1 ∷ 2 ∷ 3 ∷ [])))) ++ (1 ∷ 2 ∷ 3 ∷ [])))
    ≡ 0
checksum16_verifies_example =
    checksum16_verifies 1 (8 ∷ 0 ∷ []) (1 ∷ 2 ∷ 3 ∷ []) refl (omega arith) (omega arith)
      (omega arith)

net_parse_ipv4-net_ip_to_str_example :
    (net_ip_to_str 0x0f02000a 16 ≡ some (dotted (swap32 0x0f02000a)))
    × (net_parse_ipv4 (net_ip_to_str 0x0f02000a 16) ≡ some 0x0f02000a)
net_parse_ipv4-net_ip_to_str_example =
    net_parse_ipv4-net_ip_to_str 0x0f02000a 16 (omega arith) (omega arith)

arp_cache_set_lem_example :
    ((a : ℕ)
      → arp_cache_get a (arp_cache_set 5 (9 ∷ []) host.arp) ≡ (
          if not (cached 5 host.arp) && leb arp_capacity 1
          then arp_cache_get a host.arp
          else if 5 == a
          then some (9 ∷ [])
          else arp_cache_get a host.arp))
    × (length (arp_cache_set 5 (9 ∷ []) host.arp) ≤ arp_capacity)
    × DistinctIps (arp_cache_set 5 (9 ∷ []) host.arp)
arp_cache_set_lem_example = arp_cache_set_lem 5 (9 ∷ []) host.arp (omega arith) (refl, tt)

net_send_frame_lem_example :
    net_send_frame stale card 0x0800 (1 ∷ 2 ∷ []) host
    ≡ (ok tt, record host { outbox = frame_for stale card card 0x0800 (1 ∷ 2 ∷ []) ∷ [] })
net_send_frame_lem_example =
    net_send_frame_lem stale card (1 ∷ 2 ∷ []) 0x0800 host stale-length refl refl (omega arith)

-- who has 10.0.2.15? tell 10.0.2.2
abbrev arp_request : Bytes
arp_request =
    replicate 12 0xff
    ++ (8
        ∷ 6
        ∷ (0
            ∷ 1
            ∷ 8
            ∷ 0
            ∷ 6
            ∷ 4
            ∷ 0
            ∷ 1
            ∷ (card ++ (bytes32 0x0202000a ++ (replicate 6 0 ++ bytes32 0x0f02000a)))))

net_handle_arp_lem_example : net_handle_arp stale arp_request 42 host ≡ (
  ok tt,
  record host {
    arp = arp_cache_set 0x0202000a card host.arp;
    outbox =
        []
        ++ (if asks_for arp_request 0x0f02000a
            then frame_for stale card card 0x0806 (arp_bytes 2 card 0x0f02000a card 0x0202000a) ∷ []
            else []);
  },
)
unfolding swap16
net_handle_arp_lem_example =
    net_handle_arp_lem stale arp_request 42 host stale-length refl (omega arith) (omega arith) refl
      refl

-- an echo request of 42 bytes whose length field says 2000
abbrev lying_request : Bytes
lying_request =
    replicate 12 1
    ++ (8
        ∷ 0
        ∷ 0x45
        ∷ 0
        ∷ 0x07
        ∷ 0xd0
        ∷ 0
        ∷ 0
        ∷ 0
        ∷ 0
        ∷ 64
        ∷ 1
        ∷ 0
        ∷ 0
        ∷ (bytes32 0x0202000a ++ (bytes32 0x0f02000a ++ (8 ∷ 0 ∷ replicate 1564 0))))

lying-length : length lying_request ≡ 1600
lying-length = refl

net_handle_ip_overflow_example : net_handle_ip stale lying_request 42 host ≡ (fault, host)
unfolding swap16
net_handle_ip_overflow_example =
    net_handle_ip_overflow stale lying_request 42 host stale-length lying-length (omega arith) refl
      (omega arith) refl (omega arith)
