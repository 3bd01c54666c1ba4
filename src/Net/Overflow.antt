-- ===== src/Net/Overflow.antt =====
-- `net_handle_ip` trusts the length field of the IP header.
use kagami_os.Prelude.{
  ℕ, ◌+◌, ◌/◌, ◌≤◌, ◌<◌, ◌≡◌, refl, true, false, ◌∷◌, ◌++◌, arith, length, ltb, take, drop,
}
use kagami_os.Prelude.Bytes.{
  Bytes, byte, le16, le32, bytes16, patch_ok, slice_ok, slice_fault, splice, length-splice, fault,
}
use kagami_os.Net.Words.{checksum16}
use kagami_os.Net.Frames.{NetState, max_frame, eth_header}
use kagami_os.Net.Echo.{
  net_handle_ip, echo_reply, is_request, payload_len, header_len, icmp_header, ip_front, ip_back,
}

-- An echo request for this host in a received frame whose header and ICMP header are complete, but
-- whose length field claims a payload that ends beyond the 1600 bytes of the buffers: the copy loop
-- reads and writes past them, whatever the frame's real length `len` is.
pub net_handle_ip_overflow :
    (tx pkt : Bytes) (len : ℕ) (s : NetState)
    → length tx ≡ max_frame
    → length pkt ≡ max_frame
    → 34 ≤ len
    → byte pkt 14 / 16 ≡ 4
    → eth_header + header_len pkt + icmp_header ≤ len
    → is_request pkt s.ip ≡ true
    → max_frame < eth_header + header_len pkt + icmp_header + payload_len pkt (header_len pkt)
    → net_handle_ip tx pkt len s ≡ (fault, s)
unfolding net_handle_ip echo_reply
net_handle_ip_overflow tx pkt len s room rroom long ver icmp_in req over =
    let ihl = header_len pkt in
    let plen = payload_len pkt ihl in
    let icmp = eth_header + ihl in
    let long' : ltb len 34 ≡ false = ground arith in
    let in' : ltb len (eth_header + header_len pkt + icmp_header) ≡ false = ground arith in
    let h₁ = ip_front (ihl + icmp_header + plen) ++ (bytes16 0 ++ ip_back s.ip (le32 pkt 26)) in
    let o₁ = splice eth_header h₁ tx in
    let n₁ : length o₁ ≡ max_frame = omega (arith, length-splice eth_header h₁ tx) in
    let hdr = take ihl (drop eth_header o₁) in
    let sum = bytes16 (checksum16 hdr) in
    let o₂ = splice 24 sum o₁ in
    let n₂ : length o₂ ≡ max_frame = omega (arith, length-splice 24 sum o₁) in
    let h₂ =
      0 ∷ 0 ∷ (bytes16 0 ++ (bytes16 (le16 pkt (icmp + 4)) ++ bytes16 (le16 pkt (icmp + 6)))) in
    rw
      (
        long',
        ver,
        in',
        req,
        patch_ok eth_header h₁ tx (omega arith),
        slice_ok o₁ eth_header ihl (omega arith),
        patch_ok 24 sum o₁ (omega arith),
        patch_ok icmp h₂ o₂ (omega arith),
        slice_fault pkt (icmp + icmp_header) plen (omega arith),
      )
      refl
