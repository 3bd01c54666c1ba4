-- ===== src/Net/Dotted.antt =====
-- `net_parse_ipv4` and `net_ip_to_str` of net/net.c. Addresses are held in network byte order.
use kagami_os.Prelude.{
  ℕ, zero, suc, ◌+◌, ◌-◌, ◌*◌, ◌/◌, ◌%◌, ◌^◌, ◌≤◌, ◌<◌, ◌≡◌, refl, ◌∙◌, ap, ◌&&◌, Option, none,
  some, List, [], ◌∷◌, ◌++◌, arith, length, length-append, false, u32, leb, ltb, ◌==◌,
  if◌then◌else◌, set, get_or,
}
use kagami_os.Prelude.Bytes.{Bytes}
use kagami_os.Net.Words.{swap32, swap32-lt, swap-swap}

-- `uint32_t parts[4]`, `part` and `value`
pub record Scan : Type 0 where
  pub parts : List ℕ
  pub part : ℕ
  pub value : ℕ

abbrev scan : List ℕ → ℕ → ℕ → Scan
scan ps p v = record { parts = ps; part = p; value = v }

-- The loop over the characters; `none` is an early `return 0`.
unfoldable pub scan_loop : Bytes → Scan → Option Scan
scan_loop [] s = some s
scan_loop (c ∷ str) s =
    let value' = u32 (s.value * 10 + (c - b'0')) in
    let digit = scan_loop str (record s { value = value' }) in
    let dot =
      scan_loop str (record { parts = set s.parts s.part s.value; part = s.part + 1; value = 0 }) in
    if leb b'0' c && leb c b'9'
    then (if ltb 255 value' then none else digit)
    else if c == b'.'
    then (if leb 4 s.part then none else dot)
    else none

-- What follows the loop. The shifted parts have no bit in common.
unfoldable pub finish : Scan → Option ℕ
finish s =
    let parts = set s.parts 3 s.value in
    let ip =
      get_or parts 0 0 * 2 ^ 24
      + get_or parts 1 0 * 2 ^ 16
      + get_or parts 2 0 * 2 ^ 8
      + get_or parts 3 0 in
    if s.part == 3 then some (swap32 ip) else none

unfoldable pub returned : Option Scan → Option ℕ
returned none = none
returned (some s) = finish s

-- The loop sees no character behind a null pointer, as in the empty string.
abbrev pub null_text : Option Bytes → Bytes
null_text none = []
null_text (some str) = str

unfoldable pub net_parse_ipv4 : Option Bytes → Option ℕ
unfolding finish returned
net_parse_ipv4 str = returned (scan_loop (null_text str) (scan (0 ∷ 0 ∷ 0 ∷ 0 ∷ []) 0 0))

-- one round of the loop over `bytes`, without the dot
pub octet : ℕ → Bytes
octet val =
    if leb 100 val
    then (b'0' + val / 100) ∷ (b'0' + val / 10 % 10) ∷ (b'0' + val % 10) ∷ []
    else if leb 10 val
    then (b'0' + val / 10) ∷ (b'0' + val % 10) ∷ []
    else (b'0' + val) ∷ []

-- `buf`, up to its final zero
pub dotted : ℕ → Bytes
dotted v =
    octet (v / 2 ^ 24 % 2 ^ 8)
    ++ (b'.'
        ∷ (octet (v / 2 ^ 16 % 2 ^ 8)
            ++ (b'.' ∷ (octet (v / 2 ^ 8 % 2 ^ 8) ++ (b'.' ∷ octet (v % 2 ^ 8))))))

-- `while (buf[i] && i < max_len - 1)`; `room` is `max_len - 1 - i`
copy_text : Bytes → (room : ℕ) → Bytes
copy_text [] room = []
copy_text (c ∷ buf) zero = []
copy_text (c ∷ buf) (suc room) = c ∷ copy_text buf room

-- The text left in `out`; nothing is written for `max_len` 0.
unfoldable pub net_ip_to_str : ℕ → ℕ → Option Bytes
unfolding octet dotted copy_text
net_ip_to_str ip max_len =
    if max_len == 0 then none else some (copy_text (dotted (swap32 ip)) (max_len - 1))

-- Reading the digits of an octet.
scan_loop-octet :
    (val : ℕ) (rest : Bytes) (ps : List ℕ) (p : ℕ)
    → val < 256
    → scan_loop (octet val ++ rest) (scan ps p 0) ≡ scan_loop rest (scan ps p val)
unfolding scan_loop octet
scan_loop-octet val rest ps p h = ground arith

scan_loop-octet_end :
    (val : ℕ) (ps : List ℕ) (p : ℕ)
    → val < 256
    → scan_loop (octet val) (scan ps p 0) ≡ some (scan ps p val)
unfolding scan_loop octet
scan_loop-octet_end val ps p h = ground arith

length-octet : (val : ℕ) → length (octet val) ≤ 3
unfolding octet
length-octet val = ground arith

length-dotted : (v : ℕ) → length (dotted v) ≤ 15
unfolding dotted
length-dotted v =
    let a = v / 2 ^ 24 % 2 ^ 8 in
    let b = v / 2 ^ 16 % 2 ^ 8 in
    let c = v / 2 ^ 8 % 2 ^ 8 in
    let d = v % 2 ^ 8 in
    let tail₁ = b'.' ∷ octet d in
    let tail₂ = b'.' ∷ (octet c ++ tail₁) in
    let tail₃ = b'.' ∷ (octet b ++ tail₂) in
    omega (
      arith,
      length-octet a,
      length-octet b,
      length-octet c,
      length-octet d,
      length-append (octet c) tail₁,
      length-append (octet b) tail₂,
      length-append (octet a) tail₃,
    )

copy_text-all : (buf : Bytes) (room : ℕ) → length buf ≤ room → copy_text buf room ≡ buf
unfolding copy_text
copy_text-all [] room h = refl
copy_text-all (c ∷ buf) zero h = absurd (omega arith)
copy_text-all (c ∷ buf) (suc room) h = ap (λ r. c ∷ r) (copy_text-all buf room (omega arith))

scan_loop-dotted :
    (v : ℕ)
    → scan_loop (dotted v) (scan (0 ∷ 0 ∷ 0 ∷ 0 ∷ []) 0 0)
      ≡ some (
          scan (v / 2 ^ 24 % 2 ^ 8 ∷ v / 2 ^ 16 % 2 ^ 8 ∷ v / 2 ^ 8 % 2 ^ 8 ∷ 0 ∷ []) 3 (v % 2 ^ 8))
unfolding scan_loop dotted
scan_loop-dotted v =
    scan_loop-octet (v / 2 ^ 24 % 2 ^ 8) _ _ 0 (omega arith)
    ∙ scan_loop-octet (v / 2 ^ 16 % 2 ^ 8) _ _ 1 (omega arith)
    ∙ scan_loop-octet (v / 2 ^ 8 % 2 ^ 8) _ _ 2 (omega arith)
    ∙ scan_loop-octet_end (v % 2 ^ 8) _ 3 (omega arith)

finish-octets :
    (v : ℕ)
    → v < 2 ^ 32
    → finish
        (scan (v / 2 ^ 24 % 2 ^ 8 ∷ v / 2 ^ 16 % 2 ^ 8 ∷ v / 2 ^ 8 % 2 ^ 8 ∷ 0 ∷ []) 3 (v % 2 ^ 8))
      ≡ some (swap32 v)
unfolding finish
finish-octets v h = ap (λ w. some (swap32 w)) (omega arith)

-- Printing any address into a buffer of at least 16 bytes and parsing the text gives the address.
pub net_parse_ipv4-net_ip_to_str :
    (ip max_len : ℕ)
    → ip < 2 ^ 32
    → 16 ≤ max_len
    → (net_ip_to_str ip max_len ≡ some (dotted (swap32 ip)))
      × (net_parse_ipv4 (net_ip_to_str ip max_len) ≡ some ip)
unfolding net_ip_to_str net_parse_ipv4
net_parse_ipv4-net_ip_to_str ip max_len word room =
    let v = swap32 ip in
    let fits : copy_text (dotted v) (max_len - 1) ≡ dotted v =
      copy_text-all (dotted v) (max_len - 1) (omega (arith, length-dotted v)) in
    let wide : (max_len == 0) ≡ false = ground arith in
    rw (wide, fits)
      (
        refl,
        ap returned (scan_loop-dotted v)
            ∙ finish-octets v (swap32-lt ip)
            ∙ ap some (swap-swap 0 ip (omega arith) word).1,
      )
