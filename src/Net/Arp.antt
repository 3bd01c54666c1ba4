-- ===== src/Net/Arp.antt =====
-- The ARP cache of net/net.c: `g_arp` with `g_arp_count`, as the list of the entries in use.
use kagami_os.Prelude.{
  ℕ, suc, ◌≤◌, ◌≡◌, refl, ◌∙◌, Bool, true, false, not, ◌&&◌, Option, none, some, List, [], ◌∷◌,
  arith, length, ltb, ltb→lt, leb, ◌==◌, if◌then◌else◌, Bool-cases, inl, inr,
}
use kagami_os.Prelude.Bytes.{Bytes}

-- `ArpEntry`
pub record ArpEntry : Type 0 where
  pub ip : ℕ
  pub mac : Bytes

abbrev pub arp_capacity : ℕ
arp_capacity = 8

abbrev pub entry : ℕ → Bytes → ArpEntry
entry a m = record { ip = a; mac = m }

-- The loop; `none` if no entry has the address.
replace_mac : ℕ → Bytes → List ArpEntry → Option (List ArpEntry)
replace_mac ip mac [] = none
replace_mac ip mac (e ∷ es) =
    let rest = replace_mac ip mac es in
    if e.ip == ip
    then some (record e { mac = mac } ∷ es)
    else elim rest [ none ↦ none | some es' ↦ some (e ∷ es') ]

-- The entry behind the last one in use.
add_entry : ℕ → Bytes → List ArpEntry → List ArpEntry
add_entry ip mac [] = entry ip mac ∷ []
add_entry ip mac (e ∷ es) = e ∷ add_entry ip mac es

-- What follows the loop, unless it returned.
or_add : ℕ → Bytes → List ArpEntry → Option (List ArpEntry) → List ArpEntry
or_add ip mac es (some es') = es'
or_add ip mac es none = if ltb (length es) arp_capacity then add_entry ip mac es else es

unfoldable pub arp_cache_set : ℕ → Bytes → List ArpEntry → List ArpEntry
unfolding replace_mac add_entry or_add
arp_cache_set ip mac es = or_add ip mac es (replace_mac ip mac es)

unfoldable pub arp_cache_get : ℕ → List ArpEntry → Option Bytes
arp_cache_get ip [] = none
arp_cache_get ip (e ∷ es) = if e.ip == ip then some e.mac else arp_cache_get ip es

-- whether some entry has the address
abbrev pub cached : ℕ → List ArpEntry → Bool
cached ip [] = false
cached ip (e ∷ es) = if e.ip == ip then true else cached ip es

-- no address has two entries
abbrev pub DistinctIps : List ArpEntry → Type 0
DistinctIps [] = Unit
DistinctIps (e ∷ es) = (cached e.ip es ≡ false) × DistinctIps es

-- `replace_mac` finds the entry exactly when there is one, and it changes one hardware address.
replace_mac-none :
    (ip : ℕ) (mac : Bytes) (es : List ArpEntry)
    → cached ip es ≡ false
    → replace_mac ip mac es ≡ none
unfolding replace_mac
replace_mac-none ip mac [] h = refl
replace_mac-none ip mac (e ∷ es) h = ground (arith, replace_mac-none ip mac es)

abbrev Replaced : ℕ → Bytes → List ArpEntry → Option (List ArpEntry) → Type 0
Replaced ip mac es none = ⊥
Replaced ip mac es (some es') =
    (length es' ≡ length es)
    × ((a : ℕ) → cached a es' ≡ cached a es)
    × ((a : ℕ) → arp_cache_get a es' ≡ (if ip == a then some mac else arp_cache_get a es))
    × (DistinctIps es → DistinctIps es')

Replaced-cons :
    (ip : ℕ) (mac : Bytes) (e : ArpEntry) (es : List ArpEntry) (r : Option (List ArpEntry))
    → (e.ip == ip) ≡ false
    → Replaced ip mac es r
    → Replaced ip mac (e ∷ es) (elim r [ none ↦ none | some es' ↦ some (e ∷ es') ])
unfolding arp_cache_get
Replaced-cons ip mac e es none miss bad = absurd bad
Replaced-cons ip mac e es (some es') miss (n, same, got, apart) = (
  omega arith,
  λ a. ground (arith, same a),
  λ a. ground (arith, got a),
  λ d. (same e.ip ∙ d.0, apart d.1),
)

replace_mac-Replaced :
    (ip : ℕ) (mac : Bytes) (es : List ArpEntry)
    → cached ip es ≡ true
    → Replaced ip mac es (replace_mac ip mac es)
unfolding replace_mac arp_cache_get
replace_mac-Replaced ip mac [] h = cc
replace_mac-Replaced ip mac (e ∷ es) h = elim (Bool-cases (e.ip == ip)) [
  | inl hit ↦ rw hit (refl, λ a. refl, λ a. ground arith, λ d. d)
  | inr miss ↦
      let h' : cached ip es ≡ true = ground arith in
      rw miss
        (Replaced-cons ip mac e es (replace_mac ip mac es) miss (replace_mac-Replaced ip mac es h'))
]

-- `add_entry` for an address that has no entry.
add_entry_lem :
    (ip : ℕ) (mac : Bytes) (es : List ArpEntry)
    → cached ip es ≡ false
    → (length (add_entry ip mac es) ≡ suc (length es))
      × ((a : ℕ) → cached a (add_entry ip mac es) ≡ (if ip == a then true else cached a es))
      × ((a : ℕ)
          → arp_cache_get a (add_entry ip mac es)
            ≡ (if ip == a then some mac else arp_cache_get a es))
      × (DistinctIps es → DistinctIps (add_entry ip mac es))
unfolding add_entry arp_cache_get
add_entry_lem ip mac [] h = (refl, λ a. ground arith, λ a. ground arith, λ d. (refl, tt))
add_entry_lem ip mac (e ∷ es) h =
    let ne : (e.ip == ip) ≡ false = ground arith in
    let (n, same, got, apart) = add_entry_lem ip mac es (ground arith) in
    (
      omega arith,
      λ a. ground (arith, same a),
      λ a. ground (arith, got a),
      λ d. (ground (arith, same e.ip, d.0), apart d.1),
    )

-- After `arp_cache_set` the address has the new hardware address and every other address what it
-- had, unless the address is new and all eight entries are in use: then nothing changes. There are
-- never more than eight entries, and never two for one address.
pub arp_cache_set_lem :
    (ip : ℕ) (mac : Bytes) (es : List ArpEntry)
    → length es ≤ arp_capacity
    → DistinctIps es
    → ((a : ℕ)
        → arp_cache_get a (arp_cache_set ip mac es) ≡ (
            if not (cached ip es) && leb arp_capacity (length es)
            then arp_cache_get a es
            else if ip == a
            then some mac
            else arp_cache_get a es))
      × (length (arp_cache_set ip mac es) ≤ arp_capacity)
      × DistinctIps (arp_cache_set ip mac es)
unfolding arp_cache_set
arp_cache_set_lem ip mac es n d = elim (Bool-cases (cached ip es)) [
  | inl old ↦ rw old (found (replace_mac ip mac es) (replace_mac-Replaced ip mac es old))
  | inr new ↦
      rw (new, replace_mac-none ip mac es new)
        (elim (Bool-cases (ltb (length es) arp_capacity)) [
          | inl room ↦
              let free : leb arp_capacity (length es) ≡ false = ground arith in
              let (m, same, got, apart) = add_entry_lem ip mac es new in
              rw (room, free) (got, omega (arith, ltb→lt (length es) 8 room), apart d)
          | inr full ↦
              let taken : leb arp_capacity (length es) ≡ true = ground arith in
              rw (full, taken) (λ a. refl, n, d)
        ])
]
  where
    found :
        (r : Option (List ArpEntry))
        → Replaced ip mac es r
        → ((a : ℕ)
            → arp_cache_get a (or_add ip mac es r)
              ≡ (if ip == a then some mac else arp_cache_get a es))
          × (length (or_add ip mac es r) ≤ arp_capacity)
          × DistinctIps (or_add ip mac es r)
    found none bad = absurd bad
    found (some es') (m, same, got, apart) = (got, omega arith, apart d)
