-- ===== src/Dhcpv4/Addresses.antt =====
-- dhcpv4/dhcpv4.go: the addresses of an interface that a client may use.
use dhcp.Prelude.{
  ◌≡◌, refl, sym, ap, ◌∙◌, false, List, [], ◌∷◌, none, some, ◌==◌, if◌then◌else◌, length, take,
  Bytes, Slice, elements, equal, All, arith, Bool-cases, inl, inr, ==_iff, length-drop,
}
use mathlib.Core.Option.{some-injective}
use dhcp.Net.{to4, is_loopback, v4_prefix}

-- `net.Addr`: `*net.IPAddr`, `*net.IPNet`, or a type that has no address.
pub data Addr : Type 0 where
  ip_addr ip_net : Slice → Addr
  other_addr : Addr

abbrev pub ip_of : Addr → Slice
ip_of (ip_addr ip) = ip
ip_of (ip_net ip) = ip
ip_of other_addr = none

-- `if ip == nil { continue }`, and `append` else.
abbrev pub append_ip : Slice → List Slice → List Slice
append_ip none ips = ips
append_ip (some ip) ips = some ip ∷ ips

abbrev pub unless_loopback : Slice → List Slice → List Slice
unless_loopback none ips = ips
unless_loopback (some ip) ips = if is_loopback (some ip) then ips else append_ip (to4 (some ip)) ips

-- `GetExternalIPv4Addrs`, which has no error.
unfoldable pub get_external_ipv4_addrs : List Addr → List Slice
get_external_ipv4_addrs [] = []
get_external_ipv4_addrs (addr ∷ addrs) =
    unless_loopback (ip_of addr) (get_external_ipv4_addrs addrs)

-- An address in its four bytes that is no loopback address.
abbrev pub IsExternal : Slice → Type 0
IsExternal ip = (length (elements ip) ≡ 4) × (is_loopback ip ≡ false)

to4-four : (ip : Slice) (v : Bytes) → to4 ip ≡ some v → length v ≡ 4
unfolding to4
to4-four none v h = cc
to4-four (some ip) v h = elim (Bool-cases (length ip == 4)) [
  | inl p ↦ ap length (sym (some-injective _ _ (rw p at h))) ∙ (==_iff (length ip) 4).0 p
  | inr p ↦ elim (Bool-cases (length ip == 16)) [
    | inl q ↦ elim (Bool-cases (equal (take 12 ip) v4_prefix)) [
      | inl s ↦
          let sixteen = (==_iff (length ip) 16).0 q in
          let same = some-injective _ _ (rw (p, q, s) at h) in
          omega (arith, length-drop 12 ip, ap length same)
      | inr s ↦ cc (rw (p, q, s) at h)
    ]
    | inr q ↦ cc (rw (p, q) at h)
  ]
]

pub to4_again : (v : Bytes) → length v ≡ 4 → to4 (some v) ≡ some v
unfolding to4
to4_again v h = rw ((==_iff (length v) 4).1 h) refl

append_ip-IsExternal :
    (ip : Slice) (r : Slice) (ips : List Slice)
    → to4 ip ≡ r
    → is_loopback ip ≡ false
    → All IsExternal ips
    → All IsExternal (append_ip r ips)
unfolding is_loopback
append_ip-IsExternal ip none ips h l v = v
append_ip-IsExternal ip (some []) ips h l v = absurd (omega (arith, to4-four ip [] h))
append_ip-IsExternal ip (some (a ∷ rest)) ips h l v =
    let four = to4-four ip (a ∷ rest) h in ((four, rw (to4_again (a ∷ rest) four) (rw h at l)), v)

unless_loopback-IsExternal :
    (ip : Slice) (ips : List Slice) → All IsExternal ips → All IsExternal (unless_loopback ip ips)
unless_loopback-IsExternal none ips v = v
unless_loopback-IsExternal (some ip) ips v = elim (Bool-cases (is_loopback (some ip))) [
  | inl p ↦ rw p v
  | inr p ↦ rw p (append_ip-IsExternal (some ip) (to4 (some ip)) ips refl p v)
]

-- The addresses that are given have four bytes and are no loopback addresses.
pub get_external_ipv4_addrs_sound :
    (addrs : List Addr) → All IsExternal (get_external_ipv4_addrs addrs)
unfolding get_external_ipv4_addrs
get_external_ipv4_addrs_sound [] = tt
get_external_ipv4_addrs_sound (addr ∷ addrs) =
    unless_loopback-IsExternal (ip_of addr) (get_external_ipv4_addrs addrs)
      (get_external_ipv4_addrs_sound addrs)
