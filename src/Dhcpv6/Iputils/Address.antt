-- ===== src/Dhcpv6/Iputils/Address.antt =====
-- dhcpv6/iputils.go: a hardware address is found in the addresses that are made from it.
use dhcp.Prelude.{
  ℕ, zero, suc, ◌≡◌, ◌≢◌, ◌≤◌, ◌<◌, ◌↔◌, refl, ap, true, false, [], ◌∷◌, ◌++◌, some, length, take,
  drop, Bytes, Slice, elements, none, ok, fault, panic, arith, ◌==◌, Bool-cases, inl, inr, ==_iff,
}
use dhcp.Uio.{Uio}
use dhcp.Net.{to16}
use dhcp.Dhcpv6.Packet.{Packet, message, relay}
use dhcp.Dhcpv6.Relaying.{is_relay, peer_addr}
use dhcp.Dhcpv6.Relaying.Layers.{
  IsInside, IsStripped, IsStripped-is_relay, decapsulate_relay-IsInside,
  decapsulate_relay_index_last,
}
use dhcp.Dhcpv6.Iputils.{
  flip_local, flip_first, embedded_mac, get_mac_address_from_eui64, extract_mac, byte_at, peer_of,
}

-- The second half of an address that is made from a hardware address.
abbrev pub eui64 : Bytes → Bytes
eui64 mac = flip_first (take 3 mac) ++ 255 ∷ 254 ∷ drop 3 mac

flip_local-flip_local : (v : ℕ) → flip_local (flip_local v) ≡ v
flip_local-flip_local v = ground arith

pub get_mac_address_from_eui64-eui64 :
    (prefix mac : Bytes)
    → length prefix ≡ 8
    → length mac ≡ 6
    → get_mac_address_from_eui64 (some (prefix ++ eui64 mac)) ≡ ok mac
unfolding get_mac_address_from_eui64 embedded_mac to16
get_mac_address_from_eui64-eui64 (a ∷ b ∷ c ∷ d ∷ e ∷ f ∷ g ∷ h ∷ []) (m ∷ n ∷ o ∷ p ∷ q ∷ r ∷ []) l
      k =
    ap (λ v. ok (v ∷ n ∷ o ∷ p ∷ q ∷ r ∷ [])) (flip_local-flip_local m)
get_mac_address_from_eui64-eui64 _ _ l k = absurd (omega arith)

byte_at-ok : (bs : Bytes) (i : ℕ) → i < length bs → (v : ℕ) × (byte_at bs i ≡ ok v)
byte_at-ok [] i h = absurd (omega arith)
byte_at-ok (v ∷ bs) zero h = (v, refl)
byte_at-ok (v ∷ bs) (suc i) h = byte_at-ok bs i (omega arith)

byte_at-fault : (bs : Bytes) (i : ℕ) → length bs ≤ i → byte_at bs i ≡ fault panic
byte_at-fault [] i h = refl
byte_at-fault (v ∷ bs) zero h = absurd (omega arith)
byte_at-fault (v ∷ bs) (suc i) h = byte_at-fault bs i (omega arith)

embedded_mac-ne-fault : (ip : Bytes) → 13 ≤ length ip → embedded_mac ip ≢ fault panic
unfolding embedded_mac
embedded_mac-ne-fault ip h =
    let (a, at_a) = byte_at-ok ip 11 (omega arith) in
    let (b, at_b) = byte_at-ok ip 12 (omega arith) in
    rw (at_a, at_b)
      (λ p. elim (Bool-cases (a == 255)) [
        | inl q ↦ elim (Bool-cases (b == 254)) [
          | inl r ↦ cc (rw (q, r) at p)
          | inr r ↦ cc (rw (q, r) at p)
        ]
        | inr q ↦ cc (rw q at p)
      ])

-- `GetMacAddressFromEUI64` panics on the IPv4 addresses of four bytes, and on no other slice.
pub get_mac_address_from_eui64_panics :
    (ip : Slice) → (get_mac_address_from_eui64 ip ≡ fault panic) ↔ (length (elements ip) ≡ 4)
unfolding get_mac_address_from_eui64 embedded_mac to16
get_mac_address_from_eui64_panics none = ((λ p. cc), (λ p. absurd (omega arith)))
get_mac_address_from_eui64_panics (some ip) = elim (Bool-cases (length ip == 4)) [
  | inl p ↦
      let four = (==_iff (length ip) 4).0 p in
      ((λ q. four), (λ q. rw (p, byte_at-fault ip 11 (omega arith)) refl))
  | inr p ↦ elim (Bool-cases (length ip == 16)) [
    | inl q ↦
        let sixteen = (==_iff (length ip) 16).0 q in
        (
          (λ r. absurd (embedded_mac-ne-fault ip (omega arith) (rw (p, q) at r))),
          (λ r. absurd (omega arith)),
        )
    | inr q ↦ ((λ r. cc (rw (p, q) at r)), (λ r. cc (p, (==_iff (length ip) 4).1 r)))
  ]
]

peer_of_relay : (e : Packet) → is_relay e ≡ true → peer_of e ≡ ok (peer_addr e)
unfolding is_relay
peer_of_relay (message t tid o) h = cc
peer_of_relay (relay t hops link peer o) h = refl

module _ (u : Uio) where
  -- Of a packet in layers of relays, of any types, of which the innermost has for its peer an address
  -- that is made from a hardware address, `ExtractMAC` gives that address.
  pub extract_mac-IsStripped :
      (n : ℕ) (p e m : Packet) (prefix mac : Bytes)
      → IsStripped n p e
      → IsInside m e
      → is_relay m ≡ false
      → length prefix ≡ 8
      → length mac ≡ 6
      → peer_addr e ≡ some (prefix ++ eui64 mac)
      → extract_mac u p ≡ ok mac
  unfolding extract_mac
  extract_mac-IsStripped n p e m prefix mac s w r eight six peer =
      let relays = IsStripped-is_relay u n p e m s w in
      let inner = decapsulate_relay_index_last u n p e m s w r in
      let innermost = (decapsulate_relay-IsInside u m e w).0 in
      let from_peer = get_mac_address_from_eui64-eui64 prefix mac eight six in
      rw (relays, inner, peer_of_relay e innermost, peer, from_peer) refl
