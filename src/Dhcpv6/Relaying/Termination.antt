-- ===== src/Dhcpv6/Relaying/Termination.antt =====
-- dhcpv6/dhcpv6.go and dhcpv6/dhcpv6relay.go: the loops over the layers of a packet end.
use dhcp.Prelude.{
  ℕ, zero, suc, ◌≡◌, ◌≢◌, ◌≤◌, ◌<◌, refl, ap, true, not, Option, none, some, ◌==◌, if◌then◌else◌,
  Result, ok, err, fault, panic, out_of_fuel, ◌>>=◌, arith, Bool-cases, inl, inr, ok-injective,
}
use dhcp.Uio.{Uio}
use dhcp.Dhcpv6.Options.{get_one}
use dhcp.Dhcpv6.Packet.{
  Packet, Opt, Opts, message, relay, plain, ia_na, ia_pd, ia_address, ia_prefix, relay_msg, nil,
  cons, to_list, option_code,
}
use dhcp.Dhcpv6.Packet.Parse.{kind}
use dhcp.Dhcpv6.Packet.Depth.{depth, depth_options, depth_packet}
use dhcp.Dhcpv6.Relaying.{
  Error, ℤ, is_relay, get_one_option, relayed, decapsulate_relay, last_relay, decapsulate_times,
  decapsulate_at, decapsulate_relay_index, inner_message, get_inner_message, message_or, pos,
  negsuc,
}

get_one-depth :
    (u : Uio) (c : ℕ) (o : Opts) (x : Opt)
    → get_one (kind u 0) c (to_list o) ≡ some x
    → depth x ≤ depth_options o
unfolding get_one depth_options
get_one-depth u c nil x h = cc
get_one-depth u c (cons y o) x h = elim (Bool-cases (option_code y == c)) [
  | inl p ↦ grind (arith, rw p at h)
  | inr p ↦ omega (arith, get_one-depth u c o x (rw p at h))
]

pub relayed-ok : (o : Option Opt) (d : Packet) → relayed o ≡ ok d → o ≡ some (relay_msg d)
relayed-ok none d h = cc
relayed-ok (some (relay_msg e)) d h = ap (λ p. some (relay_msg p)) (ok-injective h)
relayed-ok (some (plain v)) d h = cc
relayed-ok (some (ia_na i t₁ t₂ o)) d h = cc
relayed-ok (some (ia_pd i t₁ t₂ o)) d h = cc
relayed-ok (some (ia_address i p v o)) d h = cc
relayed-ok (some (ia_prefix p v l i o)) d h = cc

relayed-ne-out_of_fuel : (o : Option Opt) → relayed o ≢ fault out_of_fuel
relayed-ne-out_of_fuel none p = cc
relayed-ne-out_of_fuel (some (relay_msg e)) p = cc
relayed-ne-out_of_fuel (some (plain v)) p = cc
relayed-ne-out_of_fuel (some (ia_na i t₁ t₂ o)) p = cc
relayed-ne-out_of_fuel (some (ia_pd i t₁ t₂ o)) p = cc
relayed-ne-out_of_fuel (some (ia_address i a v o)) p = cc
relayed-ne-out_of_fuel (some (ia_prefix a v l i o)) p = cc

module _ (u : Uio) where
  -- What is inside a relay message is less deep.
  pub decapsulate_relay-depth :
      (l d : Packet)
      → is_relay l ≡ true
      → decapsulate_relay u l ≡ ok d
      → depth_packet d < depth_packet l
  unfolding is_relay decapsulate_relay get_one_option depth_packet depth
  decapsulate_relay-depth (message t tid o) d r h = cc
  decapsulate_relay-depth (relay t hops link peer o) d r h =
      let found = relayed-ok (get_one (kind u 0) 9 (to_list o)) d h in
      omega (arith, get_one-depth u 9 o (relay_msg d) found)

  decapsulate-ne-out_of_fuel : (l : Packet) → decapsulate_relay u l ≢ fault out_of_fuel
  unfolding decapsulate_relay is_relay
  decapsulate-ne-out_of_fuel (message t tid o) = λ p. cc
  decapsulate-ne-out_of_fuel (relay t hops link peer o) =
      relayed-ne-out_of_fuel (get_one_option u 9 (relay t hops link peer o))

  -- A run that goes on from what is inside, if that is not `fault out_of_fuel`.
  next-ne-out_of_fuel :
      {A : Type 0} (l : Packet) (next : Packet → Result Error A)
      → ((d : Packet) → decapsulate_relay u l ≡ ok d → next d ≢ fault out_of_fuel)
      → (decapsulate_relay u l >>= next) ≢ fault out_of_fuel
  next-ne-out_of_fuel l next h = go (decapsulate_relay u l) refl
    where
      go : (r : Result Error Packet) → decapsulate_relay u l ≡ r → (r >>= next) ≢ fault out_of_fuel
      go (ok d) e = h d e
      go (err x) e = λ p. cc
      go (fault out_of_fuel) e = absurd (decapsulate-ne-out_of_fuel l e)
      go (fault panic) e = λ p. cc

  last_relay-ne-out_of_fuel :
      (f : ℕ) (l : Packet)
      → is_relay l ≡ true
      → depth_packet l < f
      → last_relay u f l ≢ fault out_of_fuel
  unfolding last_relay
  last_relay-ne-out_of_fuel zero l r h = absurd (omega arith)
  last_relay-ne-out_of_fuel (suc f) l r h =
      next-ne-out_of_fuel l (λ d. if not (is_relay d) then ok l else last_relay u f d)
        (λ d e.
          let less = decapsulate_relay-depth l d r e in
          elim (Bool-cases (is_relay d)) [
            | inl p ↦ rw p (last_relay-ne-out_of_fuel f d p (omega arith))
            | inr p ↦ rw p (λ q. cc)
          ])

  decapsulate_times-ne-out_of_fuel :
      (n : ℕ) (l : Packet) → decapsulate_times u n l ≢ fault out_of_fuel
  unfolding decapsulate_times
  decapsulate_times-ne-out_of_fuel zero l = λ p. cc
  decapsulate_times-ne-out_of_fuel (suc n) l =
      next-ne-out_of_fuel l (decapsulate_times u n) (λ d e. decapsulate_times-ne-out_of_fuel n d)

  -- Taking off the layers up to an index, or all but the last, comes to an end.
  pub decapsulate_relay_index-ne-out_of_fuel :
      (l : Packet) (index : ℤ) → decapsulate_relay_index u l index ≢ fault out_of_fuel
  unfolding decapsulate_relay_index
  decapsulate_relay_index-ne-out_of_fuel l index = elim (Bool-cases (is_relay l)) [
    | inl p ↦ rw p (at_index index p)
    | inr p ↦ rw p (λ q. cc)
  ]
    where
      at_index : (index : ℤ) → is_relay l ≡ true → decapsulate_at u index l ≢ fault out_of_fuel
      at_index (pos n) r = decapsulate_times-ne-out_of_fuel (suc n) l
      at_index (negsuc zero) r = last_relay-ne-out_of_fuel (suc (depth_packet l)) l r (omega arith)
      at_index (negsuc (suc n)) r = λ p. cc

  inner_message-ne-out_of_fuel :
      (f : ℕ) (l : Packet)
      → is_relay l ≡ true
      → depth_packet l < f
      → inner_message u f l ≢ fault out_of_fuel
  unfolding inner_message is_relay
  inner_message-ne-out_of_fuel zero l r h = absurd (omega arith)
  inner_message-ne-out_of_fuel (suc f) l r h =
      next-ne-out_of_fuel l (λ d. message_or d (inner_message u f d))
        (λ d e. go d (decapsulate_relay-depth l d r e) (λ k. inner_message-ne-out_of_fuel f d k))
    where
      go :
          (d : Packet)
          → depth_packet d < depth_packet l
          → (is_relay d ≡ true → depth_packet d < f → inner_message u f d ≢ fault out_of_fuel)
          → message_or d (inner_message u f d) ≢ fault out_of_fuel
      go (message t tid o) less ih = λ p. cc
      go (relay t hops link peer o) less ih = ih refl (omega arith)

  -- Looking for the message inside a relay message comes to an end, however deep it is.
  pub get_inner_message-ne-out_of_fuel :
      (l : Packet) → is_relay l ≡ true → get_inner_message u l ≢ fault out_of_fuel
  unfolding get_inner_message
  get_inner_message-ne-out_of_fuel l r =
      inner_message-ne-out_of_fuel (suc (depth_packet l)) l r (omega arith)
