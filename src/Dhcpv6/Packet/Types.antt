-- ===== src/Dhcpv6/Packet/Types.antt =====
-- dhcpv6: the type of a packet that has been parsed says which of the two messages it is.
use dhcp.Prelude.{
  ℕ, suc, length, elements, ◌≡◌, refl, sym, ap, ◌∙◌, Bool, true, false, not, Bytes, Slice, ok,
  map_err, map_err-ok, >>=-eq-ok, ok-injective, unless-ok, Bool-cases, inl, inr,
}
use mathlib.Core.Path.{subst}
use dhcp.Uio.{Uio}
use dhcp.Dhcpv6.Message.{message_from_bytes, wrong_type, bad_options}
use dhcp.Dhcpv6.Options.{Kind, from_bytes_with_parser}
use dhcp.Dhcpv6.Relay.{is_relay_type, RelayMessage, relay_from_bytes, finish_relay}
use dhcp.Dhcpv6.Values.{Error}
use dhcp.Dhcpv6.Packet.{Packet, Opt, Opts, message, relay}
use dhcp.Dhcpv6.Packet.Parse.{message_error, parse_packet, packet_from_bytes, kind}
use dhcp.Dhcpv6.Relaying.{packet_type}

-- Whether it is a relay message, if so of which type.
abbrev pub HasRelayType : Packet → Type 0
HasRelayType (message t tid o) = Unit
HasRelayType (relay t hops link peer o) = is_relay_type t ≡ true

module _ (u : Uio) (k : Kind Error Opt) where
  finish_relay-is_relay_type :
      (t hops : ℕ) (link peer rest : Slice) (r : RelayMessage Opt)
      → finish_relay k u t hops link peer rest ≡ ok r
      → is_relay_type r.message_type ≡ true
  unfolding finish_relay
  finish_relay-is_relay_type t hops link peer rest r h =
      let (relays, h₁) = unless-ok (not (is_relay_type t)) wrong_type _ r h in
      let (o, parsed, made) =
        >>=-eq-ok (map_err bad_options (from_bytes_with_parser k u (elements rest))) _ h₁ in
      ap (λ (x : RelayMessage Opt). is_relay_type x.message_type) (sym (ok-injective made))
      ∙ not_false (is_relay_type t) relays
    where
      not_false : (b : Bool) → not b ≡ false → b ≡ true
      not_false true h = refl
      not_false false h = cc

  parse_packet-HasRelayType :
      (bs : Bytes) (p : Packet) → parse_packet k u bs ≡ ok p → HasRelayType p
  unfolding parse_packet relay_from_bytes
  parse_packet-HasRelayType bs p h = elim (Bool-cases (is_relay_type (u.read8 (u.new bs)).0)) [
    | inl c ↦
        let (r, parsed, made) =
          >>=-eq-ok (map_err message_error (relay_from_bytes k u bs)) _ (rw c at h) in
        subst HasRelayType (ok-injective made) (
          finish_relay-is_relay_type _ _ _ _ _ r
            (map_err-ok message_error (relay_from_bytes k u bs) r parsed))
    | inr c ↦
        let (m, parsed, made) =
          >>=-eq-ok (map_err message_error (message_from_bytes k u bs)) _ (rw c at h) in
        subst HasRelayType (ok-injective made) tt
  ]

-- A packet that has been parsed, and has not the type of a relay message, is a message.
pub packet_from_bytes-message :
    (u : Uio) (bs : Bytes) (p : Packet)
    → packet_from_bytes u bs ≡ ok p
    → is_relay_type (packet_type p) ≡ false
    → (tid : Bytes) × (o : Opts) × (p ≡ message (packet_type p) tid o)
unfolding packet_from_bytes
packet_from_bytes-message u bs (message t tid o) h c = (tid, o, refl)
packet_from_bytes-message u bs (relay t hops link peer o) h c =
    cc (sym (parse_packet-HasRelayType u (kind u (suc (length bs))) bs _ h) ∙ c)
