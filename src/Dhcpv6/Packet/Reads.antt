-- ===== src/Dhcpv6/Packet/Reads.antt =====
-- dhcpv6: reading a container, when the options in it are read.
use dhcp.Prelude.{
  ℕ, ◌≡◌, ◌≤◌, ◌≢◌, refl, ap, ◌∙◌, true, false, [], ◌∷◌, ◌++◌, some, Bytes, Slice, elements, length,
  All, IsByte, ok, arith,
}
use dhcp.Uio.{Uio}
use dhcp.Uio.Reads.{read_bytes_append}
use dhcp.Uio.Words.{IsWord32, bytes32, read32_bytes32}
use dhcp.Uio.Words.Items.{IsIpv6, read_ip_lem}
use dhcp.Dhcpv6.Options.{from_bytes_with_parser}
use dhcp.Dhcpv6.Options.RoundTrip.{IsCodec, from_bytes_with_parser-to_bytes}
use dhcp.Dhcpv6.Message.{Message, message_from_bytes}
use dhcp.Dhcpv6.Message.RoundTrip.{message_from_bytes-message_to_bytes}
use dhcp.Dhcpv6.Relay.{
  RelayMessage, is_relay_type, relay_from_bytes, IsRelayMessage, relay_from_bytes-relay_to_bytes,
  relay_written,
}
use dhcp.Dhcpv6.Values.{unread}
use dhcp.Dhcpv6.Values.RoundTrip.{finish_lem}
use dhcp.Dhcpv6.Packet.{
  Packet, Opt, Opts, message, relay, ia_address, ia_prefix, nil, cons, to_list, of_list,
  packet_bytes,
}
use dhcp.Dhcpv6.Packet.Parse.{
  kind, nested, parse_ia, parse_ia_address, parse_ia_prefix, parse_packet,
}
use dhcp.Dhcpv6.Packet.Written.{
  options_bytes, options_bytes-to_bytes, message-written, message-message_to_bytes,
  relay-relay_to_bytes,
}
use dhcp.Dhcpv6.Packet.Depth.{IsOptions, IsPacket, depth_options, depth_packet}

of_list-to_list : (o : Opts) → of_list (to_list o) ≡ o
of_list-to_list nil = refl
of_list-to_list (cons x o) = ap (cons x) (of_list-to_list o)

not_relay-ne : (t : ℕ) → is_relay_type t ≡ false → (t ≢ 12) × (t ≢ 13)
unfolding is_relay_type
not_relay-ne t h = ((λ p. ground (arith, p, h)), (λ p. ground (arith, p, h)))

module _ (u : Uio) (n : ℕ) where
  open u use {Lexer, holds}

  -- What is in the options of a container is read back, if its parser reads what is less deep.
  abbrev pub IsRead : Opts → Type 0
  IsRead o = from_bytes_with_parser (kind u n) u (options_bytes u o) ≡ ok (to_list o)

  pub options-IsRead : (s : IsCodec (kind u n)) (o : Opts) → All s.IsValid (to_list o) → IsRead o
  options-IsRead s o h =
      ap (from_bytes_with_parser (kind u n) u) (options_bytes-to_bytes u n o)
      ∙ from_bytes_with_parser-to_bytes u (kind u n) s (to_list o) h

  nested_lem :
      (make : Opts → Opt) (o : Opts)
      → IsRead o
      → nested (kind u n) u make (some (options_bytes u o)) (holds [] false) ≡ ok (make o)
  unfolding nested
  nested_lem make o h =
      rw (h, nested) (finish_lem u unread (make (of_list (to_list o))))
      ∙ ap (λ p. ok (make p)) (of_list-to_list o)

  pub parse_ia_lem :
      (make : Bytes → ℕ → ℕ → Opts → Opt) (i : Bytes) (t₁ t₂ : ℕ) (o : Opts)
      → length i ≡ 4
      → IsWord32 t₁
      → IsWord32 t₂
      → IsRead o
      → parse_ia (kind u n) u make (i ++ (bytes32 t₁ ++ (bytes32 t₂ ++ options_bytes u o)))
        ≡ ok (make i t₁ t₂ o)
  unfolding parse_ia
  parse_ia_lem make i t₁ t₂ o hi h₁ h₂ r =
      let area = options_bytes u o in
      rw
        (
          u.new_law (i ++ (bytes32 t₁ ++ (bytes32 t₂ ++ area))),
          read_bytes_append u 4 i (bytes32 t₁ ++ (bytes32 t₂ ++ area)) false hi,
          read32_bytes32 u t₁ (bytes32 t₂ ++ area) false h₁,
          read32_bytes32 u t₂ area false h₂,
          u.read_all_law area false,
        )
        (nested_lem (make i t₁ t₂) o r)

  pub parse_ia_address_lem :
      (ip : Slice) (p v : ℕ) (o : Opts)
      → IsIpv6 ip
      → IsWord32 p
      → IsWord32 v
      → IsRead o
      → parse_ia_address
          (kind u n)
          u
          (elements ip ++ (bytes32 p ++ (bytes32 v ++ options_bytes u o)))
        ≡ ok (ia_address ip p v o)
  unfolding parse_ia_address
  parse_ia_address_lem ip p v o hi hp hv r =
      let area = options_bytes u o in
      rw
        (
          u.new_law (elements ip ++ (bytes32 p ++ (bytes32 v ++ area))),
          read_ip_lem u ip (bytes32 p ++ (bytes32 v ++ area)) false hi,
          read32_bytes32 u p (bytes32 v ++ area) false hp,
          read32_bytes32 u v area false hv,
          u.read_all_law area false,
        )
        (nested_lem (ia_address ip p v) o r)

  pub parse_ia_prefix_lem :
      (p v l : ℕ) (ip : Slice) (o : Opts)
      → IsWord32 p
      → IsWord32 v
      → IsIpv6 ip
      → IsRead o
      → parse_ia_prefix
          (kind u n)
          u
          (bytes32 p ++ (bytes32 v ++ l ∷ (elements ip ++ options_bytes u o)))
        ≡ ok (ia_prefix p v l ip o)
  unfolding parse_ia_prefix
  parse_ia_prefix_lem p v l ip o hp hv hi r =
      let area = options_bytes u o in
      let tail = l ∷ (elements ip ++ area) in
      rw
        (
          u.new_law (bytes32 p ++ (bytes32 v ++ tail)),
          read32_bytes32 u p (bytes32 v ++ tail) false hp,
          read32_bytes32 u v tail false hv,
          u.read8_cons l (elements ip ++ area) false,
          read_ip_lem u ip area false hi,
          u.read_all_law area false,
        )
        (nested_lem (ia_prefix p v l ip) o r)

  first_byte : (t : ℕ) (bs : Bytes) → (u.read8 (u.new (t ∷ bs))).0 ≡ t
  first_byte t bs = rw (u.new_law (t ∷ bs), u.read8_cons t bs false) refl

  parse_packet-message :
      (s : IsCodec (kind u n)) (t : ℕ) (tid : Bytes) (o : Opts)
      → IsByte t
      → is_relay_type t ≡ false
      → length tid ≡ 3
      → All s.IsValid (to_list o)
      → parse_packet (kind u n) u (packet_bytes u (message t tid o)) ≡ ok (message t tid o)
  unfolding parse_packet
  parse_packet-message s t tid o ht nr hl h =
      let m : Message Opt = record {
        message_type = t;
        transaction_id = tid;
        options = to_list o;
      } in
      let bs = packet_bytes u (message t tid o) in
      let first : (u.read8 (u.new bs)).0 ≡ t =
        ap (λ d. (u.read8 (u.new d)).0) (message-written u t tid o ht)
        ∙ first_byte t (tid ++ options_bytes u o) in
      let whole : message_from_bytes (kind u n) u bs ≡ ok m =
        ap (message_from_bytes (kind u n) u) (message-message_to_bytes u n t tid o)
        ∙ message_from_bytes-message_to_bytes u (kind u n) s m (record {
          type_byte = ht;
          not_forward = (not_relay-ne t nr).0;
          not_reply = (not_relay-ne t nr).1;
          id_length = hl;
          options_valid = h;
        }) in
      rw (first, nr, whole) (ap (λ p. ok (message t tid p)) (of_list-to_list o))

  parse_packet-relay :
      (s : IsCodec (kind u n)) (t hops : ℕ) (link peer : Slice) (o : Opts)
      → IsByte t
      → is_relay_type t ≡ true
      → IsByte hops
      → IsIpv6 link
      → IsIpv6 peer
      → All s.IsValid (to_list o)
      → parse_packet (kind u n) u (packet_bytes u (relay t hops link peer o))
        ≡ ok (relay t hops link peer o)
  unfolding parse_packet
  parse_packet-relay s t hops link peer o ht isr hh hl hp h =
      let r : RelayMessage Opt = record {
        message_type = t;
        hop_count = hops;
        link_addr = link;
        peer_addr = peer;
        options = to_list o;
      } in
      let w : IsRelayMessage (kind u n) s r = record {
        type_relay = isr;
        type_byte = ht;
        hop_byte = hh;
        link_ipv6 = hl;
        peer_ipv6 = hp;
        options_valid = h;
      } in
      let bs = packet_bytes u (relay t hops link peer o) in
      let same = relay-relay_to_bytes u n t hops link peer o in
      let first : (u.read8 (u.new bs)).0 ≡ t =
        ap (λ d. (u.read8 (u.new d)).0) (same ∙ relay_written u (kind u n) s r w)
        ∙ first_byte t _ in
      let whole : relay_from_bytes (kind u n) u bs ≡ ok r =
        ap (relay_from_bytes (kind u n) u) same
        ∙ relay_from_bytes-relay_to_bytes u (kind u n) s r w in
      rw (first, isr, whole) (ap (λ p. ok (relay t hops link peer p)) (of_list-to_list o))

  -- A packet whose options are less deep than the parser goes.
  pub parse_packet_within :
      (s : IsCodec (kind u n)) (d : Packet)
      → ((o : Opts) → IsOptions u o → depth_options o ≤ n → All s.IsValid (to_list o))
      → IsPacket u d
      → depth_packet d ≤ n
      → parse_packet (kind u n) u (packet_bytes u d) ≡ ok d
  unfolding IsPacket depth_packet
  parse_packet_within s (message t tid o) v h le =
      parse_packet-message s t tid o h.0 h.1 h.2 (v o h.3 le)
  parse_packet_within s (relay t hops link peer o) v h le =
      parse_packet-relay s t hops link peer o h.0 h.1 h.2 h.3 h.4 (v o h.5 le)
