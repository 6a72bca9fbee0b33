-- ===== src/Dhcpv6/Relay.antt =====
-- dhcpv6/dhcpv6relay.go and dhcpv6/dhcpv6.go: the relay message and its codec, over any kind of
-- options.
use dhcp.Prelude.{
  ℕ, ◌≡◌, ◌%◌, refl, ap, ◌∙◌, Bool, true, false, not, ◌||◌, List, [], ◌∷◌, ◌++◌, ◌==◌,
  if◌then◌else◌, Bytes, Slice, elements, All, IsByte, Result, ok, err, ◌>>=◌, map_err, arith,
  append_assoc,
}
use dhcp.Uio.{Uio}
use dhcp.Uio.Words.Items.{IsIpv6, write_ip, write_ip_lem, read_ip_lem}
use dhcp.Dhcpv6.Options
use dhcp.Dhcpv6.Options.{Kind, from_bytes_with_parser}
use dhcp.Dhcpv6.Options.RoundTrip.{IsCodec, from_bytes_with_parser-to_bytes}
use dhcp.Dhcpv6.Message.{Error, wrong_type, bad_options, type_relay_forward, type_relay_reply}

pub record RelayMessage (Opt : Type 0) : Type 0 where
  pub message_type : ℕ
  pub hop_count : ℕ
  pub link_addr : Slice
  pub peer_addr : Slice
  pub options : List Opt

-- The two types of relay messages.
unfoldable pub is_relay_type : ℕ → Bool
is_relay_type t = t == type_relay_forward || t == type_relay_reply

module _ {E Opt : Type 0} (k : Kind E Opt) (u : Uio) where
  open u use {Lexer}

  unfoldable pub relay_to_bytes : RelayMessage Opt → Slice
  relay_to_bytes r =
      let head = u.write8 r.hop_count (u.write8 r.message_type (u.new [])) in
      let addresses = write_ip u r.peer_addr (write_ip u r.link_addr head) in
      u.contents (u.write_bytes (elements (Options.to_bytes k u r.options)) addresses)

  -- `RelayMessageFromBytes`, when its header has been read.
  unfoldable pub finish_relay : ℕ → ℕ → Slice → Slice → Slice → Result (Error E) (RelayMessage Opt)
  unfolding is_relay_type
  finish_relay t hops link peer rest =
      let parsed = map_err bad_options (from_bytes_with_parser k u (elements rest)) >>= λ o.
      ok (record {
        message_type = t;
        hop_count = hops;
        link_addr = link;
        peer_addr = peer;
        options = o;
      }) in
      if not (is_relay_type t) then err wrong_type else parsed

  -- The errors of the reads are not looked at.
  unfoldable pub relay_from_bytes : Bytes → Result (Error E) (RelayMessage Opt)
  relay_from_bytes bs =
      let (t, b₁) = u.read8 (u.new bs) in
      let (hops, b₂) = u.read8 b₁ in
      let (link, b₃) = u.copy_n 16 b₂ in
      let (peer, b₄) = u.copy_n 16 b₃ in finish_relay t hops link peer (u.contents b₄)

-- A relay message that the wire can carry.
pub record IsRelayMessage {E Opt : Type 0} (k : Kind E Opt) (s : IsCodec k) (r : RelayMessage Opt)
    : Type 0 where
  pub type_relay : is_relay_type r.message_type ≡ true
  pub type_byte : IsByte r.message_type
  pub hop_byte : IsByte r.hop_count
  pub link_ipv6 : IsIpv6 r.link_addr
  pub peer_ipv6 : IsIpv6 r.peer_addr
  pub options_valid : All s.IsValid r.options

module _ {E Opt : Type 0} (u : Uio) (k : Kind E Opt) where
  open u use {Lexer, holds}

  abbrev pub relay_wire : RelayMessage Opt → Bytes
  relay_wire r =
      r.message_type
      ∷ r.hop_count
      ∷ (elements r.link_addr
          ++ (elements r.peer_addr ++ elements (Options.to_bytes k u r.options)))

  pub relay_written :
      (s : IsCodec k) (r : RelayMessage Opt)
      → IsRelayMessage k s r
      → elements (relay_to_bytes k u r) ≡ relay_wire r
  unfolding relay_to_bytes
  relay_written s r w =
      let t : r.message_type % 256 ≡ r.message_type = omega (arith, w.type_byte) in
      let h : r.hop_count % 256 ≡ r.hop_count = omega (arith, w.hop_byte) in
      let area = elements (Options.to_bytes k u r.options) in
      let first = r.message_type ∷ r.hop_count ∷ [] in
      let typed : u.write8 r.message_type (u.new []) ≡ holds (r.message_type ∷ []) false =
        rw (u.new_law [], u.write8_law r.message_type [] false, t) refl in
      let head : u.write8 r.hop_count (u.write8 r.message_type (u.new [])) ≡ holds first false =
        rw (typed, u.write8_law r.hop_count (r.message_type ∷ []) false, h) refl in
      ap
        (λ b.
          elements
            (u.contents (u.write_bytes area (write_ip u r.peer_addr (write_ip u r.link_addr b)))))
        head
      ∙ ap (λ b. elements (u.contents (u.write_bytes area (write_ip u r.peer_addr b))))
          (write_ip_lem u r.link_addr first false w.link_ipv6)
      ∙ ap (λ b. elements (u.contents (u.write_bytes area b)))
          (write_ip_lem u r.peer_addr (first ++ elements r.link_addr) false w.peer_ipv6)
      ∙ ap (λ b. elements (u.contents b))
          (u.write_bytes_law area ((first ++ elements r.link_addr) ++ elements r.peer_addr) false)
      ∙ u.contents_law (((first ++ elements r.link_addr) ++ elements r.peer_addr) ++ area) false
      ∙ ap (λ t. r.message_type ∷ r.hop_count ∷ t)
          (append_assoc (elements r.link_addr) (elements r.peer_addr) area)

  finish_relay_lem :
      (t hops : ℕ) (link peer rest : Slice) (o : List Opt)
      → is_relay_type t ≡ true
      → from_bytes_with_parser k u (elements rest) ≡ ok o
      → finish_relay k u t hops link peer rest
        ≡ ok (record {
          message_type = t;
          hop_count = hops;
          link_addr = link;
          peer_addr = peer;
          options = o;
        })
  unfolding finish_relay
  finish_relay_lem t hops link peer rest o h p = rw (h, p) refl

  -- A relay message is read back from its bytes, if the wire can carry it.
  pub relay_from_bytes-relay_to_bytes :
      (s : IsCodec k) (r : RelayMessage Opt)
      → IsRelayMessage k s r
      → relay_from_bytes k u (elements (relay_to_bytes k u r)) ≡ ok r
  unfolding relay_from_bytes
  relay_from_bytes-relay_to_bytes s r w =
      let area = elements (Options.to_bytes k u r.options) in
      let link = elements r.link_addr in
      let peer = elements r.peer_addr in
      let parsed = from_bytes_with_parser-to_bytes u k s r.options w.options_valid in
      ap (relay_from_bytes k u) (relay_written s r w)
      ∙ rw
          (
            u.new_law (relay_wire r),
            u.read8_cons r.message_type (r.hop_count ∷ (link ++ (peer ++ area))) false,
            u.read8_cons r.hop_count (link ++ (peer ++ area)) false,
            read_ip_lem u r.link_addr (peer ++ area) false w.link_ipv6,
            read_ip_lem u r.peer_addr area false w.peer_ipv6,
          )
          (finish_relay_lem r.message_type r.hop_count r.link_addr r.peer_addr
            (u.contents (holds area false)) r.options w.type_relay
            (ap (from_bytes_with_parser k u) (u.contents_law area false) ∙ parsed))
