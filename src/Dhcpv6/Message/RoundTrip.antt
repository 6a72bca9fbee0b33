-- ===== src/Dhcpv6/Message/RoundTrip.antt =====
-- dhcpv6/dhcpv6message.go: `ToBytes` and `MessageFromBytes`.
use dhcp.Prelude.{
  ℕ, ◌≡◌, ◌≢◌, ◌<◌, ◌%◌, refl, ap, ◌∙◌, Bool, true, false, List, [], ◌∷◌, ◌++◌, Bytes, Slice,
  elements, length, All, ok, arith, ==_ne,
}
use dhcp.Uio.{Uio}
use dhcp.Uio.Reads.{read_bytes_append}
use dhcp.Dhcpv6.Options
use dhcp.Dhcpv6.Options.{Kind, from_bytes_with_parser}
use dhcp.Dhcpv6.Options.RoundTrip.{IsCodec, from_bytes_with_parser-to_bytes}
use dhcp.Dhcpv6.Message.{Message, message_to_bytes, message_from_bytes, finish_message}

-- A message that is no relay message and that the wire can carry.
pub record IsMessage {E Opt : Type 0} (k : Kind E Opt) (s : IsCodec k) (m : Message Opt)
    : Type 0 where
  pub type_byte : m.message_type < 256
  pub not_forward : m.message_type ≢ 12
  pub not_reply : m.message_type ≢ 13
  pub id_length : length m.transaction_id ≡ 3
  pub options_valid : All s.IsValid m.options

module _ {E Opt : Type 0} (u : Uio) (k : Kind E Opt) where
  open u use {Lexer, holds}

  finish_message_lem :
      (t : ℕ) (tid : Bytes) (rest : Slice) (o : List Opt)
      → t ≢ 12
      → t ≢ 13
      → from_bytes_with_parser k u (elements rest) ≡ ok o
      → finish_message k u t tid rest
        ≡ ok (record { message_type = t; transaction_id = tid; options = o })
  unfolding finish_message
  finish_message_lem t tid rest o f r parsed = rw (==_ne t 12 f, ==_ne t 13 r, parsed) refl

  -- A message is read back from its bytes, if it is no relay message and the wire can carry it.
  pub message_from_bytes-message_to_bytes :
      (s : IsCodec k) (m : Message Opt)
      → IsMessage k s m
      → message_from_bytes k u (elements (message_to_bytes k u m)) ≡ ok m
  unfolding message_from_bytes message_to_bytes
  message_from_bytes-message_to_bytes s m w =
      let same : m.message_type % 256 ≡ m.message_type = omega (arith, w.type_byte) in
      let area = elements (Options.to_bytes k u m.options) in
      let head = m.message_type ∷ m.transaction_id in
      let started : u.write8 m.message_type (u.new []) ≡ holds (m.message_type ∷ []) false =
        rw (u.new_law [], u.write8_law m.message_type [] false, same) refl in
      let whole : u.write_bytes area
            (u.write_bytes m.transaction_id (u.write8 m.message_type (u.new [])))
          ≡ holds (head ++ area) false =
        rw
          (
            started,
            u.write_bytes_law m.transaction_id (m.message_type ∷ []) false,
            u.write_bytes_law area head false,
          )
          refl in
      let written : elements (message_to_bytes k u m) ≡ head ++ area =
        ap (λ (b : Lexer). elements (u.contents b)) whole ∙ u.contents_law (head ++ area) false in
      let parsed = from_bytes_with_parser-to_bytes u k s m.options w.options_valid in
      let area_parsed : from_bytes_with_parser k u (elements (u.contents (holds area false)))
          ≡ ok m.options =
        rw (u.contents_law area false) parsed in
      rw
        (
          written,
          u.new_law (head ++ area),
          u.read8_cons m.message_type (m.transaction_id ++ area) false,
          read_bytes_append u 3 m.transaction_id area false w.id_length,
        )
        (finish_message_lem m.message_type m.transaction_id (u.contents (holds area false))
          m.options w.not_forward w.not_reply area_parsed)

  no_options : (e : Bool) → from_bytes_with_parser k u (elements (u.contents (holds [] e))) ≡ ok []
  unfolding from_bytes_with_parser
  no_options e = rw (u.contents_law [] e) refl

  -- One byte is accepted as a message with a transaction of zeros, unless it is the type of a relay
  -- message.
  pub message_from_bytes_short :
      (t : ℕ)
      → t ≢ 12
      → t ≢ 13
      → message_from_bytes k u (t ∷ [])
        ≡ ok (record { message_type = t; transaction_id = 0 ∷ 0 ∷ 0 ∷ []; options = [] })
  unfolding message_from_bytes
  message_from_bytes_short t f r =
      rw (u.new_law (t ∷ []), u.read8_cons t [] false, u.read_bytes_law 3 [] false)
        (finish_message_lem t (0 ∷ 0 ∷ 0 ∷ []) (u.contents (holds [] true)) [] f r
          (no_options true))
