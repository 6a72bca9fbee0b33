-- ===== src/Dhcpv6/Packet/Parse.antt =====
-- dhcpv6/options.go, `ParseOption`, the parsers of the options that are containers, and
-- `FromBytes` of dhcpv6/dhcpv6.go. The parsers call each other through the options that they
-- hold: the fuel bounds how deep they nest.
use dhcp.Prelude.{
  ℕ, zero, suc, Bytes, Slice, elements, length, Result, ok, fault, out_of_fuel, ◌>>=◌, map_err,
  if◌then◌else◌,
}
use dhcp.Uio.{Uio}
use dhcp.Uio.Items.{finish}
use dhcp.Dhcpv6.Options
use dhcp.Dhcpv6.Options.{Kind, from_bytes_with_parser}
use dhcp.Dhcpv6.Message
use dhcp.Dhcpv6.Message.{Message, message_from_bytes}
use dhcp.Dhcpv6.Relay.{RelayMessage, relay_from_bytes, is_relay_type}
use dhcp.Dhcpv6.Values.{
  Error, Format, format, unread, wrong_type, as_ia_na, as_ia_pd, as_ia_address, as_ia_prefix,
  as_relay_msg,
}
use dhcp.Dhcpv6.Values.Parse.{parse_value}
use dhcp.Dhcpv6.Packet.{
  Packet, Opt, Opts, message, relay, plain, ia_na, ia_pd, ia_address, ia_prefix, relay_msg, of_list,
  option_code, option_bytes,
}

-- An error of options inside an option is given back as it is.
abbrev pub inner_error : Options.Error Error → Error
inner_error (Options.Error.bad_option e) = e
inner_error Options.Error.unread = unread

-- The same for an error of a message; the parsers have no other.
abbrev pub message_error : Message.Error Error → Error
message_error (Message.Error.bad_options e) = inner_error e
message_error _ = wrong_type

module _ (k : Kind Error Opt) (u : Uio) where
  open u use {Lexer}

  -- `opt.Options.FromBytes(buf.ReadAll())` and `buf.FinError()`.
  unfoldable pub nested : (Opts → Opt) → Slice → Lexer → Result Error Opt
  nested make rest b = map_err inner_error (from_bytes_with_parser k u (elements rest)) >>= λ o.
      finish u unread (make (of_list o)) b

  -- `ParseOptIANA` and `ParseOptIAForPrefixDelegation`.
  unfoldable pub parse_ia : (Bytes → ℕ → ℕ → Opts → Opt) → Bytes → Result Error Opt
  parse_ia make bs =
      let (i, b₁) = u.read_bytes 4 (u.new bs) in
      let (t₁, b₂) = u.read32 b₁ in
      let (t₂, b₃) = u.read32 b₂ in let (rest, b₄) = u.read_all b₃ in nested (make i t₁ t₂) rest b₄

  unfoldable pub parse_ia_address : Bytes → Result Error Opt
  parse_ia_address bs =
      let (ip, b₁) = u.copy_n 16 (u.new bs) in
      let (p, b₂) = u.read32 b₁ in
      let (v, b₃) = u.read32 b₂ in
      let (rest, b₄) = u.read_all b₃ in nested (ia_address ip p v) rest b₄

  unfoldable pub parse_ia_prefix : Bytes → Result Error Opt
  parse_ia_prefix bs =
      let (p, b₁) = u.read32 (u.new bs) in
      let (v, b₂) = u.read32 b₁ in
      let (l, b₃) = u.read8 b₂ in
      let (ip, b₄) = u.copy_n 16 b₃ in
      let (rest, b₅) = u.read_all b₄ in nested (ia_prefix p v l ip) rest b₅

  abbrev pub of_message : Message Opt → Packet
  of_message m = message m.message_type m.transaction_id (of_list m.options)

  abbrev pub of_relay : RelayMessage Opt → Packet
  of_relay r = relay r.message_type r.hop_count r.link_addr r.peer_addr (of_list r.options)

  -- `FromBytes`: the first byte says which message it is, and that is parsed from the start.
  unfoldable pub parse_packet : Bytes → Result Error Packet
  parse_packet bs =
      let as_relay = map_err message_error (relay_from_bytes k u bs) >>= λ r. ok (of_relay r) in
      let as_message =
        map_err message_error (message_from_bytes k u bs) >>= λ m. ok (of_message m) in
      if is_relay_type (u.read8 (u.new bs)).0 then as_relay else as_message

  -- The switch of `ParseOption`.
  unfoldable pub parse_as : Format → ℕ → Bytes → Result Error Opt
  parse_as as_ia_na c bs = parse_ia ia_na bs
  parse_as as_ia_address c bs = parse_ia_address bs
  parse_as as_relay_msg c bs = parse_packet bs >>= λ d. ok (relay_msg d)
  parse_as as_ia_pd c bs = parse_ia ia_pd bs
  parse_as as_ia_prefix c bs = parse_ia_prefix bs
  parse_as f c bs = parse_value u f c bs >>= λ v. ok (plain v)

-- The options whose containers are at most `depth` deep.
unfoldable pub parse_option : Uio → ℕ → ℕ → Slice → Result Error Opt
parse_option u zero c d = fault out_of_fuel
parse_option u (suc depth) c d =
    parse_as (record { code = option_code; value = option_bytes u; parse = parse_option u depth }) u
      (format c) c (elements d)

abbrev pub kind : Uio → ℕ → Kind Error Opt
kind u depth = record { code = option_code; value = option_bytes u; parse = parse_option u depth }

-- A container takes a byte at least, so options are not deeper than the input is long.
unfoldable pub packet_from_bytes : Uio → Bytes → Result Error Packet
packet_from_bytes u bs = parse_packet (kind u (suc (length bs))) u bs
