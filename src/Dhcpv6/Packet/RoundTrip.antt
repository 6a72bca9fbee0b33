-- ===== src/Dhcpv6/Packet/RoundTrip.antt =====
-- dhcpv6: packets and options that hold others are read back from their bytes.
use dhcp.Prelude.{ℕ, zero, suc, ◌≡◌, ◌≤◌, ◌<◌, refl, ap, ◌∙◌, some, length, All, ok, arith, ◌>>=◌}
use dhcp.Uio.{Uio}
use dhcp.Uio.Words.{IsWord16}
use dhcp.Dhcpv6.Options.RoundTrip.{IsCodec}
use dhcp.Dhcpv6.Values.{Value, value_code, value_bytes, format}
use dhcp.Dhcpv6.Values.Wire.{IsFields}
use dhcp.Dhcpv6.Values.RoundTrip.{parse_value-value_bytes}
use dhcp.Dhcpv6.Packet.{
  Packet, Opt, Opts, plain, ia_na, ia_pd, ia_address, ia_prefix, relay_msg, to_list, option_code,
  option_bytes, packet_bytes,
}
use dhcp.Dhcpv6.Packet.Parse.{
  kind, parse_ia, parse_ia_address, parse_ia_prefix, parse_packet, parse_as, parse_option,
}
use dhcp.Dhcpv6.Packet.Written.{ia_na-written, ia_pd-written, ia_address-written, ia_prefix-written}
use dhcp.Dhcpv6.Packet.Depth.{
  IsOption, IsOptions, IsPacket, depth, depth_options, depth_packet, IsWithin, All-IsWithin,
}
use dhcp.Dhcpv6.Packet.Reads.{
  options-IsRead, parse_ia_lem, parse_ia_address_lem, parse_ia_prefix_lem, parse_packet_within,
}
use dhcp.Dhcpv6.Packet.Parse.{packet_from_bytes}
use dhcp.Dhcpv6.Packet.Bounds.{depth_packet-le}

-- The code of a valid option has 16 bits.
value_code-lt : (v : Value) → IsFields v → IsWord16 (value_code v)
unfolding value_code
value_code-lt (Value.other c d) h = h.0
value_code-lt _ h = omega arith

pub option_code-lt : (u : Uio) (x : Opt) → IsOption u x → IsWord16 (option_code x)
unfolding option_code IsOption
option_code-lt u (plain v) h = value_code-lt v h
option_code-lt u _ h = omega arith

module _ (u : Uio) where
  open u use {Lexer, holds}

  plain_lem :
      (n : ℕ) (v : Value)
      → IsFields v
      → parse_as (kind u n) u (format (value_code v)) (value_code v) (value_bytes u v)
        ≡ ok (plain v)
  unfolding parse_as value_code format
  plain_lem n (Value.other c d) h =
      let parsed = parse_value-value_bytes u (Value.other c d) h in
      rw h.1 (ap (λ r. r >>= λ v. ok (plain v)) (rw h.1 at parsed))
  plain_lem n v h = ap (λ r. r >>= λ v. ok (plain v)) (parse_value-value_bytes u v h)

  -- A container less deep than the parser goes, which reads what is one less.
  container :
      (n : ℕ) (s : IsCodec (kind u n))
      → ((o : Opts) → IsOptions u o → depth_options o ≤ n → All s.IsValid (to_list o))
      → (x : Opt) → IsOption u x
      → depth x ≤ suc n
      → parse_as (kind u n) u (format (option_code x)) (option_code x) (option_bytes u x) ≡ ok x
  unfolding parse_as option_code IsOption depth format option_bytes
  container n s v (plain x) h d = plain_lem n x h
  container n s v (ia_na i t₁ t₂ o) h d =
      ap (parse_ia (kind u n) u ia_na) (ia_na-written u i t₁ t₂ o)
      ∙ parse_ia_lem u n ia_na i t₁ t₂ o h.0 h.1 h.2
          (options-IsRead u n s o (v o h.3 (omega arith)))
  container n s v (ia_pd i t₁ t₂ o) h d =
      ap (parse_ia (kind u n) u ia_pd) (ia_pd-written u i t₁ t₂ o)
      ∙ parse_ia_lem u n ia_pd i t₁ t₂ o h.0 h.1 h.2
          (options-IsRead u n s o (v o h.3 (omega arith)))
  container n s v (ia_address ip p l o) h d =
      ap (parse_ia_address (kind u n) u) (ia_address-written u ip p l o h.0)
      ∙ parse_ia_address_lem u n ip p l o h.0 h.1 h.2
          (options-IsRead u n s o (v o h.3 (omega arith)))
  container n s v (ia_prefix p l w ip o) h d =
      ap (parse_ia_prefix (kind u n) u) (ia_prefix-written u p l w ip o h.2 h.3)
      ∙ parse_ia_prefix_lem u n p l w ip o h.0 h.1 h.3
          (options-IsRead u n s o (v o h.4 (omega arith)))
  container n s v (relay_msg p) h d = rw (parse_packet_within u n s p v h (omega arith)) refl

  -- Parsing the options that are at most `n` deep.
  abbrev pub IsParsed : ℕ → Opt → Type 0
  IsParsed n x = parse_option u n (option_code x) (some (option_bytes u x)) ≡ ok x

  abbrev pub codec_of : (n : ℕ) → ((x : Opt) → IsWithin u n x → IsParsed n x) → IsCodec (kind u n)
  codec_of n parsed = record {
    IsValid = IsWithin u n;
    code_word = λ x h. option_code-lt u x h.0;
    value_fits = λ x h. h.1;
    parse_value = parsed;
  }

  depth_pos : (x : Opt) → 0 < depth x
  unfolding depth
  depth_pos (plain v) = omega arith
  depth_pos (ia_na i t₁ t₂ o) = omega arith
  depth_pos _ = omega arith

  pub parse_option_lem : (n : ℕ) (x : Opt) → IsWithin u n x → IsParsed n x
  unfolding parse_option
  parse_option_lem zero x h = absurd (omega (arith, depth_pos x, h.2))
  parse_option_lem (suc n) x h =
      container n (codec_of n (parse_option_lem n)) (λ o. All-IsWithin u n o) x h.0 h.2

  abbrev pub codec : (n : ℕ) → IsCodec (kind u n)
  codec n = codec_of n (parse_option_lem n)

  pub parse_packet-packet_bytes :
      (n : ℕ) (d : Packet)
      → IsPacket u d
      → depth_packet d ≤ n
      → parse_packet (kind u n) u (packet_bytes u d) ≡ ok d
  parse_packet-packet_bytes n d h le =
      parse_packet_within u n (codec n) d (λ o. All-IsWithin u n o) h le

  -- A packet is read back from its bytes, with all that it holds, if the wire can carry it.
  pub packet_from_bytes-packet_bytes :
      (d : Packet) → IsPacket u d → packet_from_bytes u (packet_bytes u d) ≡ ok d
  unfolding packet_from_bytes
  packet_from_bytes-packet_bytes d h =
      parse_packet-packet_bytes (suc (length (packet_bytes u d))) d h
        (omega (arith, depth_packet-le u d h))
