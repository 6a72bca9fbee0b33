-- ===== src/Dhcpv6/Packet/Bounds.antt =====
-- dhcpv6: options nest no deeper than their bytes are long.
use dhcp.Prelude.{
  suc, ◌+◌, ◌≡◌, ◌≤◌, refl, ap, ◌∙◌, false, [], ◌++◌, Bytes, elements, length, arith, append-nil,
  append_assoc, length-append,
}
use dhcp.Uio.{Uio}
use dhcp.Uio.Items.{encoding}
use dhcp.Uio.Words.{bytes32}
use dhcp.Dhcpv6.Options.{write_option}
use dhcp.Dhcpv6.Options.Step
use dhcp.Dhcpv6.Options.Step.{option_write}
use dhcp.Dhcpv6.Values.Wire.{written_lem}
use dhcp.Dhcpv6.Packet.{
  Packet, Opt, Opts, message, relay, plain, ia_na, ia_pd, ia_address, ia_prefix, relay_msg, nil,
  cons, to_list, option_bytes, packet_bytes, write_options, option_code,
}
use dhcp.Dhcpv6.Packet.Parse.{kind}
use dhcp.Dhcpv6.Packet.Written.{
  options_bytes, ia_na-written, ia_pd-written, ia_address-written, ia_prefix-written,
  message-written, relay-written,
}
use dhcp.Dhcpv6.Packet.Depth.{IsOption, IsOptions, IsPacket, depth, depth_options, depth_packet}

module _ (u : Uio) where
  open u use {Lexer, holds}

  abbrev listed : Opts → Bytes
  listed o = encoding (Step.option_bytes (kind u 0)) (to_list o)

  written_here :
      (x : Opt) (bs : Bytes)
      → u.write_bytes
          (option_bytes u x)
          (u.write16 (length (option_bytes u x)) (u.write16 (option_code x) (holds bs false)))
        ≡ holds (bs ++ Step.option_bytes (kind u 0) x) false
  unfolding write_option
  written_here x bs = option_write u (kind u 0) x bs false

  write_options-listed :
      (o : Opts) (bs : Bytes) → write_options u o (holds bs false) ≡ holds (bs ++ listed o) false
  unfolding write_options
  write_options-listed nil bs = rw append-nil refl
  write_options-listed (cons x o) bs =
      let here = Step.option_bytes (kind u 0) x in
      ap (write_options u o) (written_here x bs)
      ∙ write_options-listed o (bs ++ here)
      ∙ ap (λ t. holds t false) (append_assoc bs here (listed o))

  options_bytes-cons :
      (x : Opt) (o : Opts)
      → length (options_bytes u (cons x o))
        ≡ 4 + length (option_bytes u x) + length (options_bytes u o)
  options_bytes-cons x o =
      let all : (p : Opts) → options_bytes u p ≡ listed p =
        λ p. written_lem u (write_options u p) (listed p) (write_options-listed p []) in
      omega (
        arith,
        ap length (all (cons x o)),
        ap length (all o),
        length-append (Step.option_bytes (kind u 0) x) (listed o),
      )

mutual
  unfolding depth IsOption option_bytes

  depth-le : (u : Uio) (x : Opt) → IsOption u x → depth x ≤ suc (length (option_bytes u x))
  depth-le u (plain v) h = omega arith
  depth-le u (ia_na i t₁ t₂ o) h = omega (
    arith,
    depth_options-le u o h.3,
    ap length (ia_na-written u i t₁ t₂ o),
    length-append i (bytes32 t₁ ++ (bytes32 t₂ ++ options_bytes u o)),
  )
  depth-le u (ia_pd i t₁ t₂ o) h = omega (
    arith,
    depth_options-le u o h.3,
    ap length (ia_pd-written u i t₁ t₂ o),
    length-append i (bytes32 t₁ ++ (bytes32 t₂ ++ options_bytes u o)),
  )
  depth-le u (ia_address ip p v o) h = omega (
    arith,
    depth_options-le u o h.3,
    ap length (ia_address-written u ip p v o h.0),
    length-append (elements ip) (bytes32 p ++ (bytes32 v ++ options_bytes u o)),
  )
  depth-le u (ia_prefix p v l ip o) h = omega (
    arith,
    depth_options-le u o h.4,
    ap length (ia_prefix-written u p v l ip o h.2 h.3),
    length-append (elements ip) (options_bytes u o),
  )
  depth-le u (relay_msg d) h = omega (arith, depth_packet-le u d h)

  depth_options-le :
      (u : Uio) (o : Opts) → IsOptions u o → depth_options o ≤ length (options_bytes u o)
  depth_options-le u nil h = omega arith
  depth_options-le u (cons x o) h =
      omega (arith, options_bytes-cons u x o, depth-le u x h.0, depth_options-le u o h.2)

  pub depth_packet-le :
      (u : Uio) (d : Packet) → IsPacket u d → depth_packet d ≤ length (packet_bytes u d)
  depth_packet-le u (message t tid o) h = omega (
    arith,
    depth_options-le u o h.3,
    ap length (message-written u t tid o h.0),
    length-append tid (options_bytes u o),
  )
  depth_packet-le u (relay t hops link peer o) h = omega (
    arith,
    depth_options-le u o h.5,
    ap length (relay-written u t hops link peer o h.0 h.2 h.3 h.4),
    length-append (elements link) (elements peer ++ options_bytes u o),
    length-append (elements peer) (options_bytes u o),
  )
