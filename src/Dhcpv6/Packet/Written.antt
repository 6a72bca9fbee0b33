-- ===== src/Dhcpv6/Packet/Written.antt =====
-- dhcpv6: the bytes of packets and of the options that are containers.
use dhcp.Prelude.{
  ℕ, ◌≡◌, refl, ap, ◌∙◌, false, [], ◌∷◌, ◌++◌, Bytes, Slice, elements, IsByte, append_assoc,
}
use dhcp.Uio.{Uio}
use dhcp.Uio.Items.{write_each}
use dhcp.Uio.Words.{bytes32}
use dhcp.Uio.Words.Items.{IsIpv6, write_ip, write_ip_lem}
use dhcp.Dhcpv6.Options
use dhcp.Dhcpv6.Options.{write_option}
use dhcp.Dhcpv6.Message.{message_to_bytes}
use dhcp.Dhcpv6.Relay.{relay_to_bytes}
use dhcp.Dhcpv6.Values.{written}
use dhcp.Dhcpv6.Values.Wire.{written_lem, write8_byte}
use dhcp.Dhcpv6.Packet.{
  Opts, message, relay, ia_na, ia_pd, ia_address, ia_prefix, nil, cons, to_list, option_bytes,
  packet_bytes, write_options,
}
use dhcp.Dhcpv6.Packet.Parse.{kind}

module _ (u : Uio) where
  open u use {Lexer, holds}

  abbrev pub options_bytes : Opts → Bytes
  options_bytes o = written u (write_options u o)

  write_options-write_each :
      (n : ℕ) (o : Opts) (b : Lexer)
      → write_options u o b ≡ write_each u (write_option (kind u n) u) (to_list o) b
  unfolding write_options write_each write_option
  write_options-write_each n nil b = refl
  write_options-write_each n (cons x o) b = write_options-write_each n o _

  -- The options of this model are written as those of the generic container.
  pub options_bytes-to_bytes :
      (n : ℕ) (o : Opts) → options_bytes o ≡ elements (Options.to_bytes (kind u n) u (to_list o))
  unfolding Options.to_bytes
  options_bytes-to_bytes n o =
      ap (λ (b : Lexer). elements (u.contents b)) (write_options-write_each n o (u.new []))

  -- An identity association.
  ia_written :
      (i : Bytes) (t₁ t₂ : ℕ) (area : Bytes)
      → written u (λ b. u.write_bytes area (u.write32 t₂ (u.write32 t₁ (u.write_bytes i b))))
        ≡ i ++ (bytes32 t₁ ++ (bytes32 t₂ ++ area))
  ia_written i t₁ t₂ area =
      written_lem u (λ b. u.write_bytes area (u.write32 t₂ (u.write32 t₁ (u.write_bytes i b))))
        (i ++ bytes32 t₁ ++ bytes32 t₂ ++ area)
        (ap (λ b. u.write_bytes area (u.write32 t₂ (u.write32 t₁ b))) (u.write_bytes_law i [] false)
          ∙ ap (λ b. u.write_bytes area (u.write32 t₂ b)) (u.write32_law t₁ i false)
          ∙ ap (u.write_bytes area) (u.write32_law t₂ (i ++ bytes32 t₁) false)
          ∙ u.write_bytes_law area (i ++ bytes32 t₁ ++ bytes32 t₂) false)
      ∙ append_assoc (i ++ bytes32 t₁) (bytes32 t₂) area
      ∙ append_assoc i (bytes32 t₁) (bytes32 t₂ ++ area)

  pub ia_na-written :
      (i : Bytes) (t₁ t₂ : ℕ) (o : Opts)
      → option_bytes u (ia_na i t₁ t₂ o) ≡ i ++ (bytes32 t₁ ++ (bytes32 t₂ ++ options_bytes o))
  unfolding option_bytes
  ia_na-written i t₁ t₂ o = ia_written i t₁ t₂ (options_bytes o)

  pub ia_pd-written :
      (i : Bytes) (t₁ t₂ : ℕ) (o : Opts)
      → option_bytes u (ia_pd i t₁ t₂ o) ≡ i ++ (bytes32 t₁ ++ (bytes32 t₂ ++ options_bytes o))
  unfolding option_bytes
  ia_pd-written i t₁ t₂ o = ia_written i t₁ t₂ (options_bytes o)

  pub ia_address-written :
      (ip : Slice) (p v : ℕ) (o : Opts)
      → IsIpv6 ip
      → option_bytes u (ia_address ip p v o)
        ≡ elements ip ++ (bytes32 p ++ (bytes32 v ++ options_bytes o))
  unfolding option_bytes
  ia_address-written ip p v o h =
      let area = options_bytes o in
      let i = elements ip in
      written_lem u (λ b. u.write_bytes area (u.write32 v (u.write32 p (write_ip u ip b))))
        (i ++ bytes32 p ++ bytes32 v ++ area)
        (ap (λ b. u.write_bytes area (u.write32 v (u.write32 p b))) (write_ip_lem u ip [] false h)
          ∙ ap (λ b. u.write_bytes area (u.write32 v b)) (u.write32_law p i false)
          ∙ ap (u.write_bytes area) (u.write32_law v (i ++ bytes32 p) false)
          ∙ u.write_bytes_law area (i ++ bytes32 p ++ bytes32 v) false)
      ∙ append_assoc (i ++ bytes32 p) (bytes32 v) area
      ∙ append_assoc i (bytes32 p) (bytes32 v ++ area)

  pub ia_prefix-written :
      (p v l : ℕ) (ip : Slice) (o : Opts)
      → IsByte l
      → IsIpv6 ip
      → option_bytes u (ia_prefix p v l ip o)
        ≡ bytes32 p ++ (bytes32 v ++ l ∷ (elements ip ++ options_bytes o))
  unfolding option_bytes
  ia_prefix-written p v l ip o hl h =
      let area = options_bytes o in
      let head = bytes32 p ++ bytes32 v ++ l ∷ [] in
      written_lem u
        (λ b. u.write_bytes area (write_ip u ip (u.write8 l (u.write32 v (u.write32 p b)))))
        (head ++ elements ip ++ area)
        (ap (λ b. u.write_bytes area (write_ip u ip (u.write8 l (u.write32 v b))))
            (u.write32_law p [] false)
          ∙ ap (λ b. u.write_bytes area (write_ip u ip (u.write8 l b)))
              (u.write32_law v (bytes32 p) false)
          ∙ ap (λ b. u.write_bytes area (write_ip u ip b))
              (write8_byte u l (bytes32 p ++ bytes32 v) hl)
          ∙ ap (u.write_bytes area) (write_ip_lem u ip head false h)
          ∙ u.write_bytes_law area (head ++ elements ip) false)
      ∙ append_assoc head (elements ip) area

  -- A message, and its first byte.
  pub message-written :
      (t : ℕ) (tid : Bytes) (o : Opts)
      → IsByte t
      → packet_bytes u (message t tid o) ≡ t ∷ (tid ++ options_bytes o)
  unfolding packet_bytes
  message-written t tid o h =
      let area = options_bytes o in
      written_lem u (λ b. u.write_bytes area (u.write_bytes tid (u.write8 t b))) (t ∷ (tid ++ area))
        (ap (λ b. u.write_bytes area (u.write_bytes tid b)) (write8_byte u t [] h)
          ∙ ap (u.write_bytes area) (u.write_bytes_law tid (t ∷ []) false)
          ∙ u.write_bytes_law area (t ∷ tid) false)

  pub relay-written :
      (t hops : ℕ) (link peer : Slice) (o : Opts)
      → IsByte t
      → IsByte hops
      → IsIpv6 link
      → IsIpv6 peer
      → packet_bytes u (relay t hops link peer o)
        ≡ t ∷ hops ∷ (elements link ++ (elements peer ++ options_bytes o))
  unfolding packet_bytes
  relay-written t hops link peer o ht hh hl hp =
      let area = options_bytes o in
      let head = t ∷ hops ∷ [] in
      written_lem u
        (λ b. u.write_bytes area (write_ip u peer (write_ip u link (u.write8 hops (u.write8 t b)))))
        (head ++ elements link ++ elements peer ++ area)
        (ap (λ b. u.write_bytes area (write_ip u peer (write_ip u link (u.write8 hops b))))
            (write8_byte u t [] ht)
          ∙ ap (λ b. u.write_bytes area (write_ip u peer (write_ip u link b)))
              (write8_byte u hops (t ∷ []) hh)
          ∙ ap (λ b. u.write_bytes area (write_ip u peer b)) (write_ip_lem u link head false hl)
          ∙ ap (u.write_bytes area) (write_ip_lem u peer (head ++ elements link) false hp)
          ∙ u.write_bytes_law area (head ++ elements link ++ elements peer) false)
      ∙ ap (λ d. t ∷ hops ∷ d) (append_assoc (elements link) (elements peer) area)

  -- The messages of this model are written as the generic ones.
  pub message-message_to_bytes :
      (n t : ℕ) (tid : Bytes) (o : Opts)
      → packet_bytes u (message t tid o)
        ≡ elements (
            message_to_bytes
              (kind u n)
              u
              (record { message_type = t; transaction_id = tid; options = to_list o }))
  unfolding packet_bytes message_to_bytes
  message-message_to_bytes n t tid o =
      ap
        (λ area.
          elements (u.contents (u.write_bytes area (u.write_bytes tid (u.write8 t (u.new []))))))
        (options_bytes-to_bytes n o)

  pub relay-relay_to_bytes :
      (n t hops : ℕ) (link peer : Slice) (o : Opts)
      → packet_bytes u (relay t hops link peer o)
        ≡ elements (
            relay_to_bytes (kind u n) u (record {
              message_type = t;
              hop_count = hops;
              link_addr = link;
              peer_addr = peer;
              options = to_list o;
            }))
  unfolding packet_bytes relay_to_bytes
  relay-relay_to_bytes n t hops link peer o =
      ap
        (λ area. elements (
          u.contents (
            u.write_bytes area
              (write_ip u peer (write_ip u link (u.write8 hops (u.write8 t (u.new []))))))))
        (options_bytes-to_bytes n o)
