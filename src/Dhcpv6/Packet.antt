-- ===== src/Dhcpv6/Packet.antt =====
-- dhcpv6: packets and their options, which hold packets and options in turn: `ToBytes` of the
-- options that are containers (dhcpv6/option_ia*.go, option_nontemporaryaddress.go,
-- option_prefixdelegation.go, option_relaymsg.go), and of the messages.
pub mod Parse
pub mod Written
pub mod Reads
pub mod RoundTrip
pub mod Termination
pub mod Depth
pub mod Bounds
pub mod Types
use dhcp.Prelude.{ℕ, suc, List, [], ◌∷◌, Bytes, Slice, length, elements}
use dhcp.Uio.{Uio}
use dhcp.Uio.Words.Items.{write_ip}
use dhcp.Dhcpv6.Values.{Value, value_code, value_bytes, written}

-- The `DHCPv6` interface, `Option`, and `Options`. A relay option whose message is `nil`, which
-- no parser gives, is left out.
mutual
  pub data Packet : Type 0 where
    message : ℕ → Bytes → Opts → Packet
    relay : ℕ → ℕ → Slice → Slice → Opts → Packet

  pub data Opt : Type 0 where
    plain : Value → Opt
    ia_na : Bytes → ℕ → ℕ → Opts → Opt
    ia_pd : Bytes → ℕ → ℕ → Opts → Opt
    ia_address : Slice → ℕ → ℕ → Opts → Opt
    ia_prefix : ℕ → ℕ → ℕ → Slice → Opts → Opt
    relay_msg : Packet → Opt

  pub data Opts : Type 0 where
    nil : Opts
    cons : Opt → Opts → Opts

abbrev pub to_list : Opts → List Opt
to_list nil = []
to_list (cons x o) = x ∷ to_list o

abbrev pub of_list : List Opt → Opts
of_list [] = nil
of_list (x ∷ o) = cons x (of_list o)

-- `Code` of each type.
unfoldable pub option_code : Opt → ℕ
unfolding value_code
option_code (plain v) = value_code v
option_code (ia_na i t₁ t₂ o) = 3
option_code (ia_address ip p v o) = 5
option_code (relay_msg d) = 9
option_code (ia_pd i t₁ t₂ o) = 25
option_code (ia_prefix p v l ip o) = 26

-- `ToBytes` of each type, over the bytes of its options.
module _ (u : Uio) where
  abbrev pub ia_na_bytes : Bytes → ℕ → ℕ → Bytes → Bytes
  ia_na_bytes i t₁ t₂ area =
      written u (λ b. u.write_bytes area (u.write32 t₂ (u.write32 t₁ (u.write_bytes i b))))

  abbrev pub ia_pd_bytes : Bytes → ℕ → ℕ → Bytes → Bytes
  ia_pd_bytes i t₁ t₂ area =
      written u (λ b. u.write_bytes area (u.write32 t₂ (u.write32 t₁ (u.write_bytes i b))))

  abbrev pub ia_address_bytes : Slice → ℕ → ℕ → Bytes → Bytes
  ia_address_bytes ip p v area =
      written u (λ b. u.write_bytes area (u.write32 v (u.write32 p (write_ip u ip b))))

  abbrev pub ia_prefix_bytes : ℕ → ℕ → ℕ → Slice → Bytes → Bytes
  ia_prefix_bytes p v l ip area =
      written u (λ b. u.write_bytes area (write_ip u ip (u.write8 l (u.write32 v (u.write32 p b)))))

  abbrev pub message_bytes : ℕ → Bytes → Bytes → Bytes
  message_bytes t tid area = written u (λ b. u.write_bytes area (u.write_bytes tid (u.write8 t b)))

  abbrev pub relay_bytes : ℕ → ℕ → Slice → Slice → Bytes → Bytes
  relay_bytes t hops link peer area =
      written u
        (λ b. u.write_bytes area (write_ip u peer (write_ip u link (u.write8 hops (u.write8 t b)))))

unfoldable mutual
  -- `Options.ToBytes`, what it does to the buffer.
  pub write_options : (u : Uio) → Opts → u.Lexer → u.Lexer
  write_options u nil b = b
  write_options u (cons x o) b = write_options u o (
      u.write_bytes (option_bytes u x)
        (u.write16 (length (option_bytes u x)) (u.write16 (option_code x) b)))

  pub option_bytes : Uio → Opt → Bytes
  option_bytes u (plain v) = value_bytes u v
  option_bytes u (ia_na i t₁ t₂ o) = ia_na_bytes u i t₁ t₂ (written u (write_options u o))
  option_bytes u (ia_pd i t₁ t₂ o) = ia_pd_bytes u i t₁ t₂ (written u (write_options u o))
  option_bytes u (ia_address ip p v o) = ia_address_bytes u ip p v (written u (write_options u o))
  option_bytes u (ia_prefix p v l ip o) = ia_prefix_bytes u p v l ip (written u (write_options u o))
  option_bytes u (relay_msg d) = packet_bytes u d

  pub packet_bytes : Uio → Packet → Bytes
  packet_bytes u (message t tid o) = message_bytes u t tid (written u (write_options u o))
  packet_bytes u (relay t hops link peer o) =
      relay_bytes u t hops link peer (written u (write_options u o))
