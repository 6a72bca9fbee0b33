-- ===== src/Dhcpv6/Packet/Depth.antt =====
-- dhcpv6: packets that the wire can carry, and how deep their options nest.
use Prim.Native.Nat.{max}
use dhcp.Prelude.{ℕ, suc, ◌≡◌, ◌≤◌, true, false, All, IsByte, length, arith}
use dhcp.Uio.{Uio}
use dhcp.Uio.Words.{IsWord16, IsWord32}
use dhcp.Uio.Words.Items.{IsIpv6}
use dhcp.Dhcpv6.Relay.{is_relay_type}
use dhcp.Dhcpv6.Values.Wire.{IsFields}
use dhcp.Dhcpv6.Packet.{
  Packet, Opt, Opts, message, relay, plain, ia_na, ia_pd, ia_address, ia_prefix, relay_msg, nil,
  cons, to_list, option_bytes,
}

-- Each field fits its place, and the bytes of each option fit its length.
unfoldable mutual
  pub IsOption : Uio → Opt → Type 0
  IsOption u (plain v) = IsFields v
  IsOption u (ia_na i t₁ t₂ o) = (length i ≡ 4) × IsWord32 t₁ × IsWord32 t₂ × IsOptions u o
  IsOption u (ia_pd i t₁ t₂ o) = (length i ≡ 4) × IsWord32 t₁ × IsWord32 t₂ × IsOptions u o
  IsOption u (ia_address ip p v o) = IsIpv6 ip × IsWord32 p × IsWord32 v × IsOptions u o
  IsOption u (ia_prefix p v l ip o) = IsWord32 p × IsWord32 v × IsByte l × IsIpv6 ip × IsOptions u o
  IsOption u (relay_msg d) = IsPacket u d

  pub IsOptions : Uio → Opts → Type 0
  IsOptions u nil = Unit
  IsOptions u (cons x o) = IsOption u x × IsWord16 (length (option_bytes u x)) × IsOptions u o

  pub IsPacket : Uio → Packet → Type 0
  IsPacket u (message t tid o) =
      IsByte t × (is_relay_type t ≡ false) × (length tid ≡ 3) × IsOptions u o
  IsPacket u (relay t hops link peer o) =
      IsByte t × (is_relay_type t ≡ true) × IsByte hops × IsIpv6 link × IsIpv6 peer × IsOptions u o

unfoldable mutual
  pub depth : Opt → ℕ
  depth (plain v) = 1
  depth (ia_na i t₁ t₂ o) = suc (depth_options o)
  depth (ia_pd i t₁ t₂ o) = suc (depth_options o)
  depth (ia_address ip p v o) = suc (depth_options o)
  depth (ia_prefix p v l ip o) = suc (depth_options o)
  depth (relay_msg d) = suc (depth_packet d)

  pub depth_options : Opts → ℕ
  depth_options nil = 0
  depth_options (cons x o) = max (depth x) (depth_options o)

  pub depth_packet : Packet → ℕ
  depth_packet (message t tid o) = depth_options o
  depth_packet (relay t hops link peer o) = depth_options o

-- An option that is valid, fits its length, and is at most `n` deep.
abbrev pub IsWithin : Uio → ℕ → Opt → Type 0
IsWithin u n x = IsOption u x × IsWord16 (length (option_bytes u x)) × (depth x ≤ n)

pub All-IsWithin :
    (u : Uio) (n : ℕ) (o : Opts)
    → IsOptions u o
    → depth_options o ≤ n
    → All (IsWithin u n) (to_list o)
unfolding IsOptions depth_options
All-IsWithin u n nil h d = tt
All-IsWithin u n (cons x o) h d = ((h.0, h.1, omega arith), All-IsWithin u n o h.2 (omega arith))
