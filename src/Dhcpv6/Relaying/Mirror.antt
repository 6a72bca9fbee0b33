-- ===== src/Dhcpv6/Relaying/Mirror.antt =====
-- dhcpv6/dhcpv6relay.go: `NewRelayReplFromRelayForw` answers through the relays that forwarded.
use dhcp.Prelude.{ℕ, suc, ◌≡◌, refl, List, [], ◌∷◌, some, ok, arith}
use dhcp.Uio.{Uio}
use dhcp.Dhcpv6.Message.{Message}
use dhcp.Dhcpv6.Relay.{RelayMessage}
use dhcp.Dhcpv6.Packet.{Packet, Opt}
use dhcp.Dhcpv6.Packet.Depth.{depth_packet}
use dhcp.Dhcpv6.Relaying.{
  Layer, is_relay, layers, message_packet, relay_packet, new_relay_repl_from_relay_forw,
}
use dhcp.Dhcpv6.Relaying.Layers.{
  IsAround, IsAround-IsPlaced, around, wrap-around, collect-IsAround, around-IsAround,
}

abbrev pub AnyType : ℕ → Type 0
AnyType t = Unit

abbrev pub IsRelayReply : ℕ → Type 0
IsRelayReply t = t ≡ 13

module _ (u : Uio) where
  layers-IsAround :
      (P : ℕ → Type 0) (inner : Packet) (ls : List Layer) (r : RelayMessage Opt)
      → IsAround P inner ls (relay_packet r)
      → layers u (relay_packet r) ≡ ok ls
  unfolding layers is_relay
  layers-IsAround P inner [] r (IsAround.core c) = cc
  layers-IsAround P inner (l ∷ ls) r w =
      collect-IsAround u P (suc (depth_packet (relay_packet r))) inner l ls (relay_packet r) w
        (omega arith)

  -- The answer to a message that relays have forwarded goes back through the same relays: if a
  -- relay message of type RELAY-FORW is layers of relays around some packet, the answer is as many
  -- layers, of type RELAY-REPL, around the given message, and in the same order they have the
  -- addresses, the interface and the remote identifiers of those of the request, where there are any.
  pub new_relay_repl_from_relay_forw_lem :
      (r : RelayMessage Opt) (m : Message Opt) (ls : List Layer) (inner : Packet)
      → r.message_type ≡ 12
      → IsAround AnyType inner ls (relay_packet r)
      → (p : Packet) × (new_relay_repl_from_relay_forw u (some r) (some m) ≡ ok p)
        × IsAround IsRelayReply (message_packet m) ls p
  unfolding new_relay_repl_from_relay_forw is_relay
  new_relay_repl_from_relay_forw_lem r m ls inner t w = (
    around u ls (message_packet m),
    rw (layers-IsAround AnyType inner ls r w, t, wrap-around u ls (message_packet m)) refl,
    around-IsAround u ls (message_packet m) (IsAround-IsPlaced AnyType inner ls (relay_packet r) w)
        refl,
  )
