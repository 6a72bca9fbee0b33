-- ===== src/Tests/Relays.antt =====
-- dhcpv6 at a concrete packet: a message with an identity association, through two relays.
use dhcp.Prelude.{
  ◌≡◌, ◌≢◌, ◌↔◌, refl, [], ◌∷◌, none, some, Slice, ok, fault, panic, out_of_fuel, arith, replicate,
  length, elements,
}
use dhcp.Uio.Listed.{listed}
use dhcp.Dhcpv6.Message.{Message}
use dhcp.Dhcpv6.Relay.{RelayMessage, is_relay_type}
use dhcp.Dhcpv6.Values.{status_code, interface_id, remote_id, value_bytes, value_code}
use dhcp.Dhcpv6.Packet.{
  Packet, Opt, message, relay, plain, ia_na, ia_address, relay_msg, nil, cons, packet_bytes,
  option_bytes, option_code,
}
use dhcp.Dhcpv6.Packet.Parse.{packet_from_bytes}
use dhcp.Dhcpv6.Packet.Depth.{IsOption, IsOptions, IsPacket}
use dhcp.Dhcpv6.Packet.RoundTrip.{packet_from_bytes-packet_bytes}
use dhcp.Dhcpv6.Packet.Termination.{packet_from_bytes-ne-fault}
use dhcp.Dhcpv6.Iputils.{extract_mac, get_mac_address_from_eui64}
use dhcp.Dhcpv6.Iputils.Address.{extract_mac-IsStripped, get_mac_address_from_eui64_panics}
use dhcp.Net.{to16}
use dhcp.Dhcpv6.Relaying.{
  message_packet, Layer, is_relay, new_relay_repl_from_relay_forw, get_inner_message, relay_packet,
  decapsulate_relay_index, pos, negsuc,
}
use dhcp.Dhcpv6.Relaying.Layers.{
  IsFirstOf, IsInside, IsStripped, IsAround, decapsulate_relay_index-IsStripped,
}
use dhcp.Dhcpv6.Relaying.Mirror.{AnyType, IsRelayReply, new_relay_repl_from_relay_forw_lem}
use dhcp.Dhcpv6.Relaying.Termination.{get_inner_message-ne-out_of_fuel}

abbrev an_ip : Slice
an_ip = some (0x20 ∷ 1 ∷ replicate 14 7)

abbrev an_address : Opt
an_address = ia_address an_ip 100 200 (cons (plain (status_code 0 [])) nil)

abbrev solicit : Packet
solicit =
    message 1 (1 ∷ 2 ∷ 3 ∷ []) (cons (ia_na (9 ∷ 9 ∷ 9 ∷ 9 ∷ []) 10 20 (cons an_address nil)) nil)

abbrev inner_relay : Packet
inner_relay =
    relay 12 0 an_ip an_ip (cons (plain (interface_id (5 ∷ []))) (cons (relay_msg solicit) nil))

-- The wire can carry it.
inner_relay-IsPacket : IsPacket listed inner_relay
unfolding IsPacket IsOption IsOptions is_relay_type option_bytes value_bytes to16
inner_relay-IsPacket = (
  omega arith,
  refl,
  omega arith,
  refl,
  refl,
  (
    tt,
    omega arith,
    (
      (
        omega arith,
        refl,
        refl,
        (
          (
            refl,
            omega arith,
            omega arith,
            ((refl, omega arith, omega arith, (omega arith, omega arith, tt)), omega arith, tt),
          ),
          omega arith,
          tt,
        ),
      ),
      omega arith,
      tt,
    ),
  ),
)

packet_from_bytes-packet_bytes_example :
    packet_from_bytes listed (packet_bytes listed inner_relay) ≡ ok inner_relay
packet_from_bytes-packet_bytes_example =
    packet_from_bytes-packet_bytes listed inner_relay inner_relay-IsPacket

-- A relay message whose option says that it is longer than it is.
packet_from_bytes-ne-fault_example :
    packet_from_bytes listed (12 ∷ 0 ∷ replicate 40 9) ≢ fault panic
packet_from_bytes-ne-fault_example =
    packet_from_bytes-ne-fault listed (12 ∷ 0 ∷ replicate 40 9) panic

-- The outer relay has no interface identifier, but a remote identifier.
abbrev forwarded : RelayMessage Opt
forwarded = record {
  message_type = 12;
  hop_count = 1;
  link_addr = an_ip;
  peer_addr = none;
  options = relay_msg inner_relay ∷ plain (remote_id 4 (8 ∷ [])) ∷ [];
}

abbrev reply : Message Opt
reply = record { message_type = 7; transaction_id = 1 ∷ 2 ∷ 3 ∷ []; options = [] }

abbrev outer_layer : Layer
outer_layer = record {
  link = an_ip;
  peer = none;
  interface_id = none;
  remote_id = some (plain (remote_id 4 (8 ∷ [])));
}

abbrev inner_layer : Layer
inner_layer = record {
  link = an_ip;
  peer = an_ip;
  interface_id = some (plain (interface_id (5 ∷ [])));
  remote_id = none;
}

inner_relay-IsInside : IsInside solicit inner_relay
unfolding option_code value_code
inner_relay-IsInside = IsInside.inside (IsFirstOf.there (omega arith) (IsFirstOf.here refl))

forwarded-IsAround :
    IsAround AnyType solicit (outer_layer ∷ inner_layer ∷ []) (relay_packet forwarded)
unfolding option_code value_code is_relay
forwarded-IsAround =
    IsAround.within tt (IsFirstOf.here refl) (omega arith, (omega arith, tt))
      (IsFirstOf.there (omega arith) (IsFirstOf.here refl))
      (IsAround.within tt (IsFirstOf.there (omega arith) (IsFirstOf.here refl))
        (IsFirstOf.here refl) (omega arith, (omega arith, tt)) (IsAround.core refl))

new_relay_repl_from_relay_forw_lem_example :
    (p : Packet) × (new_relay_repl_from_relay_forw listed (some forwarded) (some reply) ≡ ok p)
    × IsAround IsRelayReply (message_packet reply) (outer_layer ∷ inner_layer ∷ []) p
new_relay_repl_from_relay_forw_lem_example =
    new_relay_repl_from_relay_forw_lem listed forwarded reply (outer_layer ∷ inner_layer ∷ [])
      solicit refl forwarded-IsAround

get_inner_message-ne-out_of_fuel_example :
    get_inner_message listed (relay_packet forwarded) ≢ fault out_of_fuel
get_inner_message-ne-out_of_fuel_example =
    get_inner_message-ne-out_of_fuel listed (relay_packet forwarded) (unfold is_relay in refl)

forwarded-IsStripped : IsStripped 1 (relay_packet forwarded) inner_relay
unfolding option_code
forwarded-IsStripped = IsStripped.off (IsInside.inside (IsFirstOf.here refl)) IsStripped.whole

decapsulate_relay_index-IsStripped_example :
    (decapsulate_relay_index listed (relay_packet forwarded) (pos 0) ≡ ok inner_relay)
    × (decapsulate_relay_index listed (relay_packet forwarded) (negsuc 0) ≡ ok inner_relay)
decapsulate_relay_index-IsStripped_example =
    decapsulate_relay_index-IsStripped listed 0 1 (relay_packet forwarded) inner_relay inner_relay
      solicit forwarded-IsStripped forwarded-IsStripped inner_relay-IsInside
      (unfold is_relay in refl)

-- The IPv4 address 10.0.0.1 in four bytes.
get_mac_address_from_eui64_panics_example :
    (get_mac_address_from_eui64 (some (10 ∷ 0 ∷ 0 ∷ 1 ∷ [])) ≡ fault panic)
    ↔ (length (elements (some (10 ∷ 0 ∷ 0 ∷ 1 ∷ []))) ≡ 4)
get_mac_address_from_eui64_panics_example =
    get_mac_address_from_eui64_panics (some (10 ∷ 0 ∷ 0 ∷ 1 ∷ []))

-- A relay message whose peer is fe80::5054:ff:fe12:3456, in another one.
abbrev client_relay : Packet
client_relay =
    relay 12 0 an_ip
      (some (254 ∷ 128 ∷ 0 ∷ 0 ∷ 0 ∷ 0 ∷ 0 ∷ 0 ∷ 80 ∷ 84 ∷ 0 ∷ 255 ∷ 254 ∷ 18 ∷ 52 ∷ 86 ∷ []))
      (cons (relay_msg solicit) nil)

abbrev outer_relay : Packet
outer_relay = relay 12 1 an_ip none (cons (relay_msg client_relay) nil)

outer_relay-IsStripped : IsStripped 1 outer_relay client_relay
unfolding option_code
outer_relay-IsStripped = IsStripped.off (IsInside.inside (IsFirstOf.here refl)) IsStripped.whole

extract_mac-IsStripped_example :
    extract_mac listed outer_relay ≡ ok (82 ∷ 84 ∷ 0 ∷ 18 ∷ 52 ∷ 86 ∷ [])
unfolding option_code
extract_mac-IsStripped_example =
    extract_mac-IsStripped listed 1 outer_relay client_relay solicit
      (254 ∷ 128 ∷ 0 ∷ 0 ∷ 0 ∷ 0 ∷ 0 ∷ 0 ∷ []) (82 ∷ 84 ∷ 0 ∷ 18 ∷ 52 ∷ 86 ∷ [])
      outer_relay-IsStripped (IsInside.inside (IsFirstOf.here refl)) (unfold is_relay in refl) refl
      refl refl
