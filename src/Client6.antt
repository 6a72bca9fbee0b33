-- ===== src/Client6.antt =====
-- dhcpv6/client6/client.go: the synchronous DHCPv6 client. What the operating system, the sockets
-- and the interfaces give is an argument.
pub mod Received
pub mod Exchange
pub mod Served
use dhcp.Prelude.{
  ℕ, Bool, true, ◌&&◌, ◌||◌, List, [], ◌∷◌, ◌++◌, Option, none, some, ◌==◌, if◌then◌else◌, not,
  replicate, Bytes, Slice, equal, Result, ok, err, fault, ◌>>=◌, map_err,
}
use dhcp.Uio.{Uio}
use dhcp.Dhcpv4.New.{RandomRead}
use dhcp.Dhcpv6.Message
use dhcp.Dhcpv6.Message.{
  Message, type_solicit, type_advertise, type_request, type_reply, type_relay_forward,
  type_relay_reply, new_request_from_advertise,
}
use dhcp.Dhcpv6.Values
use dhcp.Dhcpv6.Values.{elapsed_time, requested_option}
use dhcp.Dhcpv6.Packet.{Packet, Opt, message, relay, plain, packet_bytes, to_list}
use dhcp.Dhcpv6.Packet.Parse.{kind, packet_from_bytes}
use dhcp.Dhcpv6.Relaying
use dhcp.Dhcpv6.Relaying.{packet_type, encapsulate_relay, get_inner_message, message_packet}
use dhcp.Dhcpv6.Modifiers.{Modifier}
use dhcp.Dhcpv6.New
use dhcp.Dhcpv6.New.{never, apply_modifiers, link_layer_time_duid, new_solicit_with_cid}

pub record UdpAddr : Type 0 where
  pub ip : Slice
  pub port : ℕ
  pub zone : Bytes

-- A `net.Addr`: `nil`, a `*net.UDPAddr`, or of another type.
pub data Addr : Type 0 where
  unset other_addr : Addr
  udp : UdpAddr → Addr

-- `Client`, without its timeouts, which the host keeps.
pub record Client : Type 0 where
  pub local_addr : Addr
  pub remote_addr : Addr
  pub simulate_relay : Bool

-- The link-local address of the interface, whether the socket can be opened and gets ready in
-- time, and what is read after a write: datagrams, cut to the size of the buffer, and the error that
-- ends them, at the read deadline at the latest.
pub record Host (S : Type 0) : Type 0 where
  pub link_local : Result S Slice
  pub listen : UdpAddr → Result S (Unit {0})
  pub is_ready : Bool
  pub write : UdpAddr → UdpAddr → Bytes → Result S (List Bytes × S)

-- What a solicitation is made of.
pub record Interface (S : Type 0) : Type 0 where
  pub name : Bytes
  pub hardware_addr : Result S Slice
  pub random : RandomRead
  pub now : ℕ

pub data Error (S : Type 0) : Type 0 where
  nil_packet bad_local_addr bad_remote_addr not_ready : Error S
  host_failed : S → Error S
  bad_relay : Relaying.Error → Error S
  bad_solicit : New.Error → Error S
  bad_advertise : Message.Error Values.Error → Error S

abbrev pub message_type_none : ℕ
message_type_none = 0

abbrev pub type_lease_query : ℕ
type_lease_query = 14

abbrev pub type_lease_query_reply : ℕ
type_lease_query_reply = 15

abbrev pub default_client_port : ℕ
default_client_port = 546

abbrev pub default_server_port : ℕ
default_server_port = 547

-- `ff02::1:2`
abbrev pub all_dhcp_relay_agents_and_servers : Slice
all_dhcp_relay_agents_and_servers = some (255 ∷ 2 ∷ replicate 10 0 ++ 0 ∷ 1 ∷ 0 ∷ 2 ∷ [])

-- The type that answers the packet, unless the caller has said which one.
unfoldable pub expected_type : ℕ → ℕ → ℕ
expected_type t expected =
    if not (expected == message_type_none)
    then expected
    else if t == type_solicit
    then type_advertise
    else if t == type_request
    then type_reply
    else if t == type_relay_forward
    then type_relay_reply
    else if t == type_lease_query
    then type_lease_query_reply
    else message_type_none

-- The transactions are compared if both are messages.
abbrev pub same_transaction : Packet → Packet → Bool
same_transaction (message t tid o) (message t₂ tid₂ o₂) = equal tid tid₂
same_transaction _ _ = true

unfoldable pub is_reply : Packet → ℕ → Packet → Bool
is_reply packet expected adv =
    same_transaction packet adv && (expected == message_type_none || packet_type adv == expected)

-- `if addr, ok := c.RemoteAddr.(*net.UDPAddr); ok`
abbrev pub remote_udp_addr : {S : Type 0} → Addr → Result (Error S) UdpAddr
remote_udp_addr unset =
    ok (record { ip = all_dhcp_relay_agents_and_servers; port = default_server_port; zone = [] })
remote_udp_addr other_addr = err bad_remote_addr
remote_udp_addr (udp addr) = ok addr

abbrev pub appended : List Packet → Option Packet → List Packet
appended conversation none = conversation
appended conversation (some d) = conversation ++ d ∷ []

module _ {S : Type 0} where
  abbrev pub local_udp_addr : Host S → Bytes → Addr → Result (Error S) UdpAddr
  local_udp_addr h ifname unset = map_err host_failed h.link_local >>= λ ip.
      ok (record { ip = ip; port = default_client_port; zone = ifname })
  local_udp_addr h ifname other_addr = err bad_local_addr
  local_udp_addr h ifname (udp addr) = ok addr

  abbrev pub ensure_ready : Bool → Result (Error S) (Unit {0})
  ensure_ready is_ready = if is_ready then ok tt else err not_ready

  -- `if packet == nil`
  abbrev pub required : Option Packet → Result (Error S) Packet
  required none = err nil_packet
  required (some packet) = ok packet

  module _ (u : Uio) where
    -- The loop that waits for a reply; datagrams that are no packets are skipped.
    unfoldable pub receive : Packet → ℕ → List Bytes → S → Result (Error S) Packet
    unfolding is_reply
    receive packet expected [] failure = err (host_failed failure)
    receive packet expected (datagram ∷ datagrams) failure =
        let later = receive packet expected datagrams failure in
        elim (packet_from_bytes u datagram) [
          | ok adv ↦ if is_reply packet expected adv then ok adv else later
          | err e ↦ later
          | fault f ↦ fault f
        ]

    -- `if c.SimulateRelay`
    abbrev pub relayed : Bool → Slice → Packet → Result (Error S) Packet
    relayed simulate ip packet =
        if simulate
        then map_err bad_relay
            (encapsulate_relay u packet type_relay_forward (some (replicate 16 0)) ip)
        else ok packet

    unfoldable pub send_receive :
        Client → Host S → Bytes → Option Packet → ℕ → Result (Error S) Packet
    unfolding receive expected_type
    send_receive c h ifname packet expected = do
      given ← required packet
      laddr ← local_udp_addr h ifname c.local_addr
      sent ← relayed c.simulate_relay laddr.ip given
      raddr ← remote_udp_addr c.remote_addr
      opened ← map_err host_failed (h.listen laddr)
      ready ← ensure_ready h.is_ready
      read ← map_err host_failed (h.write laddr raddr (packet_bytes u sent))
      receive sent (expected_type (packet_type sent) expected) read.0 read.1

    -- `NewSolicitForInterface`
    unfoldable pub new_solicit_for_interface : Interface S → List Modifier → Result (Error S) Packet
    unfolding new_solicit_with_cid
    new_solicit_for_interface i modifiers = do
      hwaddr ← map_err host_failed i.hardware_addr
      map_err bad_solicit
          (new_solicit_with_cid u i.random (link_layer_time_duid i.now hwaddr) modifiers)

    abbrev pub modified : List Modifier → Packet → Result (Error S) Packet
    modified modifiers packet = map_err never (apply_modifiers modifiers packet)

    -- `Solicit` and `Request` give the packet that was sent, if there is one, and the answer.
    abbrev pub sent_and_read :
        Client → Host S → Bytes → Result (Error S) Packet → Option Packet × Result (Error S) Packet
    sent_and_read c h ifname (ok packet) =
        (some packet, send_receive c h ifname (some packet) message_type_none)
    sent_and_read c h ifname (err e) = (none, err e)
    sent_and_read c h ifname (fault f) = (none, fault f)

    unfoldable pub solicit :
        Client → Host S → Interface S → List Modifier → Option Packet × Result (Error S) Packet
    unfolding send_receive new_solicit_for_interface apply_modifiers
    solicit c h i modifiers =
        sent_and_read c h i.name (new_solicit_for_interface i [] >>= modified modifiers)

    abbrev pub request_for : Message Opt → Result (Error S) (Message Opt)
    request_for advertise = map_err bad_advertise (
        new_request_from_advertise (kind u 0) (plain (elapsed_time 0))
          (λ codes. plain (requested_option codes)) (some advertise) [])

    unfoldable pub request :
        Client
        → Host S
        → Bytes
        → Message Opt
        → List Modifier
        → Option Packet × Result (Error S) Packet
    unfolding send_receive apply_modifiers new_request_from_advertise
    request c h ifname advertise modifiers =
        sent_and_read c h ifname
          (request_for advertise >>= λ m. modified modifiers (message_packet m))

    -- The message in the advertisement, if relays have wrapped it.
    abbrev pub inner : Packet → Result (Error S) (Message Opt)
    inner (message t tid o) =
        ok (record { message_type = t; transaction_id = tid; options = to_list o })
    inner (relay t hops link peer o) =
        map_err bad_relay (get_inner_message u (relay t hops link peer o))

    -- `if err != nil { return conversation, err }`
    abbrev pub returning :
        {A : Type 0}
        → List Packet
        → Result (Error S) A
        → (A → List Packet × Result (Error S) (Unit {0}))
        → List Packet × Result (Error S) (Unit {0})
    returning conversation (ok a) next = next a
    returning conversation (err e) next = (conversation, err e)
    returning conversation (fault f) next = (conversation, fault f)

    unfoldable pub exchange :
        Client → Host S → Interface S → List Modifier → List Packet × Result (Error S) (Unit {0})
    unfolding solicit request
    exchange c h i modifiers =
        let (solicited, answer) = solicit c h i modifiers in
        let begun = appended [] solicited in
        returning begun answer λ advertise.
          let advertised = begun ++ advertise ∷ [] in
          returning advertised (inner advertise) λ adv.
            let (requested, reply) = request c h i.name adv modifiers in
            let asked = appended advertised requested in
            returning asked reply λ d. (asked ++ d ∷ [], ok tt)
