-- ===== src/Tests/Client.antt =====
-- dhcpv6/client6/client.go and netboot/netboot.go at concrete hosts and packets.
use dhcp.Prelude.{
  ℕ, ◌≡◌, ◌<◌, refl, false, true, List, [], ◌∷◌, some, ◌==◌, if◌then◌else◌, Bytes, Result, ok, err,
  arith, replicate, inl, inr,
}
use dhcp.Uio.Listed.{listed}
use dhcp.Dhcpv6.Packet.{Packet, Opt, Opts, of_list, plain, ia_na, message, cons, nil, packet_bytes}
use dhcp.Dhcpv6.Packet.Parse.{packet_from_bytes, kind}
use dhcp.Client6.{
  Client, Host, Interface, exchange, UdpAddr, unset, receive, all_dhcp_relay_agents_and_servers,
}
use dhcp.Client6.Received.{IsRead, IsReplyTo, IsSkipped, receive_sound, receive-skipped}
use dhcp.Client6.Exchange.{exchange_sound, IsConversation}
use dhcp.Client6.Served.{Answers, Setting, message-IsReplyTo, exchange-Setting}
use dhcp.Dhcpv6.Duid.{Duid}
use dhcp.Dhcpv6.Values.{client_id, server_id}
use dhcp.Dhcpv6.Message.{Message}
use dhcp.Dhcpv6.Message.Exchange.{IsNamed}
use dhcp.Netboot.Requests.{request_netboot, request_netboot-ends, IsFailed}
use dhcp.Dhcpv6.Relaying.{pos}

abbrev adv : Bytes
adv =
    2 ∷ 7 ∷ 8 ∷ 9 ∷ 0 ∷ 1 ∷ 0 ∷ 4 ∷ 0 ∷ 3 ∷ 0 ∷ 1 ∷ 0 ∷ 2 ∷ 0 ∷ 4 ∷ 0 ∷ 3 ∷ 0 ∷ 1 ∷ 0 ∷ 3 ∷ 0 ∷ 12
    ∷ 1 ∷ 1 ∷ 1 ∷ 1 ∷ 0 ∷ 0 ∷ 0 ∷ 1 ∷ 0 ∷ 0 ∷ 0 ∷ 2 ∷ []

-- A server that gives an advertisement of a fixed transaction, and a reply of it.
abbrev answers : Bytes → Result (Unit {0}) (List Bytes × Unit {0})
answers [] = ok ([], tt)
answers (t ∷ rest) =
    if t == 1 then ok ((7 ∷ 7 ∷ 8 ∷ 9 ∷ []) ∷ adv ∷ [], tt) else ok ((7 ∷ 7 ∷ 8 ∷ 9 ∷ []) ∷ [], tt)

abbrev a_host : Host (Unit {0})
a_host = record {
  link_local = ok (some (replicate 16 1));
  listen = λ a. ok tt;
  is_ready = true;
  write = λ l r bs. answers bs;
}

abbrev an_interface : Interface (Unit {0})
an_interface = record {
  name = 101 ∷ [];
  hardware_addr = ok (some (1 ∷ 2 ∷ 3 ∷ 4 ∷ 5 ∷ 6 ∷ []));
  random = record { xid = 7 ∷ 8 ∷ 9 ∷ []; n = 3; failed = false };
  now = 1000000000;
}

abbrev a_client : Client
a_client = record { local_addr = unset; remote_addr = unset; simulate_relay = false }

abbrev a_conversation : List Packet
a_conversation = (exchange listed a_client a_host an_interface []).0

exchange_ends : exchange listed a_client a_host an_interface [] ≡ (a_conversation, ok tt)
unfolding exchange packet_bytes dhcp.Dhcpv6.Packet.option_bytes dhcp.Dhcpv6.Packet.write_options
    dhcp.Dhcpv6.Values.value_bytes dhcp.Dhcpv6.Relaying.add_option dhcp.Dhcpv6.Options.add
    dhcp.Dhcpv6.Options.get_one dhcp.Dhcpv6.Packet.option_code dhcp.Dhcpv6.Values.value_code
    dhcp.Dhcpv6.Packet.Parse.packet_from_bytes dhcp.Dhcpv6.Packet.Parse.parse_packet
    dhcp.Dhcpv6.Relay.is_relay_type dhcp.Dhcpv6.Message.message_from_bytes
    dhcp.Dhcpv6.Message.finish_message dhcp.Dhcpv6.Options.from_bytes_with_parser
    dhcp.Uio.Items.each dhcp.Dhcpv6.Packet.Parse.parse_option dhcp.Dhcpv6.Packet.Parse.parse_as
    dhcp.Dhcpv6.Values.format dhcp.Dhcpv6.Values.Parse.parse_value
    dhcp.Dhcpv6.Values.Parse.parse_duid dhcp.Dhcpv6.Duid.duid_from_bytes dhcp.Dhcpv6.Duid.uint16_at
    dhcp.Dhcpv6.Duid.fields_from_bytes dhcp.Dhcpv6.Duid.uint32_at dhcp.Dhcpv6.Duid.slice_from
    dhcp.Dhcpv6.Packet.Parse.parse_ia dhcp.Dhcpv6.Packet.Parse.nested
exchange_ends = refl

exchange_sound_example : (tid : Bytes) × IsConversation tid a_conversation
exchange_sound_example =
    exchange_sound listed a_client a_host an_interface a_conversation refl exchange_ends

a_reply_parses : packet_from_bytes listed (7 ∷ 7 ∷ 8 ∷ 9 ∷ []) ≡ ok (message 7 (7 ∷ 8 ∷ 9 ∷ []) nil)
unfolding packet_from_bytes dhcp.Dhcpv6.Packet.Parse.parse_packet dhcp.Dhcpv6.Relay.is_relay_type
    dhcp.Dhcpv6.Message.message_from_bytes dhcp.Dhcpv6.Message.finish_message
    dhcp.Dhcpv6.Options.from_bytes_with_parser dhcp.Uio.Items.each
a_reply_parses = refl

another_parses : packet_from_bytes listed (7 ∷ 1 ∷ 1 ∷ 1 ∷ []) ≡ ok (message 7 (1 ∷ 1 ∷ 1 ∷ []) nil)
unfolding packet_from_bytes dhcp.Dhcpv6.Packet.Parse.parse_packet dhcp.Dhcpv6.Relay.is_relay_type
    dhcp.Dhcpv6.Message.message_from_bytes dhcp.Dhcpv6.Message.finish_message
    dhcp.Dhcpv6.Options.from_bytes_with_parser dhcp.Uio.Items.each
another_parses = refl

abbrev a_request : Packet
a_request = message 3 (7 ∷ 8 ∷ 9 ∷ []) nil

another-IsSkipped : IsSkipped listed a_request 7 (7 ∷ 1 ∷ 1 ∷ 1 ∷ [])
another-IsSkipped = inr (
  message 7 (1 ∷ 1 ∷ 1 ∷ []) nil,
  another_parses,
  (λ r. ground (arith, r.transaction 3 7 (7 ∷ 8 ∷ 9 ∷ []) (1 ∷ 1 ∷ 1 ∷ []) nil nil refl refl)),
)

a_reply-IsReplyTo : IsReplyTo a_request 7 (message 7 (7 ∷ 8 ∷ 9 ∷ []) nil)
a_reply-IsReplyTo = message-IsReplyTo 3 7 (7 ∷ 8 ∷ 9 ∷ []) nil nil

a_request-answered :
    receive listed a_request 7 ((7 ∷ 1 ∷ 1 ∷ 1 ∷ []) ∷ (7 ∷ 7 ∷ 8 ∷ 9 ∷ []) ∷ []) tt
    ≡ ok (message 7 (7 ∷ 8 ∷ 9 ∷ []) nil)
a_request-answered =
    receive-skipped listed a_request 7 ((7 ∷ 1 ∷ 1 ∷ 1 ∷ []) ∷ []) (7 ∷ 7 ∷ 8 ∷ 9 ∷ []) [] tt
      (message 7 (7 ∷ 8 ∷ 9 ∷ []) nil) (another-IsSkipped, tt) a_reply_parses a_reply-IsReplyTo

receive_sound_example :
    IsRead listed a_request 7
      ((7 ∷ 1 ∷ 1 ∷ 1 ∷ []) ∷ (7 ∷ 7 ∷ 8 ∷ 9 ∷ []) ∷ [])
      (message 7 (7 ∷ 8 ∷ 9 ∷ []) nil)
receive_sound_example =
    receive_sound listed a_request 7 ((7 ∷ 1 ∷ 1 ∷ 1 ∷ []) ∷ (7 ∷ 7 ∷ 8 ∷ 9 ∷ []) ∷ []) tt
      (message 7 (7 ∷ 8 ∷ 9 ∷ []) nil) a_request-answered

abbrev a_duid : Duid
a_duid = record {
  duid_type = 3;
  hw_type = 1;
  time = 0;
  link_layer_addr = some [];
  enterprise_number = 0;
  enterprise_identifier = [];
  uuid = [];
  opaque = [];
}

abbrev an_association : Opt
an_association = ia_na (1 ∷ 1 ∷ 1 ∷ 1 ∷ []) 1 2 nil

abbrev offered : Opts
offered =
    cons (plain (client_id a_duid)) (cons (plain (server_id a_duid)) (cons an_association nil))

adv_parses : packet_from_bytes listed adv ≡ ok (message 2 (7 ∷ 8 ∷ 9 ∷ []) offered)
unfolding packet_bytes dhcp.Dhcpv6.Packet.option_bytes dhcp.Dhcpv6.Packet.write_options
    dhcp.Dhcpv6.Values.value_bytes dhcp.Dhcpv6.Relaying.add_option dhcp.Dhcpv6.Options.add
    dhcp.Dhcpv6.Options.get_one dhcp.Dhcpv6.Packet.option_code dhcp.Dhcpv6.Values.value_code
    dhcp.Dhcpv6.Packet.Parse.packet_from_bytes dhcp.Dhcpv6.Packet.Parse.parse_packet
    dhcp.Dhcpv6.Relay.is_relay_type dhcp.Dhcpv6.Message.message_from_bytes
    dhcp.Dhcpv6.Message.finish_message dhcp.Dhcpv6.Options.from_bytes_with_parser
    dhcp.Uio.Items.each dhcp.Dhcpv6.Packet.Parse.parse_option dhcp.Dhcpv6.Packet.Parse.parse_as
    dhcp.Dhcpv6.Values.format dhcp.Dhcpv6.Values.Parse.parse_value
    dhcp.Dhcpv6.Values.Parse.parse_duid dhcp.Dhcpv6.Duid.duid_from_bytes dhcp.Dhcpv6.Duid.uint16_at
    dhcp.Dhcpv6.Duid.fields_from_bytes dhcp.Dhcpv6.Duid.uint32_at dhcp.Dhcpv6.Duid.slice_from
    dhcp.Dhcpv6.Packet.Parse.parse_ia dhcp.Dhcpv6.Packet.Parse.nested
adv_parses = refl

abbrev a_local : UdpAddr
a_local = record { ip = some (replicate 16 1); port = 546; zone = 101 ∷ [] }

abbrev a_remote : UdpAddr
a_remote = record { ip = all_dhcp_relay_agents_and_servers; port = 547; zone = [] }

an_other_type :
    {o : Opts} → IsReplyTo (message 1 (7 ∷ 8 ∷ 9 ∷ []) o) 2 (message 7 (7 ∷ 8 ∷ 9 ∷ []) nil) → ⊥
an_other_type r = elim r.typed [ inl p ↦ absurd (omega arith) | inr p ↦ absurd (omega arith) ]

advertises :
    (o : Opts)
    → Answers listed a_host a_local a_remote
        (message 1 (7 ∷ 8 ∷ 9 ∷ []) o)
        2
        (message 2 (7 ∷ 8 ∷ 9 ∷ []) offered)
unfolding packet_bytes
advertises o = record {
  before = (7 ∷ 7 ∷ 8 ∷ 9 ∷ []) ∷ [];
  datagram = adv;
  after = [];
  failure = tt;
  written = refl;
  skipped = (inr (message 7 (7 ∷ 8 ∷ 9 ∷ []) nil, a_reply_parses, an_other_type), tt);
  parsed = adv_parses;
}

replies :
    (o : Opts)
    → Answers listed a_host a_local a_remote
        (message 3 (7 ∷ 8 ∷ 9 ∷ []) o)
        7
        (message 7 (7 ∷ 8 ∷ 9 ∷ []) nil)
unfolding packet_bytes
replies o = record {
  before = [];
  datagram = 7 ∷ 7 ∷ 8 ∷ 9 ∷ [];
  after = [];
  failure = tt;
  written = refl;
  skipped = tt;
  parsed = a_reply_parses;
}

a-Setting :
    Setting listed a_client a_host an_interface a_local a_remote
      (some (1 ∷ 2 ∷ 3 ∷ 4 ∷ 5 ∷ 6 ∷ []))
      offered
      nil
      (plain (client_id a_duid))
      (plain (server_id a_duid))
      an_association
unfolding dhcp.Dhcpv6.Message.get_one_option dhcp.Dhcpv6.Options.get_one
    dhcp.Dhcpv6.Packet.option_code dhcp.Dhcpv6.Values.value_code
a-Setting = record {
  direct = refl;
  local = refl;
  remote = refl;
  listens = refl;
  ready = refl;
  hardware = refl;
  random = (refl, refl);
  named = record { client = refl; server = refl; identity = refl };
  advertises = advertises;
  replies = replies;
}

exchange-Setting_example :
    (sol : Opts) × (r : Message Opt) × IsNamed
      (kind listed 0)
      r
      (plain (client_id a_duid))
      (plain (server_id a_duid))
      an_association
    × (exchange listed a_client a_host an_interface [] ≡ (
      message 1 (7 ∷ 8 ∷ 9 ∷ []) sol
          ∷ message 2 (7 ∷ 8 ∷ 9 ∷ []) offered
          ∷ message 3 (7 ∷ 8 ∷ 9 ∷ []) (of_list r.options)
          ∷ message 7 (7 ∷ 8 ∷ 9 ∷ []) nil
          ∷ [],
      ok tt,
    ))
exchange-Setting_example = exchange-Setting listed a-Setting

abbrev attempts : ℕ → List ℕ → List ℕ × Result (Unit {0}) (Unit {0})
attempts i modifiers = if i == 1 then (modifiers, ok tt) else ([], err tt)

request_netboot-ends_example :
    request_netboot attempts 5 (pos 2) (3 ∷ []) ≡ ok (3 ∷ 5 ∷ [], 2000000000 ∷ [])
request_netboot-ends_example =
    request_netboot-ends attempts 5 1 2 (3 ∷ []) (omega arith) (omega arith, tt) earlier (inl refl)
  where
    earlier : (j : ℕ) → j < 1 → IsFailed (attempts j (3 ∷ 5 ∷ []))
    earlier j h = let z : j ≡ 0 = omega arith in (tt, rw z refl)
