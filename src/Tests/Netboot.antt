-- ===== src/Tests/Netboot.antt =====
-- netboot/netconf.go at a concrete DHCPv4 reply and a concrete DHCPv6 reply.
use dhcp.Prelude.{
  ◌≡◌, ◌≢◌, refl, List, [], ◌∷◌, All, none, some, ok, fault, panic, arith, replicate,
}
use dhcp.Uio.Listed.{listed}
use dhcp.Dhcpv4.Packet.{Dhcpv4}
use dhcp.Dhcpv4.Options.{get, update}
use dhcp.Dhcpv4.New.{new_packet}
use dhcp.Dhcpv4.Getters.{subnet_mask, ip_address_lease_time, dns, router, get_ips, message_type}
use dhcp.Dhcpv4.Values.{mask_from_bytes, duration_from_bytes, ips_from_bytes, read_ip}
use dhcp.Uio.Items.{each}
use dhcp.Dhcpv4.DomainSearch.{domain_search}
use dhcp.Net.{to16}
use dhcp.Dhcpv6.Message.{Message}
use dhcp.Dhcpv6.Values.{dns_servers, boot_file_url, value_bytes, value_code}
use dhcp.Dhcpv6.Packet.{
  Packet, message, option_code, Opt, Opts, plain, ia_na, ia_address, nil, cons, to_list,
  option_bytes,
}
use dhcp.Dhcpv6.Packet.Depth.{IsOption, IsOptions, IsPacket}
use dhcp.Netboot.{
  NetConf, is_null, get_net_conf_from_packet_v4, get_net_conf_from_packet_v6, mask_ones, netmask_v6,
}
use dhcp.Netboot.Conversations.{conversation_to_netconf, conversation_to_netconf_v4}
use dhcp.Netboot.Conversations.Sound.{
  IsFrom, IsFromOffer, conversation_to_netconf_sound, conversation_to_netconf_v4_sound,
  conversation_to_netconf-ne-fault,
}
use dhcp.Dhcpv6.Relaying.{get_one_option}
use dhcp.Dhcpv6.Options.{get_one}
use dhcp.Dhcpv6.Relay.{is_relay_type}

-- A netmask, a router, a name server and a lease time.
abbrev a_reply : Dhcpv4
a_reply = record (new_packet (1 ∷ 2 ∷ 3 ∷ 4 ∷ [])) {
  your_ip_addr = some (10 ∷ 0 ∷ 0 ∷ 7 ∷ []);
  options = update 1 (some (255 ∷ 255 ∷ 240 ∷ 0 ∷ [])) (
      update 3 (some (10 ∷ 0 ∷ 0 ∷ 1 ∷ [])) (
        update 6 (some (10 ∷ 0 ∷ 0 ∷ 2 ∷ []))
          (update 51 (some (0 ∷ 0 ∷ 1 ∷ 44 ∷ [])) (λ c. none))));
}

abbrev its_configuration : NetConf
its_configuration = record {
  addresses =
      record {
        ip = some (10 ∷ 0 ∷ 0 ∷ 7 ∷ []);
        mask = some (255 ∷ 255 ∷ 240 ∷ 0 ∷ []);
        preferred_lifetime = 0;
        valid_lifetime = 300;
      }
      ∷ [];
  dns_servers = some (10 ∷ 0 ∷ 0 ∷ 2 ∷ []) ∷ [];
  dns_search_list = [];
  routers = some (10 ∷ 0 ∷ 0 ∷ 1 ∷ []) ∷ [];
}

a_reply-configured : get_net_conf_from_packet_v4 listed a_reply ≡ ok its_configuration
unfolding update get_net_conf_from_packet_v4 is_null mask_ones subnet_mask ip_address_lease_time dns
    router get_ips get mask_from_bytes duration_from_bytes ips_from_bytes read_ip each domain_search
a_reply-configured = refl

abbrev reply_options : Opts
reply_options = cons (plain (dns_servers (some (replicate 16 7) ∷ []))) (
    cons
      (ia_na (9 ∷ 9 ∷ 9 ∷ 9 ∷ []) 10 20 (cons (ia_address (some (replicate 16 5)) 100 200 nil) nil))
      nil)

abbrev a_message : Message Opt
a_message = record {
  message_type = 7;
  transaction_id = 1 ∷ 2 ∷ 3 ∷ [];
  options = to_list reply_options;
}

reply_options-IsOptions : IsOptions listed reply_options
unfolding IsOption IsOptions option_bytes value_bytes to16 dhcp.Uio.Items.write_each
reply_options-IsOptions = (
  (refl, tt),
  omega arith,
  (
    (refl, omega arith, omega arith, ((refl, omega arith, omega arith, tt), omega arith, tt)),
    omega arith,
    tt,
  ),
)

-- An advertisement with a boot file, and a reply without one.
abbrev boot_options : Opts
boot_options = cons (plain (boot_file_url (104 ∷ 58 ∷ []))) nil

abbrev a_conversation : List Packet
a_conversation =
    message 1 (1 ∷ 2 ∷ 3 ∷ []) nil
    ∷ message 2 (1 ∷ 2 ∷ 3 ∷ []) boot_options
    ∷ message 7 (1 ∷ 2 ∷ 3 ∷ []) reply_options
    ∷ []

abbrev the_configuration : NetConf
the_configuration = record {
  addresses =
      record {
        ip = some (replicate 16 5);
        mask = netmask_v6;
        preferred_lifetime = 100;
        valid_lifetime = 200;
      }
      ∷ [];
  dns_servers = some (replicate 16 7) ∷ [];
  dns_search_list = [];
  routers = [];
}

a_conversation-configured :
    conversation_to_netconf listed a_conversation ≡ ok (the_configuration, 104 ∷ 58 ∷ [])
unfolding conversation_to_netconf get_net_conf_from_packet_v6 get_one_option get_one option_code
    value_code
a_conversation-configured = refl

conversation_to_netconf_sound_example :
    IsFrom listed a_conversation the_configuration (104 ∷ 58 ∷ [])
conversation_to_netconf_sound_example =
    conversation_to_netconf_sound listed a_conversation the_configuration (104 ∷ 58 ∷ [])
      a_conversation-configured

a_conversation-IsPacket : All (IsPacket listed) a_conversation
unfolding IsPacket IsOptions IsOption is_relay_type option_bytes value_bytes
a_conversation-IsPacket = (
  (omega arith, refl, refl, tt),
  (
    (omega arith, refl, refl, (tt, omega arith, tt)),
    ((omega arith, refl, refl, reply_options-IsOptions), tt),
  ),
)

conversation_to_netconf-ne-fault_example :
    conversation_to_netconf listed a_conversation ≢ fault panic
conversation_to_netconf-ne-fault_example =
    conversation_to_netconf-ne-fault listed a_conversation panic a_conversation-IsPacket

abbrev an_offer : Dhcpv4
an_offer = record a_reply {
  op_code = 2;
  boot_file_name = 98 ∷ [];
  options = update 53 (some (2 ∷ [])) a_reply.options;
}

an_offer-configured :
    conversation_to_netconf_v4 listed (a_reply ∷ an_offer ∷ []) ≡ ok (its_configuration, 98 ∷ [])
unfolding update get_net_conf_from_packet_v4 is_null mask_ones subnet_mask ip_address_lease_time dns
    router get_ips get mask_from_bytes duration_from_bytes ips_from_bytes read_ip each domain_search
    conversation_to_netconf_v4 message_type dhcp.Dhcpv4.Values.message_type_from_bytes
an_offer-configured = refl

conversation_to_netconf_v4_sound_example :
    IsFromOffer listed (a_reply ∷ an_offer ∷ []) its_configuration (98 ∷ [])
conversation_to_netconf_v4_sound_example =
    conversation_to_netconf_v4_sound listed (a_reply ∷ an_offer ∷ []) its_configuration (98 ∷ [])
      an_offer-configured
