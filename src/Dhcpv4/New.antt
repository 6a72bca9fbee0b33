-- ===== src/Dhcpv4/New.antt =====
-- dhcpv4/dhcpv4.go: making packets. Random bytes are an argument, as `rand.Read` gives them.
pub mod Exchange
use dhcp.Prelude.{
  ℕ, Bool, true, not, List, [], ◌∷◌, none, some, ◌==◌, if◌then◌else◌, Bytes, Slice, Result, ok, err,
  ◌>>=◌,
}
use dhcp.Net.{ipv4_zero, is_unspecified}
use dhcp.Uio.{Uio}
use dhcp.Dhcpv4.Options.{empty}
use dhcp.Dhcpv4.Packet.{Dhcpv4}
use dhcp.Dhcpv4.Getters.{server_identifier}
use dhcp.Dhcpv4.Modifiers.{
  Modifier, apply_modifiers, prepend_modifiers, with_broadcast, with_hw_addr,
  with_requested_options, with_message_type, with_client_ip, with_server_ip, with_reply,
  with_option, opt_requested_ip_address, opt_server_identifier,
}
use dhcp.Dhcpv4.Codes.{
  opcode_boot_request, hw_type_ethernet, message_type_discover, message_type_inform,
  message_type_request, option_subnet_mask, option_router, option_domain_name,
  option_domain_name_server,
}

pub data Error : Type 0 where
  random_failed short_random no_server_ip : Error

-- What `rand.Read(xid[:])` gives back: the bytes, how many it claims, and whether it failed.
pub record RandomRead : Type 0 where
  pub xid : Bytes
  pub n : ℕ
  pub failed : Bool

unfoldable pub generate_transaction_id : RandomRead → Result Error Bytes
generate_transaction_id r =
    if r.failed then err random_failed else if not (r.n == 4) then err short_random else ok r.xid

-- The packet before any modifier.
abbrev pub new_packet : Bytes → Dhcpv4
new_packet xid = record {
  op_code = opcode_boot_request;
  hw_type = hw_type_ethernet;
  hop_count = 0;
  transaction_id = xid;
  num_seconds = 0;
  flags = 0;
  client_ip_addr = ipv4_zero;
  your_ip_addr = ipv4_zero;
  server_ip_addr = ipv4_zero;
  gateway_ip_addr = ipv4_zero;
  client_hw_addr = [];
  server_host_name = [];
  boot_file_name = [];
  options = empty;
}

unfoldable pub new : RandomRead → List Modifier → Result Error Dhcpv4
unfolding generate_transaction_id apply_modifiers
new r modifiers = do
  xid ← generate_transaction_id r
  ok (apply_modifiers modifiers (new_packet xid))

abbrev is_missing : Slice → Bool
is_missing none = true
is_missing (some ip) = is_unspecified (some ip)

-- The server identifier of the offer, or else its server address if that is a real one.
unfoldable pub offer_server_ip : Slice → Slice → Result Error Slice
offer_server_ip (some id) addr = ok (some id)
offer_server_ip none addr = if is_missing addr then err no_server_ip else ok addr

module _ (u : Uio) (r : RandomRead) where
  unfoldable pub new_discovery : Bytes → List Modifier → Result Error Dhcpv4
  unfolding new
  new_discovery hwaddr modifiers = new r (
      prepend_modifiers modifiers (
        with_broadcast true
        ∷ with_hw_addr hwaddr
        ∷ with_requested_options u (
            option_subnet_mask ∷ option_router ∷ option_domain_name ∷ option_domain_name_server
            ∷ [])
        ∷ with_message_type message_type_discover
        ∷ []))

  unfoldable pub new_inform : Bytes → Slice → List Modifier → Result Error Dhcpv4
  unfolding new
  new_inform hwaddr local_ip modifiers = new r (
      prepend_modifiers modifiers (
        with_hw_addr hwaddr ∷ with_message_type message_type_inform ∷ with_client_ip local_ip ∷ []))

  -- The modifiers of `NewRequestFromOffer` once the server's address is known.
  abbrev pub request_modifiers : Dhcpv4 → Slice → List Modifier
  request_modifiers offer server_ip =
      with_reply offer
      ∷ with_message_type message_type_request
      ∷ with_server_ip server_ip
      ∷ with_client_ip offer.client_ip_addr
      ∷ with_option (opt_requested_ip_address u offer.your_ip_addr)
      ∷ with_option (opt_server_identifier u server_ip)
      ∷ []

  unfoldable pub new_request_from_offer : Dhcpv4 → List Modifier → Result Error Dhcpv4
  unfolding new offer_server_ip
  new_request_from_offer offer modifiers = do
    server_ip ← offer_server_ip (server_identifier u offer) offer.server_ip_addr
    new r (prepend_modifiers modifiers (request_modifiers offer server_ip))

  unfoldable pub new_reply_from_request : Dhcpv4 → List Modifier → Result Error Dhcpv4
  unfolding new
  new_reply_from_request request modifiers =
      new r (prepend_modifiers modifiers (with_reply request ∷ []))
