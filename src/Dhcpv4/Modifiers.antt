-- ===== src/Dhcpv4/Modifiers.antt =====
-- dhcpv4/modifiers.go and the constructors of options in dhcpv4/option_*.go.
use Prim.Native.Nat.{bit_and, bit_or}
use dhcp.Prelude.{
  ℕ, ◌+◌, ◌*◌, ◌%◌, Bool, List, [], ◌∷◌, ◌++◌, some, ◌==◌, if◌then◌else◌, Bytes, Slice,
}
use dhcp.Uio.{Uio}
use dhcp.Dhcpv4.Options
use dhcp.Dhcpv4.Options.{empty, options_from_list}
use dhcp.Dhcpv4.Values.{
  second, VivcIdentifier, codes_add, ip_to_bytes, ips_to_bytes, strings_to_bytes, codes_to_bytes,
  archs_to_bytes, vivc_to_bytes, duration_to_bytes, uint16_to_bytes, mask_to_bytes,
  message_type_to_bytes,
}
use dhcp.Dhcpv4.Packet.{Dhcpv4}
use dhcp.Dhcpv4.Getters.{update_option, parameter_request_list}
use dhcp.Dhcpv4.Codes.{
  opcode_boot_request, opcode_boot_reply, option_subnet_mask, option_router,
  option_domain_name_server, option_host_name, option_domain_name, option_root_path,
  option_broadcast_address, option_ntp_servers, option_requested_ip_address,
  option_ip_address_lease_time, option_dhcp_message_type, option_server_identifier,
  option_parameter_request_list, option_maximum_dhcp_message_size, option_class_identifier,
  option_tftp_server_name, option_bootfile_name, option_user_class_information,
  option_relay_agent_information, option_client_system_architecture_type,
  option_vendor_identifying_vendor_class,
}

-- A modifier changes the packet in place: it is the function from the packet before to that after.
abbrev pub Modifier : Type 0
Modifier = Dhcpv4 → Dhcpv4

-- The modifiers are applied one after the other.
unfoldable pub apply_modifiers : List Modifier → Modifier
apply_modifiers [] d = d
apply_modifiers (m ∷ ms) d = apply_modifiers ms (m d)

abbrev pub prepend_modifiers : List Modifier → List Modifier → List Modifier
prepend_modifiers m other = other ++ m

-- `d.Flags&0x8000 == 0x8000`
unfoldable pub is_broadcast : Dhcpv4 → Bool
is_broadcast d = bit_and d.flags 0x8000 == 0x8000

unfoldable pub is_unicast : Dhcpv4 → Bool
is_unicast d = bit_and d.flags 0x8000 == 0

unfoldable pub set_broadcast : Modifier
set_broadcast d = record d { flags = bit_or d.flags 0x8000 }

-- `d.Flags &= ^uint16(0x8000)`
unfoldable pub set_unicast : Modifier
set_unicast d = record d { flags = bit_and d.flags 0x7fff }

unfoldable pub with_transaction_id : Bytes → Modifier
with_transaction_id xid d = record d { transaction_id = xid }

unfoldable pub with_client_ip : Slice → Modifier
with_client_ip ip d = record d { client_ip_addr = ip }

unfoldable pub with_your_ip : Slice → Modifier
with_your_ip ip d = record d { your_ip_addr = ip }

unfoldable pub with_server_ip : Slice → Modifier
with_server_ip ip d = record d { server_ip_addr = ip }

unfoldable pub with_reply : Dhcpv4 → Modifier
with_reply request d = record d {
  op_code =
      if request.op_code == opcode_boot_request then opcode_boot_reply else opcode_boot_request;
  hw_type = request.hw_type;
  transaction_id = request.transaction_id;
  client_hw_addr = request.client_hw_addr;
  flags = request.flags;
  gateway_ip_addr = request.gateway_ip_addr;
}

unfoldable pub with_hw_type : ℕ → Modifier
with_hw_type hwt d = record d { hw_type = hwt }

unfoldable pub with_broadcast : Bool → Modifier
unfolding set_broadcast set_unicast
with_broadcast broadcast d = if broadcast then set_broadcast d else set_unicast d

unfoldable pub with_hw_addr : Bytes → Modifier
with_hw_addr hwaddr d = record d { client_hw_addr = hwaddr }

abbrev pub with_option : ℕ × Slice → Modifier
with_option = update_option

-- `d.HopCount++` on a byte.
unfoldable pub with_relay : Slice → Modifier
unfolding set_unicast
with_relay ip d =
    let s = set_unicast d in record s { gateway_ip_addr = ip; hop_count = (s.hop_count + 1) % 256 }

abbrev pub opt_domain_name : Bytes → ℕ × Slice
opt_domain_name name = (option_domain_name, some name)

abbrev pub opt_host_name : Bytes → ℕ × Slice
opt_host_name name = (option_host_name, some name)

abbrev pub opt_root_path : Bytes → ℕ × Slice
opt_root_path name = (option_root_path, some name)

abbrev pub opt_boot_file_name : Bytes → ℕ × Slice
opt_boot_file_name name = (option_bootfile_name, some name)

abbrev pub opt_tftp_server_name : Bytes → ℕ × Slice
opt_tftp_server_name name = (option_tftp_server_name, some name)

abbrev pub opt_class_identifier : Bytes → ℕ × Slice
opt_class_identifier name = (option_class_identifier, some name)

abbrev pub opt_user_class : Bytes → ℕ × Slice
opt_user_class name = (option_user_class_information, some name)

abbrev pub opt_message_type : ℕ → ℕ × Slice
opt_message_type m = (option_dhcp_message_type, message_type_to_bytes m)

abbrev pub opt_subnet_mask : Slice → ℕ × Slice
opt_subnet_mask mask = (option_subnet_mask, mask_to_bytes mask)

abbrev pub opt_generic : ℕ → Slice → ℕ × Slice
opt_generic code value = (code, value)

unfoldable pub with_generic : ℕ → Slice → Modifier
with_generic code value = with_option (opt_generic code value)

unfoldable pub with_message_type : ℕ → Modifier
with_message_type m = with_option (opt_message_type m)

unfoldable pub with_netmask : Slice → Modifier
with_netmask mask = with_option (opt_subnet_mask mask)

module _ (u : Uio) where
  abbrev pub opt_broadcast_address : Slice → ℕ × Slice
  opt_broadcast_address ip = (option_broadcast_address, ip_to_bytes u ip)

  abbrev pub opt_requested_ip_address : Slice → ℕ × Slice
  opt_requested_ip_address ip = (option_requested_ip_address, ip_to_bytes u ip)

  abbrev pub opt_server_identifier : Slice → ℕ × Slice
  opt_server_identifier ip = (option_server_identifier, ip_to_bytes u ip)

  abbrev pub opt_router : List Slice → ℕ × Slice
  opt_router routers = (option_router, ips_to_bytes u routers)

  abbrev pub opt_ntp_servers : List Slice → ℕ × Slice
  opt_ntp_servers servers = (option_ntp_servers, ips_to_bytes u servers)

  abbrev pub opt_dns : List Slice → ℕ × Slice
  opt_dns servers = (option_domain_name_server, ips_to_bytes u servers)

  abbrev pub opt_rfc3004_user_class : List Bytes → ℕ × Slice
  opt_rfc3004_user_class v = (option_user_class_information, strings_to_bytes u v)

  abbrev pub opt_parameter_request_list : List ℕ → ℕ × Slice
  opt_parameter_request_list codes = (option_parameter_request_list, codes_to_bytes u codes)

  abbrev pub opt_client_arch : List ℕ → ℕ × Slice
  opt_client_arch archs = (option_client_system_architecture_type, archs_to_bytes u archs)

  abbrev pub opt_vivc : List VivcIdentifier → ℕ × Slice
  opt_vivc ids = (option_vendor_identifying_vendor_class, vivc_to_bytes u ids)

  abbrev pub opt_ip_address_lease_time : ℕ → ℕ × Slice
  opt_ip_address_lease_time d = (option_ip_address_lease_time, duration_to_bytes u d)

  abbrev pub opt_max_message_size : ℕ → ℕ × Slice
  opt_max_message_size size = (option_maximum_dhcp_message_size, uint16_to_bytes u size)

  -- `RelayOptions{OptionsFromList(o...)}` as a value is the marshalled map.
  abbrev pub opt_relay_agent_info : List (ℕ × Slice) → ℕ × Slice
  opt_relay_agent_info o =
      (option_relay_agent_information, Options.to_bytes u (options_from_list o empty))

  unfoldable pub with_router : List Slice → Modifier
  with_router routers = with_option (opt_router routers)

  unfoldable pub with_dns : List Slice → Modifier
  with_dns servers = with_option (opt_dns servers)

  unfoldable pub with_lease_time : ℕ → Modifier
  with_lease_time lease_time = with_option (opt_ip_address_lease_time (lease_time * second))

  unfoldable pub with_user_class : Bytes → Bool → Modifier
  with_user_class uc rfc d =
      if rfc
      then update_option (opt_rfc3004_user_class (uc ∷ [])) d
      else update_option (opt_user_class uc) d

  unfoldable pub with_requested_options : List ℕ → Modifier
  with_requested_options codes d =
      update_option (opt_parameter_request_list (codes_add codes (parameter_request_list u d))) d

  unfoldable pub with_netboot : Modifier
  with_netboot = with_requested_options (option_tftp_server_name ∷ option_bootfile_name ∷ [])
