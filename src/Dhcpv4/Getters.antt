-- ===== src/Dhcpv4/Getters.antt =====
-- dhcpv4/dhcpv4.go and dhcpv4/option_*.go: reading the options of a packet.
use dhcp.Prelude.{ℕ, Bool, List, [], ◌∷◌, Option, none, some, Bytes, Slice, Result, ok, err}
use dhcp.Uio.{Uio}
use dhcp.Dhcpv4.Options.{Options, get, update}
use dhcp.Dhcpv4.Values
use dhcp.Dhcpv4.Values.{
  or_default, VivcIdentifier, codes_has, ip_from_bytes, ips_from_bytes, strings_from_bytes,
  codes_from_bytes, archs_from_bytes, vivc_from_bytes, duration_from_bytes, uint16_from_bytes,
  mask_from_bytes, message_type_from_bytes, relay_options_from_bytes, absent,
}
use dhcp.Dhcpv4.Packet.{Dhcpv4}
use dhcp.Dhcpv4.Codes.{
  message_type_none, option_subnet_mask, option_router, option_domain_name_server, option_host_name,
  option_domain_name, option_root_path, option_broadcast_address, option_ntp_servers,
  option_requested_ip_address, option_ip_address_lease_time, option_dhcp_message_type,
  option_server_identifier, option_parameter_request_list, option_maximum_dhcp_message_size,
  option_class_identifier, option_tftp_server_name, option_bootfile_name,
  option_user_class_information, option_relay_agent_information,
  option_client_system_architecture_type, option_vendor_identifying_vendor_class,
}

-- `v := o.Get(code); if v == nil { return def }`, and then the value of `v` or the default.
abbrev when_set : {A : Type 0} → A → (Bytes → A) → Slice → A
when_set def f none = def
when_set def f (some v) = f v

unfoldable pub get_string : ℕ → Options → Bytes
get_string code o = when_set [] (λ v. v) (get code o)

unfoldable pub domain_name : Dhcpv4 → Bytes
domain_name d = get_string option_domain_name d.options

unfoldable pub host_name : Dhcpv4 → Bytes
host_name d = get_string option_host_name d.options

unfoldable pub root_path : Dhcpv4 → Bytes
root_path d = get_string option_root_path d.options

unfoldable pub boot_file_name_option : Dhcpv4 → Bytes
boot_file_name_option d = get_string option_bootfile_name d.options

unfoldable pub tftp_server_name : Dhcpv4 → Bytes
tftp_server_name d = get_string option_tftp_server_name d.options

unfoldable pub class_identifier : Dhcpv4 → Bytes
class_identifier d = get_string option_class_identifier d.options

unfoldable pub get_one_option : ℕ → Dhcpv4 → Slice
get_one_option code d = get code d.options

unfoldable pub update_option : ℕ × Slice → Dhcpv4 → Dhcpv4
update_option opt d = record d { options = update opt.0 opt.1 d.options }

module _ (u : Uio) where
  unfoldable pub get_ip : ℕ → Options → Slice
  get_ip code o = when_set none (λ v. or_default none (ip_from_bytes u v)) (get code o)

  unfoldable pub get_ips : ℕ → Options → List Slice
  get_ips code o = when_set [] (λ v. or_default [] (ips_from_bytes u v)) (get code o)

  unfoldable pub get_uint16 : ℕ → Options → Result Values.Error ℕ
  get_uint16 code o = when_set (err absent) (uint16_from_bytes u) (get code o)

  unfoldable pub broadcast_address : Dhcpv4 → Slice
  broadcast_address d = get_ip option_broadcast_address d.options

  unfoldable pub requested_ip_address : Dhcpv4 → Slice
  requested_ip_address d = get_ip option_requested_ip_address d.options

  unfoldable pub server_identifier : Dhcpv4 → Slice
  server_identifier d = get_ip option_server_identifier d.options

  unfoldable pub router : Dhcpv4 → List Slice
  router d = get_ips option_router d.options

  unfoldable pub ntp_servers : Dhcpv4 → List Slice
  ntp_servers d = get_ips option_ntp_servers d.options

  unfoldable pub dns : Dhcpv4 → List Slice
  dns d = get_ips option_domain_name_server d.options

  unfoldable pub client_arch : Dhcpv4 → List ℕ
  client_arch d =
      when_set [] (λ v. or_default [] (archs_from_bytes u v))
        (get option_client_system_architecture_type d.options)

  unfoldable pub ip_address_lease_time : ℕ → Dhcpv4 → ℕ
  ip_address_lease_time def d =
      when_set def (λ v. or_default def (duration_from_bytes u v))
        (get option_ip_address_lease_time d.options)

  unfoldable pub max_message_size : Dhcpv4 → Result Values.Error ℕ
  max_message_size d = get_uint16 option_maximum_dhcp_message_size d.options

  unfoldable pub message_type : Dhcpv4 → ℕ
  message_type d =
      when_set message_type_none (λ v. or_default message_type_none (message_type_from_bytes u v))
        (get option_dhcp_message_type d.options)

  unfoldable pub parameter_request_list : Dhcpv4 → List ℕ
  parameter_request_list d =
      when_set [] (λ v. or_default [] (codes_from_bytes u v))
        (get option_parameter_request_list d.options)

  -- `none` is the `nil` pointer.
  unfoldable pub relay_agent_info : Dhcpv4 → Option Options
  relay_agent_info d =
      when_set none (λ v. elim (relay_options_from_bytes u v) [ ok o ↦ some o | _ ↦ none ])
        (get option_relay_agent_information d.options)

  unfoldable pub subnet_mask : Dhcpv4 → Slice
  subnet_mask d =
      when_set none (λ v. or_default none (mask_from_bytes u v)) (get option_subnet_mask d.options)

  -- A value that is not a list of user classes is one user class.
  unfoldable pub user_class : Dhcpv4 → List Bytes
  unfolding get_string
  user_class d =
      when_set []
        (λ v.
          or_default (get_string option_user_class_information d.options ∷ [])
            (strings_from_bytes u v))
        (get option_user_class_information d.options)

  unfoldable pub vivc : Dhcpv4 → List VivcIdentifier
  vivc d =
      when_set [] (λ v. or_default [] (vivc_from_bytes u v))
        (get option_vendor_identifying_vendor_class d.options)

  unfoldable pub is_option_requested : ℕ → Dhcpv4 → Bool
  unfolding parameter_request_list codes_has
  is_option_requested code d = codes_has code (parameter_request_list d)
