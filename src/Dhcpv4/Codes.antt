-- ===== src/Dhcpv4/Codes.antt =====
-- dhcpv4/types.go and iana/hwtypes.go: the codes that the rest of the package names. An option
-- code is a number; what the interface `OptionCode` adds is how it is printed.
use dhcp.Prelude.{ℕ}

abbrev pub message_type_none : ℕ
message_type_none = 0

abbrev pub message_type_discover : ℕ
message_type_discover = 1

abbrev pub message_type_offer : ℕ
message_type_offer = 2

abbrev pub message_type_request : ℕ
message_type_request = 3

abbrev pub message_type_ack : ℕ
message_type_ack = 5

abbrev pub message_type_inform : ℕ
message_type_inform = 8

abbrev pub opcode_boot_request : ℕ
opcode_boot_request = 1

abbrev pub opcode_boot_reply : ℕ
opcode_boot_reply = 2

abbrev pub hw_type_ethernet : ℕ
hw_type_ethernet = 1

abbrev pub option_subnet_mask : ℕ
option_subnet_mask = 1

abbrev pub option_router : ℕ
option_router = 3

abbrev pub option_domain_name_server : ℕ
option_domain_name_server = 6

abbrev pub option_host_name : ℕ
option_host_name = 12

abbrev pub option_domain_name : ℕ
option_domain_name = 15

abbrev pub option_root_path : ℕ
option_root_path = 17

abbrev pub option_broadcast_address : ℕ
option_broadcast_address = 28

abbrev pub option_ntp_servers : ℕ
option_ntp_servers = 42

abbrev pub option_requested_ip_address : ℕ
option_requested_ip_address = 50

abbrev pub option_ip_address_lease_time : ℕ
option_ip_address_lease_time = 51

abbrev pub option_dhcp_message_type : ℕ
option_dhcp_message_type = 53

abbrev pub option_server_identifier : ℕ
option_server_identifier = 54

abbrev pub option_parameter_request_list : ℕ
option_parameter_request_list = 55

abbrev pub option_maximum_dhcp_message_size : ℕ
option_maximum_dhcp_message_size = 57

abbrev pub option_class_identifier : ℕ
option_class_identifier = 60

abbrev pub option_tftp_server_name : ℕ
option_tftp_server_name = 66

abbrev pub option_bootfile_name : ℕ
option_bootfile_name = 67

abbrev pub option_user_class_information : ℕ
option_user_class_information = 77

abbrev pub option_relay_agent_information : ℕ
option_relay_agent_information = 82

abbrev pub option_client_system_architecture_type : ℕ
option_client_system_architecture_type = 93

abbrev pub option_dns_domain_search_list : ℕ
option_dns_domain_search_list = 119

abbrev pub option_vendor_identifying_vendor_class : ℕ
option_vendor_identifying_vendor_class = 124

abbrev pub option_end : ℕ
option_end = 255
