-- ===== src/Dhcpv6/Values.antt =====
-- dhcpv6/option_*.go: the options that hold no other option of the message, and `ToBytes`.
pub mod Parse
pub mod Wire
pub mod RoundTrip
pub mod Termination
use dhcp.Prelude.{
  ℕ, suc, ◌≡◌, Bool, true, false, List, [], ◌∷◌, ◌++◌, ◌==◌, ◌||◌, if◌then◌else◌, length, Bytes,
  Slice, elements, Result, ok, err, fault, ◌>>=◌, ltb,
}
use dhcp.Uio.{Uio}
use dhcp.Uio.Items.{each, write_each, finish}
use dhcp.Uio.Words.Items.{read_word, read_ip, write_ip, read_chunk, write_chunk}
use dhcp.Rfc1035label
use dhcp.Rfc1035label.{Labels}
use dhcp.Dhcpv6.Duid
use dhcp.Dhcpv6.Duid.{Duid, duid_from_bytes}
use dhcp.Dhcpv6.Options
use dhcp.Dhcpv6.Options.{from_bytes_with_parser}
use dhcp.Dhcpv6.Options.Generic.{OptionGeneric, generic}

-- The cases of the switch of `ParseOption`.
pub data Format : Type 0 where
  as_client_id as_server_id as_ia_na as_ia_address as_requested_option as_elapsed_time : Format
  as_relay_msg as_status_code as_user_class as_vendor_class as_vendor_opts : Format
  as_interface_id as_dns_servers as_domain_search as_ia_pd as_ia_prefix as_remote_id : Format
  as_boot_file_url as_client_arch as_network_interface as_generic : Format

unfoldable pub format : ℕ → Format
format code =
    if code == 1
    then as_client_id
    else if code == 2
    then as_server_id
    else if code == 3
    then as_ia_na
    else if code == 5
    then as_ia_address
    else if code == 6
    then as_requested_option
    else if code == 8
    then as_elapsed_time
    else if code == 9
    then as_relay_msg
    else if code == 13
    then as_status_code
    else if code == 15
    then as_user_class
    else if code == 16
    then as_vendor_class
    else if code == 17
    then as_vendor_opts
    else if code == 18
    then as_interface_id
    else if code == 23
    then as_dns_servers
    else if code == 24
    then as_domain_search
    else if code == 25
    then as_ia_pd
    else if code == 26
    then as_ia_prefix
    else if code == 37
    then as_remote_id
    else if code == 59
    then as_boot_file_url
    else if code == 61
    then as_client_arch
    else if code == 62
    then as_network_interface
    else as_generic

pub data Value : Type 0 where
  client_id : Duid → Value
  server_id : Duid → Value
  requested_option : List ℕ → Value
  elapsed_time : ℕ → Value
  status_code : ℕ → Bytes → Value
  user_class : List Bytes → Value
  vendor_class : ℕ → List Bytes → Value
  vendor_opts : ℕ → List OptionGeneric → Value
  interface_id : Bytes → Value
  dns_servers : List Slice → Value
  domain_search : Labels → Value
  remote_id : ℕ → Bytes → Value
  boot_file_url : Bytes → Value
  client_arch : List ℕ → Value
  network_interface : ℕ → ℕ → ℕ → Value
  other : ℕ → Bytes → Value

pub data Error : Type 0 where
  unread wrong_type empty_user_class no_vendor_data : Error
  bad_duid : Duid.Error → Error
  bad_labels : Rfc1035label.Error → Error

unfoldable pub value_code : Value → ℕ
value_code (client_id d) = 1
value_code (server_id d) = 2
value_code (requested_option cs) = 6
value_code (elapsed_time t) = 8
value_code (status_code c m) = 13
value_code (user_class cs) = 15
value_code (vendor_class n ds) = 16
value_code (vendor_opts n o) = 17
value_code (interface_id i) = 18
value_code (dns_servers ns) = 23
value_code (domain_search l) = 24
value_code (remote_id n i) = 37
value_code (boot_file_url b) = 59
value_code (client_arch as') = 61
value_code (network_interface t j n) = 62
value_code (other c d) = c

module _ (u : Uio) where
  open u use {Lexer}

  -- `NewBigEndianBuffer(nil)`, what is written to it, and `Data`.
  abbrev pub written : (Lexer → Lexer) → Bytes
  written f = elements (u.contents (f (u.new [])))

  -- `ToBytes` of each type. Those of one number, and of bytes as they are, stand in `value_bytes`.
  abbrev pub requested_option_bytes : List ℕ → Bytes
  requested_option_bytes codes = written (write_each u u.write16 codes)

  abbrev pub client_arch_bytes : List ℕ → Bytes
  client_arch_bytes archs = written (write_each u u.write16 archs)

  abbrev pub elapsed_time_bytes : ℕ → Bytes
  elapsed_time_bytes t = written (u.write16 t)

  abbrev pub status_code_bytes : ℕ → Bytes → Bytes
  status_code_bytes code text = written (λ b. u.write_bytes text (u.write16 code b))

  abbrev pub user_class_bytes : List Bytes → Bytes
  user_class_bytes classes = written (write_each u (write_chunk u) classes)

  abbrev pub vendor_class_bytes : ℕ → List Bytes → Bytes
  vendor_class_bytes n ds = written (λ b. write_each u (write_chunk u) ds (u.write32 n b))

  abbrev pub vendor_opts_bytes : ℕ → List OptionGeneric → Bytes
  vendor_opts_bytes n o =
      written (λ b. u.write_bytes (elements (Options.to_bytes generic u o)) (u.write32 n b))

  abbrev pub dns_servers_bytes : List Slice → Bytes
  dns_servers_bytes servers = written (write_each u (write_ip u) servers)

  abbrev pub remote_id_bytes : ℕ → Bytes → Bytes
  remote_id_bytes n i = written (λ b. u.write_bytes i (u.write32 n b))

  abbrev pub network_interface_bytes : ℕ → ℕ → ℕ → Bytes
  network_interface_bytes t j n = written (λ b. u.write8 n (u.write8 j (u.write8 t b)))

  unfoldable pub value_bytes : Value → Bytes
  value_bytes (client_id d) = Duid.to_bytes d
  value_bytes (server_id d) = Duid.to_bytes d
  value_bytes (requested_option cs) = requested_option_bytes cs
  value_bytes (elapsed_time t) = elapsed_time_bytes t
  value_bytes (status_code c m) = status_code_bytes c m
  value_bytes (user_class cs) = user_class_bytes cs
  value_bytes (vendor_class n ds) = vendor_class_bytes n ds
  value_bytes (vendor_opts n o) = vendor_opts_bytes n o
  value_bytes (interface_id i) = i
  value_bytes (dns_servers ns) = dns_servers_bytes ns
  value_bytes (domain_search l) = elements (Rfc1035label.to_bytes l)
  value_bytes (remote_id n i) = remote_id_bytes n i
  value_bytes (boot_file_url b) = b
  value_bytes (client_arch as') = client_arch_bytes as'
  value_bytes (network_interface t j n) = network_interface_bytes t j n
  value_bytes (other c d) = d
