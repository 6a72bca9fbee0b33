-- ===== src/Dhcpv6/Values/Parse.antt =====
-- dhcpv6/option_*.go: the parsers of the options that hold no other option of the message. Where
-- parsing fails, the value that is given back besides the error is not kept.
use dhcp.Prelude.{
  ℕ, suc, List, [], ◌==◌, if◌then◌else◌, length, Bytes, Slice, elements, Result, ok, err, ◌>>=◌,
  map_err, ltb,
}
use dhcp.Uio.{Uio}
use dhcp.Uio.Items.{each, finish}
use dhcp.Uio.Words.Items.{read_word, read_ip, read_chunk}
use dhcp.Rfc1035label
use dhcp.Rfc1035label.{Labels}
use dhcp.Dhcpv6.Duid.{Duid, duid_from_bytes}
use dhcp.Dhcpv6.Options.{from_bytes_with_parser}
use dhcp.Dhcpv6.Options.Generic.{generic}
use dhcp.Dhcpv6.Values.{
  Value, Format, Error, client_id, server_id, requested_option, elapsed_time, status_code,
  user_class, vendor_class, vendor_opts, interface_id, dns_servers, domain_search, remote_id,
  boot_file_url, client_arch, network_interface, other, unread, empty_user_class, no_vendor_data,
  bad_duid, bad_labels, as_client_id, as_server_id, as_requested_option, as_elapsed_time,
  as_status_code, as_user_class, as_vendor_class, as_vendor_opts, as_interface_id, as_dns_servers,
  as_domain_search, as_remote_id, as_boot_file_url, as_client_arch, as_network_interface,
}

module _ (u : Uio) where
  open u use {Lexer}

  -- `ParseOptClientId` and `ParseOptServerId`.
  unfoldable pub parse_duid : (Duid → Value) → Bytes → Result Error Value
  parse_duid make bs = map_err bad_duid (duid_from_bytes bs) >>= λ d. ok (make d)

  unfoldable pub parse_domain_search : Bytes → Result Error Value
  parse_domain_search bs =
      map_err bad_labels (Rfc1035label.from_bytes bs) >>= λ l. ok (domain_search l)

  -- `ParseOptRequestedOption` and `ParseOptClientArchType`.
  unfoldable pub parse_words : Bytes → Result Error (List ℕ)
  parse_words bs =
      each u 2 (read_word u) (suc (length bs)) [] (u.new bs) >>= λ r. finish u unread r.0 r.1

  unfoldable pub parse_elapsed_time : Bytes → Result Error Value
  parse_elapsed_time bs = let (t, b) = u.read16 (u.new bs) in finish u unread (elapsed_time t) b

  unfoldable pub parse_status_code : Bytes → Result Error Value
  parse_status_code bs =
      let (c, b₁) = u.read16 (u.new bs) in
      let (m, b₂) = u.read_all b₁ in finish u unread (status_code c (elements m)) b₂

  unfoldable pub parse_chunks : Bytes → Result Error (List Bytes)
  parse_chunks bs =
      each u 2 (read_chunk u) (suc (length bs)) [] (u.new bs) >>= λ r. finish u unread r.0 r.1

  unfoldable pub parse_user_class : Bytes → Result Error Value
  unfolding parse_chunks
  parse_user_class bs =
      let parsed = parse_chunks bs >>= λ cs. ok (user_class cs) in
      if length bs == 0 then err empty_user_class else parsed

  -- The rest of `ParseOptVendorClass`, behind the enterprise number. No round has more than what
  -- is left of the option, so the length of the option is fuel enough.
  unfoldable pub vendor_data : ℕ → ℕ → Lexer → Result Error Value
  vendor_data fuel n b = each u 2 (read_chunk u) fuel [] b >>= λ r.
      let read = finish u unread (vendor_class n r.0) r.1 in
      if ltb (length r.0) 1 then err no_vendor_data else read

  unfoldable pub parse_vendor_class : Bytes → Result Error Value
  unfolding vendor_data
  parse_vendor_class bs = let (n, b) = u.read32 (u.new bs) in vendor_data (suc (length bs)) n b

  -- The rest of `ParseOptVendorOpts`, behind the enterprise number.
  unfoldable pub vendor_options : ℕ → Slice → Lexer → Result Error Value
  vendor_options n rest b =
      map_err (λ _. unread) (from_bytes_with_parser generic u (elements rest)) >>= λ o.
      finish u unread (vendor_opts n o) b

  unfoldable pub parse_vendor_opts : Bytes → Result Error Value
  unfolding vendor_options
  parse_vendor_opts bs =
      let (n, b₁) = u.read32 (u.new bs) in
      let (rest, b₂) = u.read_all b₁ in vendor_options n rest b₂

  unfoldable pub parse_dns_servers : Bytes → Result Error (List Slice)
  parse_dns_servers bs =
      each u 16 (read_ip u) (suc (length bs)) [] (u.new bs) >>= λ r. finish u unread r.0 r.1

  unfoldable pub parse_remote_id : Bytes → Result Error Value
  parse_remote_id bs =
      let (n, b₁) = u.read32 (u.new bs) in
      let (i, b₂) = u.read_all b₁ in finish u unread (remote_id n (elements i)) b₂

  unfoldable pub parse_network_interface : Bytes → Result Error Value
  parse_network_interface bs =
      let (t, b₁) = u.read8 (u.new bs) in
      let (j, b₂) = u.read8 b₁ in
      let (n, b₃) = u.read8 b₂ in finish u unread (network_interface t j n) b₃

  -- `ParseOption` on the formats of this module; `dhcpv6.ParseOption` has the others itself.
  unfoldable pub parse_value : Format → ℕ → Bytes → Result Error Value
  parse_value as_client_id c bs = parse_duid client_id bs
  parse_value as_server_id c bs = parse_duid server_id bs
  parse_value as_requested_option c bs = parse_words bs >>= λ cs. ok (requested_option cs)
  parse_value as_elapsed_time c bs = parse_elapsed_time bs
  parse_value as_status_code c bs = parse_status_code bs
  parse_value as_user_class c bs = parse_user_class bs
  parse_value as_vendor_class c bs = parse_vendor_class bs
  parse_value as_vendor_opts c bs = parse_vendor_opts bs
  parse_value as_interface_id c bs = ok (interface_id bs)
  parse_value as_dns_servers c bs = parse_dns_servers bs >>= λ ns. ok (dns_servers ns)
  parse_value as_domain_search c bs = parse_domain_search bs
  parse_value as_remote_id c bs = parse_remote_id bs
  parse_value as_boot_file_url c bs = ok (boot_file_url bs)
  parse_value as_client_arch c bs = parse_words bs >>= λ as'. ok (client_arch as')
  parse_value as_network_interface c bs = parse_network_interface bs
  parse_value _ c bs = ok (other c bs)
