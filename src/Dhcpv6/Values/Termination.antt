-- ===== src/Dhcpv6/Values/Termination.antt =====
-- dhcpv6/option_*.go: parsing an option that holds no other ends, without a panic.
use dhcp.Prelude.{
  ℕ, suc, ◌≢◌, [], Bytes, Slice, elements, ok, err, fault, Fault, ◌>>=◌, >>=-ne-fault, map_err,
  map_err-ne-fault, if-ne-fault, some, arith, ltb, ◌==◌, length, if◌then◌else◌,
}
use dhcp.Uio.{Uio}
use dhcp.Uio.Items.{finish, each}
use dhcp.Uio.Items.Loop.{each-ne-fault}
use dhcp.Uio.Items.Codec.{parse_items-ne-fault, finish-ne-fault}
use dhcp.Uio.Remains.{Remains, new-Remains, read32-Remains}
use dhcp.Uio.Words.Items.{word_item, chunk_item, ip_item, word-Ends, chunk-Ends, ip-Ends}
use dhcp.Rfc1035label
use dhcp.Rfc1035label.{labels_from_bytes}
use dhcp.Rfc1035label.Termination.{labels_from_bytes-ne-fault}
use dhcp.Dhcpv6.Duid.{Duid, duid_from_bytes}
use dhcp.Dhcpv6.Duid.Termination.{duid_from_bytes-ne-fault}
use dhcp.Dhcpv6.Options.{from_bytes_with_parser}
use dhcp.Dhcpv6.Options.Generic.{generic, generic-IsCodec, generic-Stops}
use dhcp.Dhcpv6.Options.Termination.{from_bytes_with_parser-ne-fault}
use dhcp.Dhcpv6.Values.{
  Value, Format, Error, user_class, vendor_class, vendor_opts, requested_option, dns_servers,
  client_arch, client_id, server_id, as_client_id, as_server_id, as_requested_option,
  as_elapsed_time, as_status_code, as_user_class, as_vendor_class, as_vendor_opts, as_interface_id,
  as_dns_servers, as_domain_search, as_remote_id, as_boot_file_url, as_client_arch,
  as_network_interface, unread, empty_user_class, no_vendor_data,
}
use dhcp.Dhcpv6.Values.Parse.{
  parse_value, parse_duid, parse_domain_search, parse_words, parse_elapsed_time, parse_status_code,
  parse_chunks, parse_user_class, vendor_data, parse_vendor_class, vendor_options,
  parse_vendor_opts, parse_dns_servers, parse_remote_id, parse_network_interface,
}

from_bytes-ne-fault : (bs : Bytes) (x : Fault) → Rfc1035label.from_bytes bs ≢ fault x
unfolding Rfc1035label.from_bytes
from_bytes-ne-fault bs x =
    >>=-ne-fault (labels_from_bytes bs) (λ l. ok (record { original = some bs; labels = l })) x
      (labels_from_bytes-ne-fault bs) (λ l p. cc)

module _ (u : Uio) (bs : Bytes) where
  parse_words-ne-fault : (x : Fault) → parse_words u bs ≢ fault x
  unfolding parse_words
  parse_words-ne-fault x =
      parse_items-ne-fault u (word_item u) unread bs x (word-Ends u (length bs))

  parse_chunks-ne-fault : (x : Fault) → parse_chunks u bs ≢ fault x
  unfolding parse_chunks
  parse_chunks-ne-fault x =
      parse_items-ne-fault u (chunk_item u) unread bs x (chunk-Ends u (length bs))

  parse_dns_servers-ne-fault : (x : Fault) → parse_dns_servers u bs ≢ fault x
  unfolding parse_dns_servers
  parse_dns_servers-ne-fault x =
      parse_items-ne-fault u (ip_item u) unread bs x (ip-Ends u (length bs))

module _ (u : Uio) (bs : Bytes) (x : Fault) where
  open u use {Lexer, holds}

  finish-ne : {A : Type 0} (a : A) (b : Lexer) → finish u Error.unread a b ≢ fault x
  finish-ne a b = finish-ne-fault Error.unread a x (u.fin_failed b)

  parse_duid-ne-fault : (make : Duid → Value) → parse_duid u make bs ≢ fault x
  unfolding parse_duid
  parse_duid-ne-fault make =
      >>=-ne-fault (map_err Error.bad_duid (duid_from_bytes bs)) (λ d. ok (make d)) x
        (λ y.
          map_err-ne-fault Error.bad_duid (duid_from_bytes bs) y (duid_from_bytes-ne-fault bs y))
        (λ d p. cc)

  parse_domain_search-ne-fault : parse_domain_search u bs ≢ fault x
  unfolding parse_domain_search
  parse_domain_search-ne-fault =
      >>=-ne-fault (map_err Error.bad_labels (Rfc1035label.from_bytes bs))
        (λ l. ok (Value.domain_search l)) x
        (λ y.
          map_err-ne-fault Error.bad_labels (Rfc1035label.from_bytes bs) y
            (from_bytes-ne-fault bs y))
        (λ l p. cc)

  vendor_data-ne-fault :
      (n : ℕ) (b : Lexer) → Remains u (length bs) b → vendor_data u (suc (length bs)) n b ≢ fault x
  unfolding vendor_data
  vendor_data-ne-fault n b r =
      let i = chunk_item u {E = Error} in
      let f = suc (length bs) in
      let le = r.rest-le in
      >>=-ne-fault (each u i.need i.read f [] b)
        (λ q.
          if ltb (length q.0) 1
          then err no_vendor_data
          else finish u unread (vendor_class n q.0) q.1)
        x
        (λ y. rw r.left (
          each-ne-fault u i (length bs) (chunk-Ends u (length bs)) f [] r.rest r.failed y le
            (omega arith)))
        (λ q.
          if-ne-fault (ltb (length q.0) 1) no_vendor_data _ x (finish-ne (vendor_class n q.0) q.1))

  vendor_options-ne-fault : (n : ℕ) (rest : Slice) (b : Lexer) → vendor_options u n rest b ≢ fault x
  unfolding vendor_options
  vendor_options-ne-fault n rest b =
      let r = from_bytes_with_parser generic u (elements rest) in
      >>=-ne-fault (map_err (λ _. unread) r) (λ o. finish u unread (vendor_opts n o) b) x
        (λ y.
          map_err-ne-fault (λ _. unread) r y
            (from_bytes_with_parser-ne-fault u generic generic-IsCodec (elements rest) y
              (generic-Stops (length (elements rest)))))
        (λ o. finish-ne (vendor_opts n o) b)

  parse_vendor_class-ne-fault : parse_vendor_class u bs ≢ fault x
  unfolding parse_vendor_class
  parse_vendor_class-ne-fault =
      let n = length bs in
      let b = u.read32 (u.new bs) in
      vendor_data-ne-fault b.0 b.1
        (read32-Remains u n (u.new bs) (new-Remains u n bs (omega arith)))

  parse_user_class-ne-fault : parse_user_class u bs ≢ fault x
  unfolding parse_user_class
  parse_user_class-ne-fault =
      if-ne-fault (length bs == 0) empty_user_class (parse_chunks u bs >>= λ cs. ok (user_class cs))
        x
        (>>=-ne-fault (parse_chunks u bs) (λ cs. ok (user_class cs)) x (parse_chunks-ne-fault u bs)
          (λ cs p. cc))

  elapsed_time-ne-fault : parse_elapsed_time u bs ≢ fault x
  unfolding parse_elapsed_time
  elapsed_time-ne-fault = finish-ne _ _

  status_code-ne-fault : parse_status_code u bs ≢ fault x
  unfolding parse_status_code
  status_code-ne-fault = finish-ne _ _

  vendor_opts-ne-fault : parse_vendor_opts u bs ≢ fault x
  unfolding parse_vendor_opts
  vendor_opts-ne-fault =
      let named = u.read32 (u.new bs) in
      let rest = u.read_all named.1 in vendor_options-ne-fault named.0 rest.0 rest.1

  remote_id-ne-fault : parse_remote_id u bs ≢ fault x
  unfolding parse_remote_id
  remote_id-ne-fault = finish-ne _ _

  network_interface-ne-fault : parse_network_interface u bs ≢ fault x
  unfolding parse_network_interface
  network_interface-ne-fault = finish-ne _ _

module _ (u : Uio) (bs : Bytes) where
  -- Every option that holds no other is parsed to an end.
  pub parse_value-ne-fault : (f : Format) (c : ℕ) (x : Fault) → parse_value u f c bs ≢ fault x
  unfolding parse_value
  parse_value-ne-fault as_client_id c x = parse_duid-ne-fault u bs x client_id
  parse_value-ne-fault as_server_id c x = parse_duid-ne-fault u bs x server_id
  parse_value-ne-fault as_requested_option c x =
      >>=-ne-fault (parse_words u bs) (λ cs. ok (requested_option cs)) x (parse_words-ne-fault u bs)
        (λ cs p. cc)
  parse_value-ne-fault as_elapsed_time c x = elapsed_time-ne-fault u bs x
  parse_value-ne-fault as_status_code c x = status_code-ne-fault u bs x
  parse_value-ne-fault as_user_class c x = parse_user_class-ne-fault u bs x
  parse_value-ne-fault as_vendor_class c x = parse_vendor_class-ne-fault u bs x
  parse_value-ne-fault as_vendor_opts c x = vendor_opts-ne-fault u bs x
  parse_value-ne-fault as_interface_id c x = λ p. cc
  parse_value-ne-fault as_dns_servers c x =
      >>=-ne-fault (parse_dns_servers u bs) (λ ns. ok (dns_servers ns)) x
        (parse_dns_servers-ne-fault u bs) (λ ns p. cc)
  parse_value-ne-fault as_domain_search c x = parse_domain_search-ne-fault u bs x
  parse_value-ne-fault as_remote_id c x = remote_id-ne-fault u bs x
  parse_value-ne-fault as_boot_file_url c x = λ p. cc
  parse_value-ne-fault as_client_arch c x =
      >>=-ne-fault (parse_words u bs) (λ as'. ok (client_arch as')) x (parse_words-ne-fault u bs)
        (λ as' p. cc)
  parse_value-ne-fault as_network_interface c x = network_interface-ne-fault u bs x
  parse_value-ne-fault _ c x = λ p. cc
