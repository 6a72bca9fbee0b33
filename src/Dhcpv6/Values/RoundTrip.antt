-- ===== src/Dhcpv6/Values/RoundTrip.antt =====
-- dhcpv6/option_*.go: what `ToBytes` gives is parsed again, for the options that hold no other.
use dhcp.Prelude.{
  ℕ, suc, ◌<◌, ◌≡◌, ◌≢◌, refl, ap, ◌∙◌, false, List, [], ◌∷◌, ◌++◌, some, length, Bytes, Slice,
  elements, All, ok, arith, ==_ne, le→ltb,
}
use dhcp.Uio.{Uio}
use dhcp.Uio.Items.{encoding, finish}
use dhcp.Uio.Items.Loop.{each-encoding}
use dhcp.Uio.Items.Codec.{parse_items-encoding}
use dhcp.Uio.Words.{IsWord16, IsWord32, bytes16, bytes32, read16_bytes16, read32_bytes32}
use dhcp.Uio.Words.Items.{IsIpv6, IsChunk, chunk_bytes, word_item, chunk_item, ip_item}
use dhcp.Rfc1035label
use dhcp.Rfc1035label.RoundTrip.{original-from_bytes}
use dhcp.Dhcpv6.Duid
use dhcp.Dhcpv6.Duid.{Duid}
use dhcp.Dhcpv6.Duid.RoundTrip.{IsDuid, duid_from_bytes-to_bytes}
use dhcp.Dhcpv6.Options
use dhcp.Dhcpv6.Options.{from_bytes_with_parser}
use dhcp.Dhcpv6.Options.RoundTrip.{from_bytes_with_parser-to_bytes}
use dhcp.Dhcpv6.Options.Generic.{OptionGeneric, generic, generic-IsCodec}
use dhcp.Dhcpv6.Values.{
  Value, Error, client_id, server_id, requested_option, elapsed_time, status_code, user_class,
  vendor_class, vendor_opts, interface_id, dns_servers, domain_search, remote_id, boot_file_url,
  client_arch, network_interface, other, format, value_code, value_bytes, unread,
}
use dhcp.Dhcpv6.Values.Parse.{
  parse_value, parse_duid, parse_domain_search, parse_words, parse_elapsed_time, parse_status_code,
  parse_chunks, parse_user_class, vendor_data, parse_vendor_class, vendor_options,
  parse_vendor_opts, parse_dns_servers, parse_remote_id, parse_network_interface,
}
use dhcp.Dhcpv6.Values.Wire.{IsFields, wire, value_bytes-wire}

module _ (u : Uio) where
  open u use {Lexer, holds}

  -- All was read.
  pub finish_lem : {E A : Type 0} (e : E) (a : A) → finish u e a (holds [] false) ≡ ok a
  finish_lem e a = rw (u.fin_failed_law [] false)

  parse_duid_lem :
      (make : Duid → Value) (d : Duid)
      → IsDuid d
      → parse_duid u make (Duid.to_bytes d) ≡ ok (make d)
  unfolding parse_duid
  parse_duid_lem make d h = rw (duid_from_bytes-to_bytes d h, parse_duid) refl

  parse_words_lem : (cs : List ℕ) → All IsWord16 cs → parse_words u (encoding bytes16 cs) ≡ ok cs
  unfolding parse_words
  parse_words_lem cs h = parse_items-encoding u (word_item u) unread cs h

  parse_chunks_lem :
      (cs : List Bytes) → All IsChunk cs → parse_chunks u (encoding chunk_bytes cs) ≡ ok cs
  unfolding parse_chunks
  parse_chunks_lem cs h = parse_items-encoding u (chunk_item u) unread cs h

  parse_dns_servers_lem :
      (ns : List Slice) → All IsIpv6 ns → parse_dns_servers u (encoding elements ns) ≡ ok ns
  unfolding parse_dns_servers
  parse_dns_servers_lem ns h = parse_items-encoding u (ip_item u) unread ns h

  parse_domain_search_lem :
      (bs : Bytes) (l : Rfc1035label.Labels)
      → Rfc1035label.from_bytes bs ≡ ok l
      → parse_domain_search u bs ≡ ok (domain_search l)
  unfolding parse_domain_search
  parse_domain_search_lem bs l h = rw (h, parse_domain_search) refl

  parse_elapsed_time_lem :
      (t : ℕ) → IsWord16 t → parse_elapsed_time u (bytes16 t) ≡ ok (elapsed_time t)
  unfolding parse_elapsed_time
  parse_elapsed_time_lem t h =
      rw (u.new_law (bytes16 t), read16_bytes16 u t [] false h) (finish_lem unread (elapsed_time t))

  parse_status_code_lem :
      (c : ℕ) (m : Bytes) → IsWord16 c → parse_status_code u (bytes16 c ++ m) ≡ ok (status_code c m)
  unfolding parse_status_code
  parse_status_code_lem c m h =
      rw (u.new_law (bytes16 c ++ m), read16_bytes16 u c m false h, u.read_all_law m false)
        (finish_lem unread (status_code c m))

  parse_remote_id_lem :
      (n : ℕ) (i : Bytes) → IsWord32 n → parse_remote_id u (bytes32 n ++ i) ≡ ok (remote_id n i)
  unfolding parse_remote_id
  parse_remote_id_lem n i h =
      rw (u.new_law (bytes32 n ++ i), read32_bytes32 u n i false h, u.read_all_law i false)
        (finish_lem unread (remote_id n i))

  parse_network_interface_lem :
      (t j n : ℕ) → parse_network_interface u (t ∷ j ∷ n ∷ []) ≡ ok (network_interface t j n)
  unfolding parse_network_interface
  parse_network_interface_lem t j n =
      rw
        (
          u.new_law (t ∷ j ∷ n ∷ []),
          u.read8_cons t (j ∷ n ∷ []) false,
          u.read8_cons j (n ∷ []) false,
          u.read8_cons n [] false,
        )
        (finish_lem unread (network_interface t j n))

  chunks_set : (cs : List Bytes) → 0 < length cs → length (encoding chunk_bytes cs) ≢ 0
  chunks_set [] h = absurd (omega arith)
  chunks_set (c ∷ cs) h = λ p. absurd (omega arith)

  parse_user_class_lem :
      (cs : List Bytes)
      → 0 < length cs
      → All IsChunk cs
      → parse_user_class u (encoding chunk_bytes cs) ≡ ok (user_class cs)
  unfolding parse_user_class
  parse_user_class_lem cs set h =
      rw (==_ne (length (encoding chunk_bytes cs)) 0 (chunks_set cs set), parse_chunks_lem cs h)
        refl

  vendor_data_lem :
      (f n : ℕ) (ds : List Bytes)
      → 0 < length ds
      → All IsChunk ds
      → length (encoding chunk_bytes ds) < f
      → vendor_data u f n (holds (encoding chunk_bytes ds) false) ≡ ok (vendor_class n ds)
  unfolding vendor_data
  vendor_data_lem f n ds set h enough =
      rw
        (
          each-encoding u (chunk_item u {E = Error}) f [] ds false h enough,
          le→ltb (length ds) 1 (omega arith),
        )
        (finish_lem unread (vendor_class n ds))

  parse_vendor_class_lem :
      (n : ℕ) (ds : List Bytes)
      → IsWord32 n
      → 0 < length ds
      → All IsChunk ds
      → parse_vendor_class u (bytes32 n ++ encoding chunk_bytes ds) ≡ ok (vendor_class n ds)
  unfolding parse_vendor_class
  parse_vendor_class_lem n ds word set h =
      let bs = encoding chunk_bytes ds in
      rw (u.new_law (bytes32 n ++ bs), read32_bytes32 u n bs false word)
        (vendor_data_lem (suc (length (bytes32 n ++ bs))) n ds set h (omega arith))

  vendor_options_lem :
      (n : ℕ) (o : List OptionGeneric)
      → All generic-IsCodec.IsValid o
      → vendor_options u n (some (elements (Options.to_bytes generic u o))) (holds [] false)
        ≡ ok (vendor_opts n o)
  unfolding vendor_options
  vendor_options_lem n o h =
      rw (from_bytes_with_parser-to_bytes u generic generic-IsCodec o h, vendor_options)
        (finish_lem unread (vendor_opts n o))

  parse_vendor_opts_lem :
      (n : ℕ) (o : List OptionGeneric)
      → IsWord32 n
      → All generic-IsCodec.IsValid o
      → parse_vendor_opts u (bytes32 n ++ elements (Options.to_bytes generic u o))
        ≡ ok (vendor_opts n o)
  unfolding parse_vendor_opts
  parse_vendor_opts_lem n o word h =
      let bs = elements (Options.to_bytes generic u o) in
      rw (u.new_law (bytes32 n ++ bs), read32_bytes32 u n bs false word, u.read_all_law bs false)
        (vendor_options_lem n o h)

  parse_wire :
      (v : Value)
      → IsFields v
      → parse_value u (format (value_code v)) (value_code v) (wire u v) ≡ ok v
  unfolding parse_value value_code format
  parse_wire (client_id d) h = parse_duid_lem client_id d h
  parse_wire (server_id d) h = parse_duid_lem server_id d h
  parse_wire (requested_option cs) h = rw (parse_words_lem cs h) refl
  parse_wire (elapsed_time t) h = parse_elapsed_time_lem t h
  parse_wire (status_code c m) h = parse_status_code_lem c m h
  parse_wire (user_class cs) h = parse_user_class_lem cs h.0 h.1
  parse_wire (vendor_class n ds) h = parse_vendor_class_lem n ds h.0 h.1 h.2
  parse_wire (vendor_opts n o) h = parse_vendor_opts_lem n o h.0 h.1
  parse_wire (interface_id i) h = refl
  parse_wire (dns_servers ns) h = rw (parse_dns_servers_lem ns h) refl
  parse_wire (domain_search l) h =
      ap (λ (t : Slice). parse_domain_search u (elements t)) (original-from_bytes h.0 l h.1)
      ∙ parse_domain_search_lem h.0 l h.1
  parse_wire (remote_id n i) h = parse_remote_id_lem n i h
  parse_wire (boot_file_url b) h = refl
  parse_wire (client_arch as') h = rw (parse_words_lem as' h) refl
  parse_wire (network_interface t j n) h = parse_network_interface_lem t j n
  parse_wire (other c d) h = rw h.1 refl

  -- Each type of option is parsed to what was written, if its fields fit the wire.
  pub parse_value-value_bytes :
      (v : Value)
      → IsFields v
      → parse_value u (format (value_code v)) (value_code v) (value_bytes u v) ≡ ok v
  parse_value-value_bytes v h =
      ap (parse_value u (format (value_code v)) (value_code v)) (value_bytes-wire u v h)
      ∙ parse_wire v h
