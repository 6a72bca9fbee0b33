-- ===== src/Dhcpv6/Values/Wire.antt =====
-- dhcpv6/option_*.go: the values that the wire can carry, and their bytes.
use dhcp.Prelude.{
  ℕ, ◌<◌, ◌%◌, ◌≡◌, refl, ap, ◌∙◌, false, [], ◌∷◌, ◌++◌, length, Bytes, elements, All, IsByte, ok,
  arith,
}
use dhcp.Uio.{Uio}
use dhcp.Uio.Items.{encoding, write_each}
use dhcp.Uio.Items.Loop.{write_each-encoding}
use dhcp.Uio.Words.{IsWord16, IsWord32, bytes16, bytes32}
use dhcp.Uio.Words.Items.{
  IsIpv6, IsChunk, chunk_bytes, word_item, chunk_item, ip_item, write_chunk, write_ip,
}
use dhcp.Rfc1035label
use dhcp.Rfc1035label.RoundTrip.{to_bytes-parsed}
use dhcp.Dhcpv6.Duid
use dhcp.Dhcpv6.Duid.RoundTrip.{IsDuid}
use dhcp.Dhcpv6.Options
use dhcp.Dhcpv6.Options.Generic.{generic, generic-IsCodec}
use dhcp.Dhcpv6.Values.{
  Value, Error, client_id, server_id, requested_option, elapsed_time, status_code, user_class,
  vendor_class, vendor_opts, interface_id, dns_servers, domain_search, remote_id, boot_file_url,
  client_arch, network_interface, other, format, as_generic, value_bytes, written,
}

-- Numbers fit their fields, the classes are not empty, labels are as they were parsed, and an
-- option of no known type has none of the known codes.
abbrev pub IsFields : Value → Type 0
IsFields (client_id d) = IsDuid d
IsFields (server_id d) = IsDuid d
IsFields (requested_option cs) = All IsWord16 cs
IsFields (elapsed_time t) = IsWord16 t
IsFields (status_code c m) = IsWord16 c
IsFields (user_class cs) = (0 < length cs) × All IsChunk cs
IsFields (vendor_class n ds) = IsWord32 n × (0 < length ds) × All IsChunk ds
IsFields (vendor_opts n o) = IsWord32 n × All generic-IsCodec.IsValid o
IsFields (interface_id i) = Unit
IsFields (dns_servers ns) = All IsIpv6 ns
IsFields (domain_search l) = (bs : Bytes) × (Rfc1035label.from_bytes bs ≡ ok l)
IsFields (remote_id n i) = IsWord32 n
IsFields (boot_file_url b) = Unit
IsFields (client_arch as') = All IsWord16 as'
IsFields (network_interface t j n) = IsByte t × IsByte j × IsByte n
IsFields (other c d) = IsWord16 c × (format c ≡ as_generic)

module _ (u : Uio) where
  open u use {Lexer, holds}

  abbrev pub wire : Value → Bytes
  wire (client_id d) = Duid.to_bytes d
  wire (server_id d) = Duid.to_bytes d
  wire (requested_option cs) = encoding bytes16 cs
  wire (elapsed_time t) = bytes16 t
  wire (status_code c m) = bytes16 c ++ m
  wire (user_class cs) = encoding chunk_bytes cs
  wire (vendor_class n ds) = bytes32 n ++ encoding chunk_bytes ds
  wire (vendor_opts n o) = bytes32 n ++ elements (Options.to_bytes generic u o)
  wire (interface_id i) = i
  wire (dns_servers ns) = encoding elements ns
  wire (domain_search l) = elements l.original
  wire (remote_id n i) = bytes32 n ++ i
  wire (boot_file_url b) = b
  wire (client_arch as') = encoding bytes16 as'
  wire (network_interface t j n) = t ∷ j ∷ n ∷ []
  wire (other c d) = d

  pub written_lem :
      (f : Lexer → Lexer) (bs : Bytes) → f (holds [] false) ≡ holds bs false → written u f ≡ bs
  written_lem f bs h =
      ap (λ (b : Lexer). elements (u.contents (f b))) (u.new_law [])
      ∙ ap (λ (b : Lexer). elements (u.contents b)) h
      ∙ u.contents_law bs false

  pub write8_byte :
      (v : ℕ) (bs : Bytes) → IsByte v → u.write8 v (holds bs false) ≡ holds (bs ++ v ∷ []) false
  write8_byte v bs h = let same : v % 256 ≡ v = omega arith in u.write8_law v bs false ∙ rw same

  -- A number of 32 bits and the bytes behind it.
  pub write32_bytes :
      (n : ℕ) (d : Bytes)
      → u.write_bytes d (u.write32 n (holds [] false)) ≡ holds (bytes32 n ++ d) false
  write32_bytes n d =
      ap (u.write_bytes d) (u.write32_law n [] false) ∙ u.write_bytes_law d (bytes32 n) false

  pub value_bytes-wire : (v : Value) → IsFields v → value_bytes u v ≡ wire v
  unfolding value_bytes
  value_bytes-wire (client_id d) h = refl
  value_bytes-wire (server_id d) h = refl
  value_bytes-wire (requested_option cs) h =
      written_lem (write_each u u.write16 cs) _
        (write_each-encoding u (word_item u {E = Error}) cs [] false h)
  value_bytes-wire (elapsed_time t) h = written_lem (u.write16 t) _ (u.write16_law t [] false)
  value_bytes-wire (status_code c m) h =
      written_lem (λ b. u.write_bytes m (u.write16 c b)) _
        (ap (u.write_bytes m) (u.write16_law c [] false) ∙ u.write_bytes_law m (bytes16 c) false)
  value_bytes-wire (user_class cs) h =
      written_lem (write_each u (write_chunk u) cs) _
        (write_each-encoding u (chunk_item u {E = Error}) cs [] false h.1)
  value_bytes-wire (vendor_class n ds) h =
      let i = chunk_item u {E = Error} in
      written_lem (λ b. write_each u (write_chunk u) ds (u.write32 n b)) _
        (ap (write_each u i.write ds) (u.write32_law n [] false)
          ∙ write_each-encoding u i ds (bytes32 n) false h.2)
  value_bytes-wire (vendor_opts n o) h =
      written_lem (λ b. u.write_bytes (elements (Options.to_bytes generic u o)) (u.write32 n b)) _
        (write32_bytes n (elements (Options.to_bytes generic u o)))
  value_bytes-wire (interface_id i) h = refl
  value_bytes-wire (dns_servers ns) h =
      written_lem (write_each u (write_ip u) ns) _
        (write_each-encoding u (ip_item u {E = Error}) ns [] false h)
  value_bytes-wire (domain_search l) h = ap elements (to_bytes-parsed h.0 l h.1)
  value_bytes-wire (remote_id n i) h =
      written_lem (λ b. u.write_bytes i (u.write32 n b)) _ (write32_bytes n i)
  value_bytes-wire (boot_file_url b) h = refl
  value_bytes-wire (client_arch as') h =
      written_lem (write_each u u.write16 as') _
        (write_each-encoding u (word_item u {E = Error}) as' [] false h)
  value_bytes-wire (network_interface t j n) h =
      written_lem (λ b. u.write8 n (u.write8 j (u.write8 t b))) _
        (ap (λ b. u.write8 n (u.write8 j b)) (write8_byte t [] h.0)
          ∙ ap (u.write8 n) (write8_byte j (t ∷ []) h.1)
          ∙ write8_byte n (t ∷ j ∷ []) h.2)
  value_bytes-wire (other c d) h = refl
