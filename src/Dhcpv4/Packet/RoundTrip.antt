-- ===== src/Dhcpv4/Packet/RoundTrip.antt =====
-- dhcpv4/dhcpv4.go: `FromBytes` on what `ToBytes` writes.
use dhcp.Prelude.{
  ℕ, zero, suc, ◌+◌, ◌-◌, ◌*◌, ◌/◌, ◌%◌, ◌≤◌, ◌<◌, ◌≡◌, ◌≢◌, refl, ap, Bool, true, false, [], ◌∷◌,
  ◌++◌, some, none, ltb, leb, if◌then◌else◌, length, take, replicate, Bytes, Slice, elements, ok,
  arith, All, le→ltb, length-append, length-replicate, take-length-append, ==_ne,
}
use dhcp.Uio.{Uio}
use dhcp.Uio.Reads.{read_bytes_append, copy_n_append}
use dhcp.Dhcpv4.Options
use dhcp.Dhcpv4.Options.{empty, sorted_keys, from_bytes_check_end}
use dhcp.Dhcpv4.Options.Encode.{wire, entries}
use dhcp.Dhcpv4.Options.RoundTrip.{IsCarried, from_bytes_check_end-to_bytes, to_bytes-wire}
use dhcp.Dhcpv4.Values.Items.{IsIpv4}
use dhcp.Dhcpv4.Packet.{
  Dhcpv4, magic_cookie, until_nul, fixed_part, to_bytes, from_bytes, finish_packet,
}
use dhcp.Dhcpv4.Packet.Layout.{IsWire, padded, layout, to_bytes-layout}

until_nul-replicate : (n : ℕ) → until_nul (replicate n 0) ≡ []
unfolding until_nul
until_nul-replicate zero = refl
until_nul-replicate (suc n) = refl

until_nul-append :
    (text : Bytes) (n : ℕ) → All (λ b. b ≢ 0) text → until_nul (text ++ replicate n 0) ≡ text
unfolding until_nul
until_nul-append [] n w = until_nul-replicate n
until_nul-append (b ∷ text) n (h, w) = rw (==_ne b 0 h) (ap (◌∷◌ b) (until_nul-append text n w))

length-padded : (n : ℕ) (text : Bytes) → length text ≤ n → length (padded n text) ≡ n
length-padded n text h = omega (
  arith,
  length-append text (replicate (n - length text) 0),
  length-replicate {A = ℕ} (n - length text) 0,
)

hw_addr_used :
    (hw : Bytes)
    → length hw ≤ 16
    → take (if ltb 16 (length hw) then 16 else length hw) (padded 16 hw) ≡ hw
hw_addr_used hw h =
    rw (le→ltb 16 (length hw) h, take-length-append hw (replicate (16 - length hw) 0))

word : (n : ℕ) → n < 65536 → n / 256 % 256 * 256 + n % 256 ≡ n
word n h = omega arith

some-elements : (s : Slice) → IsIpv4 s → some (elements s) ≡ s
some-elements none h = absurd h
some-elements (some x) h = refl

length-elements : (s : Slice) → IsIpv4 s → length (elements s) ≡ 4
length-elements none h = absurd h
length-elements (some x) h = h

module _ (u : Uio) where
  open u use {Lexer, holds}

  options_area :
      (o : Options.Options)
      → IsCarried o
      → from_bytes_check_end u
          (elements (u.contents (holds (wire (entries (sorted_keys o) o) ++ 255 ∷ []) false)))
          true
          empty
        ≡ (o, ok tt)
  options_area o w =
      rw (u.contents_law (wire (entries (sorted_keys o) o) ++ 255 ∷ []) false, ← to_bytes-wire u o)
        (from_bytes_check_end-to_bytes u o [] true w tt)

  finish_packet_lem :
      (p : Dhcpv4) (o : Options.Options)
      → IsCarried o
      → finish_packet u p magic_cookie (holds (wire (entries (sorted_keys o) o) ++ 255 ∷ []) false)
        ≡ ok (record p { options = o })
  unfolding finish_packet
  finish_packet_lem p o w =
      rw (u.failed_law (wire (entries (sorted_keys o) o) ++ 255 ∷ []) false, options_area o w)
        (λ i. ok (record p { options = (options_area o w i).0 }))

hw_addr_len_fits : (n : ℕ) → leb (if ltb 16 n then 16 else n) 16 ≡ true
hw_addr_len_fits n = ground arith

-- The fields that `FromBytes` reads from the layout of a packet.
fixed_part_lem :
    (d : Dhcpv4)
    → IsWire d
    → fixed_part d.op_code d.hw_type
        (length d.client_hw_addr)
        d.hop_count
        d.transaction_id
        (d.num_seconds / 256 % 256 * 256 + d.num_seconds % 256)
        (d.flags / 256 % 256 * 256 + d.flags % 256)
        (
          some (elements d.client_ip_addr),
          some (elements d.your_ip_addr),
          some (elements d.server_ip_addr),
          some (elements d.gateway_ip_addr),
        )
        (padded 16 d.client_hw_addr)
        (padded 64 d.server_host_name)
        (padded 128 d.boot_file_name)
      ≡ ok (record d { options = empty })
unfolding fixed_part
fixed_part_lem d w = rw (hw_addr_len_fits (length d.client_hw_addr)) (λ i. ok (record d {
  options = empty;
  num_seconds = word d.num_seconds w.num_seconds_word i;
  flags = word d.flags w.flags_word i;
  client_ip_addr = some-elements d.client_ip_addr w.client_ip i;
  your_ip_addr = some-elements d.your_ip_addr w.your_ip i;
  server_ip_addr = some-elements d.server_ip_addr w.server_ip i;
  gateway_ip_addr = some-elements d.gateway_ip_addr w.gateway_ip i;
  client_hw_addr = hw_addr_used d.client_hw_addr w.hw_addr_fits i;
  server_host_name =
      until_nul-append d.server_host_name (64 - length d.server_host_name) w.host_name.1 i;
  boot_file_name =
      until_nul-append d.boot_file_name (128 - length d.boot_file_name) w.boot_name.1 i;
}))

module _ (u : Uio) (d : Dhcpv4) (w : IsWire d) where
  open u use {Lexer, holds}

  from_bytes-layout :
      from_bytes u (layout d (wire (entries (sorted_keys d.options) d.options) ++ 255 ∷ [])) ≡ ok d
  unfolding from_bytes
  from_bytes-layout =
      let ci = λ (bs : Bytes) (e : Bool).
        copy_n_append u 4 (elements d.client_ip_addr) bs e
          (length-elements d.client_ip_addr w.client_ip) in
      let yi = λ (bs : Bytes) (e : Bool).
        copy_n_append u 4 (elements d.your_ip_addr) bs e
          (length-elements d.your_ip_addr w.your_ip) in
      let si = λ (bs : Bytes) (e : Bool).
        copy_n_append u 4 (elements d.server_ip_addr) bs e
          (length-elements d.server_ip_addr w.server_ip) in
      let gi = λ (bs : Bytes) (e : Bool).
        copy_n_append u 4 (elements d.gateway_ip_addr) bs e
          (length-elements d.gateway_ip_addr w.gateway_ip) in
      let ha = λ (bs : Bytes) (e : Bool).
        read_bytes_append u 16 (padded 16 d.client_hw_addr) bs e
          (length-padded 16 d.client_hw_addr w.hw_addr_fits) in
      let sn = λ (bs : Bytes) (e : Bool).
        read_bytes_append u 64 (padded 64 d.server_host_name) bs e
          (length-padded 64 d.server_host_name (omega (arith, w.host_name.0))) in
      let bf = λ (bs : Bytes) (e : Bool).
        read_bytes_append u 128 (padded 128 d.boot_file_name) bs e
          (length-padded 128 d.boot_file_name (omega (arith, w.boot_name.0))) in
      let xid =
        λ (bs : Bytes) (e : Bool). read_bytes_append u 4 d.transaction_id bs e w.xid_length in
      let ck = λ (bs : Bytes) (e : Bool). read_bytes_append u 4 magic_cookie bs e refl in
      rw
        (
          u.new_law,
          u.read8_cons,
          u.read8_cons,
          u.read8_cons,
          u.read8_cons,
          xid,
          u.read16_cons,
          u.read16_cons,
          ci,
          yi,
          si,
          gi,
          ha,
          sn,
          bf,
          ck,
          fixed_part_lem d w,
        )
        (finish_packet_lem u (record d { options = empty }) d.options w.carried)

  -- A packet that the format can carry (`IsWire`) is written without a panic, and what is written
  -- is read back as the packet.
  pub from_bytes-to_bytes : (s : Slice) × (to_bytes u d ≡ ok s) × (from_bytes u (elements s) ≡ ok d)
  from_bytes-to_bytes =
      let bs : Bytes = layout d (wire (entries (sorted_keys d.options) d.options) ++ 255 ∷ []) in
      (
        u.contents (holds bs false),
        to_bytes-layout u d w,
        rw (u.contents_law bs false) from_bytes-layout,
      )
