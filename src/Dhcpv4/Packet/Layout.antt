-- ===== src/Dhcpv4/Packet/Layout.antt =====
-- The bytes of a packet of dhcpv4/dhcpv4.go, against `ToBytes`.
use dhcp.Prelude.{
  ℕ, zero, suc, ◌-◌, ◌/◌, ◌%◌, ◌≤◌, ◌<◌, ◌≡◌, ◌≢◌, refl, ap, ◌∙◌, Bool, false, [], ◌∷◌, ◌++◌, some,
  none, length, take, replicate, Bytes, Slice, elements, ok, arith, All, append_assoc, lt→ltb,
  le→ltb, take_all,
}
use dhcp.Uio.{Uio}
use dhcp.Dhcpv4.Options.{sorted_keys}
use dhcp.Dhcpv4.Options.Encode.{wire, entries, marshal-wire}
use dhcp.Dhcpv4.Options.RoundTrip.{IsCarried}
use dhcp.Dhcpv4.Values.Items.{IsIpv4}
use dhcp.Dhcpv4.Packet.{Dhcpv4, magic_cookie, text_field, hw_addr_len, write_ip, to_bytes}

-- A text for a field of `n` bytes: with no NUL, and room for one behind it.
abbrev pub IsText : ℕ → Bytes → Type 0
IsText n text = (length text < n) × All (λ b. b ≢ 0) text

-- A packet that the format can carry. An Ethernet packet has a hardware address: the length byte
-- of one without is written as 6.
pub record IsWire (d : Dhcpv4) : Type 0 where
  pub op_code_byte : d.op_code < 256
  pub hw_type_byte : d.hw_type < 256
  pub hop_count_byte : d.hop_count < 256
  pub xid_length : length d.transaction_id ≡ 4
  pub num_seconds_word : d.num_seconds < 65536
  pub flags_word : d.flags < 65536
  pub client_ip : IsIpv4 d.client_ip_addr
  pub your_ip : IsIpv4 d.your_ip_addr
  pub server_ip : IsIpv4 d.server_ip_addr
  pub gateway_ip : IsIpv4 d.gateway_ip_addr
  pub hw_addr_fits : length d.client_hw_addr ≤ 16
  pub hw_addr_set : d.hw_type ≡ 1 → 0 < length d.client_hw_addr
  pub host_name : IsText 64 d.server_host_name
  pub boot_name : IsText 128 d.boot_file_name
  pub carried : IsCarried d.options

abbrev pub padded : ℕ → Bytes → Bytes
padded n text = text ++ replicate (n - length text) 0

-- The packet on the wire, with `rest` behind the cookie.
abbrev pub layout : Dhcpv4 → Bytes → Bytes
layout d rest =
    d.op_code
    ∷ d.hw_type
    ∷ length d.client_hw_addr
    ∷ d.hop_count
    ∷ (d.transaction_id
        ++ (d.num_seconds / 256 % 256
            ∷ d.num_seconds % 256
            ∷ d.flags / 256 % 256
            ∷ d.flags % 256
            ∷ (elements d.client_ip_addr
                ++ (elements d.your_ip_addr
                    ++ (elements d.server_ip_addr
                        ++ (elements d.gateway_ip_addr
                            ++ (padded 16 d.client_hw_addr
                                ++ (padded 64 d.server_host_name
                                    ++ (padded 128 d.boot_file_name
                                        ++ (magic_cookie ++ rest))))))))))

take-replicate : (n m : ℕ) → n ≤ m → take {A = ℕ} n (replicate m 0) ≡ replicate n 0
take-replicate zero m h = refl
take-replicate (suc n) zero h = absurd (omega arith)
take-replicate (suc n) (suc m) h = ap (◌∷◌ 0) (take-replicate n m (omega arith))

take-padded :
    (n m : ℕ) (text : Bytes)
    → length text ≤ n
    → n ≤ m
    → take n (text ++ replicate m 0) ≡ padded n text
take-padded n m [] h k = let whole : n - 0 ≡ n = omega arith in rw whole (take-replicate n m k)
take-padded zero m (x ∷ text) h k = absurd (omega arith)
take-padded (suc n) m (x ∷ text) h k =
    let same : suc n - suc (length text) ≡ n - length text = omega arith in
    rw same (ap (◌∷◌ x) (take-padded n m text (omega arith) (omega arith)))

module _ (u : Uio) where
  open u use {Lexer, holds}

  write_ip_lem :
      (ip : Slice) (bs : Bytes) (e : Bool)
      → IsIpv4 ip
      → write_ip u ip (holds bs e) ≡ ok (holds (bs ++ elements ip) e)
  unfolding write_ip
  write_ip_lem none bs e h = absurd h
  write_ip_lem (some ip) bs e h =
      rw (le→ltb (length ip) 4 (omega arith), take_all 4 ip (omega arith))
        (ap ok (u.write_bytes_law ip bs e))

  write_hw_addr :
      (hw bs : Bytes) (e : Bool)
      → length hw ≤ 16
      → u.write_copy 16 hw (holds bs e) ≡ holds (bs ++ padded 16 hw) e
  write_hw_addr hw bs e h = u.write_copy_law 16 hw bs e ∙ rw (take-padded 16 16 hw h (omega arith))

hw_addr_len_lem : (d : Dhcpv4) → IsWire d → hw_addr_len d ≡ length d.client_hw_addr
unfolding hw_addr_len
hw_addr_len_lem d w = let set = w.hw_addr_set in let fits = w.hw_addr_fits in ground arith

text_field_lem : (n : ℕ) (text : Bytes) → length text < n → text_field n text ≡ ok (padded n text)
unfolding text_field
text_field_lem n text h = rw (lt→ltb (length text) n h)

module _ (u : Uio) (d : Dhcpv4) (w : IsWire d) where
  open u use {Lexer, holds}

  -- `ToBytes` writes the layout and does not panic.
  pub to_bytes-layout :
      to_bytes u d
      ≡ ok (
          u.contents
            (holds (layout d (wire (entries (sorted_keys d.options) d.options) ++ 255 ∷ [])) false))
  unfolding to_bytes
  to_bytes-layout =
      let op : d.op_code % 256 ≡ d.op_code = omega (arith, w.op_code_byte) in
      let hw : d.hw_type % 256 ≡ d.hw_type = omega (arith, w.hw_type_byte) in
      let hops : d.hop_count % 256 ≡ d.hop_count = omega (arith, w.hop_count_byte) in
      let len : hw_addr_len d % 256 ≡ length d.client_hw_addr =
        omega (arith, hw_addr_len_lem d w, w.hw_addr_fits) in
      let ci = λ (bs : Bytes) (e : Bool). write_ip_lem u d.client_ip_addr bs e w.client_ip in
      let yi = λ (bs : Bytes) (e : Bool). write_ip_lem u d.your_ip_addr bs e w.your_ip in
      let si = λ (bs : Bytes) (e : Bool). write_ip_lem u d.server_ip_addr bs e w.server_ip in
      let gi = λ (bs : Bytes) (e : Bool). write_ip_lem u d.gateway_ip_addr bs e w.gateway_ip in
      let ha = λ (bs : Bytes) (e : Bool). write_hw_addr u d.client_hw_addr bs e w.hw_addr_fits in
      let sn = text_field_lem 64 d.server_host_name w.host_name.0 in
      let bf = text_field_lem 128 d.boot_file_name w.boot_name.0 in
      let os = λ (bs : Bytes). marshal-wire u d.options bs false in
      simp
        (
          u.new_law, u.write8_law, u.write16_law, u.write_bytes_law, op, hw, hops, len, ci, yi, si,
          gi, ha, sn, bf, os, append_assoc,
        )
        refl
