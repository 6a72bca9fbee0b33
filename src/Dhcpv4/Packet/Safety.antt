-- ===== src/Dhcpv4/Packet/Safety.antt =====
-- dhcpv4/dhcpv4.go: where the codec of the packet can panic.
use dhcp.Prelude.{
  ℕ, ◌≤◌, ◌-◌, ◌++◌, ◌≡◌, ◌≢◌, refl, true, false, Bytes, Slice, elements, ok, fault, panic, Fault,
  Bool-cases, inl, inr, ◌⊎◌, arith, length, le→ltb, take, replicate, some, none, ltb, >>=-ne-fault,
}
use dhcp.Uio.{Uio}
use dhcp.Dhcpv4.Options.{empty}
use dhcp.Dhcpv4.Options.Decode.{from_bytes_check_end-ne-fault}
use dhcp.Dhcpv4.Packet.{
  Dhcpv4, from_bytes, to_bytes, finish_packet, text_field, write_ip, fixed_part,
}

text_field_long : (n : ℕ) (t : Bytes) → ltb (length t) n ≡ false → text_field n t ≡ fault panic
unfolding text_field
text_field_long n t h = rw h refl

text_field_short :
    (n : ℕ) (t : Bytes)
    → ltb (length t) n ≡ true
    → text_field n t ≡ ok (t ++ replicate (n - length t) 0)
unfolding text_field
text_field_short n t h = rw h refl

fixed_part-ne-fault :
    (op_code hw_type hw_len hop_count : ℕ) (xid : Bytes) (num_seconds flags : ℕ)
    (ips : Slice × Slice × Slice × Slice) (hw_addr sname file : Bytes) (x : Fault)
    → fixed_part op_code hw_type hw_len hop_count xid num_seconds flags ips hw_addr sname file
      ≢ fault x
unfolding fixed_part
fixed_part-ne-fault _ _ hw_len _ _ _ _ _ _ _ _ x e = ground (arith, e)

module _ (u : Uio) where
  open u use {Lexer}

  finish_packet-ne-fault :
      (p : Dhcpv4) (cookie : Bytes) (b : Lexer) (x : Fault) → finish_packet u p cookie b ≢ fault x
  unfolding finish_packet
  finish_packet-ne-fault p cookie b x e =
      let f = from_bytes_check_end-ne-fault u (elements (u.contents b)) true empty x in
      ground (arith, f, e)

  -- No packet makes `FromBytes` panic or run out of fuel.
  pub from_bytes-ne-fault : (q : Bytes) (x : Fault) → from_bytes u q ≢ fault x
  unfolding from_bytes
  from_bytes-ne-fault q x =
      >>=-ne-fault _ _ x (fixed_part-ne-fault _ _ _ _ _ _ _ _ _ _ _)
        (λ p. finish_packet-ne-fault p _ _ x)

  -- An address that `writeIP` can slice: `nil`, or one of four bytes or more.
  abbrev pub IsSliceable : Slice → Type 0
  IsSliceable ip = ltb (length (elements ip)) 4 ≡ false ⊎ ip ≡ none

  ip_written : Slice → Lexer → Lexer
  ip_written none b = u.write_bytes (replicate 4 0) b
  ip_written (some ip) b = u.write_bytes (take 4 ip) b

  write_ip_ok : (ip : Slice) (b : Lexer) → IsSliceable ip → write_ip u ip b ≡ ok (ip_written ip b)
  unfolding write_ip ip_written
  write_ip_ok none b h = refl
  write_ip_ok (some ip) b (inl h) = rw h refl
  write_ip_ok (some ip) b (inr h) = ground (arith, h)

  -- With addresses that can be written, `ToBytes` panics on a host name of 64 bytes or more, and on
  -- a boot file name of 128 bytes or more.
  pub to_bytes_long_text :
      (d : Dhcpv4)
      → IsSliceable d.client_ip_addr
      → IsSliceable d.your_ip_addr
      → IsSliceable d.server_ip_addr
      → IsSliceable d.gateway_ip_addr
      → 64 ≤ length d.server_host_name ⊎ 128 ≤ length d.boot_file_name
      → to_bytes u d ≡ fault panic
  unfolding to_bytes
  to_bytes_long_text d c y s g long =
      let w₁ = λ (b : Lexer). write_ip_ok d.client_ip_addr b c in
      let w₂ = λ (b : Lexer). write_ip_ok d.your_ip_addr b y in
      let w₃ = λ (b : Lexer). write_ip_ok d.server_ip_addr b s in
      let w₄ = λ (b : Lexer). write_ip_ok d.gateway_ip_addr b g in
      let no_host = text_field_long 64 d.server_host_name in
      let no_boot = text_field_long 128 d.boot_file_name in
      elim (Bool-cases (ltb (length d.server_host_name) 64)) [
        | inl short ↦
            let too_long = le→ltb (length d.boot_file_name) 128 (ground (arith, long, short)) in
            rw (w₁, w₂, w₃, w₄, text_field_short 64 d.server_host_name short, no_boot too_long) refl
        | inr too_long ↦ rw (w₁, w₂, w₃, w₄, no_host too_long) refl
      ]
