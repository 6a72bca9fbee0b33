-- ===== src/Dhcpv6/Duid/RoundTrip.antt =====
-- dhcpv6/duid.go: the two directions of the codec.
use dhcp.Prelude.{
  some, ℕ, ◌+◌, ◌*◌, ◌/◌, ◌%◌, ◌≡◌, ◌<◌, ◌≢◌, refl, ◌∷◌, length, arith, Bytes, ok, le→ltb, ==_ne,
  ◌⊎◌, [], zero, suc,
}
use dhcp.Dhcpv6.Duid.{
  Duid, no_fields, wire_length, to_bytes, duid_from_bytes, put16, put32, uint16_at, uint32_at,
  fields_from_bytes, slice_from, slice_to,
}

-- A DUID whose fields fit the wire, and that leaves the fields of the other types empty.
pub data IsDuid : Duid → Type 0 where
  llt :
      (h t : ℕ) (a : Bytes)
      → h < 65536
      → t < 4294967296
      → IsDuid (record (no_fields 1) { hw_type = h; time = t; link_layer_addr = some a })
  en :
      (n : ℕ) (i : Bytes)
      → n < 4294967296
      → IsDuid (record (no_fields 2) { enterprise_number = n; enterprise_identifier = i })
  ll :
      (h : ℕ) (a : Bytes)
      → h < 65536
      → IsDuid (record (no_fields 3) { hw_type = h; link_layer_addr = some a })
  with_uuid : (i : Bytes) → length i ≡ 16 → IsDuid (record (no_fields 4) { uuid = i })
  other :
      (t : ℕ) (o : Bytes) → t < 65536 → t ≡ 0 ⊎ 4 < t → IsDuid (record (no_fields t) { opaque = o })

word : (n : ℕ) → n < 65536 → n / 256 % 256 * 256 + n % 256 ≡ n
word n h = omega arith

long_word :
    (n : ℕ)
    → n < 4294967296
    → n / 16777216 % 256 * 16777216 + n / 65536 % 256 * 65536 + n / 256 % 256 * 256 + n % 256 ≡ n
long_word n h = omega arith

-- `data[:len(data)]`.
pub slice_to_whole : (n : ℕ) (bs : Bytes) → length bs ≡ n → slice_to n bs ≡ ok bs
unfolding slice_to
slice_to_whole zero [] h = refl
slice_to_whole zero (a ∷ bs) h = ground (arith, h)
slice_to_whole (suc n) [] h = ground (arith, h)
slice_to_whole (suc n) (a ∷ bs) h = rw (slice_to_whole n bs (omega (arith, h))) refl

-- A DUID that the wire can carry (`IsDuid`) is read back from its bytes.
pub duid_from_bytes-to_bytes : (d : Duid) → IsDuid d → duid_from_bytes (to_bytes d) ≡ ok d
unfolding duid_from_bytes fields_from_bytes to_bytes put16 put32 uint16_at uint32_at slice_from
duid_from_bytes-to_bytes d (llt h t a hh ht) =
    rw
      (
        le→ltb (length (0 ∷ 0 ∷ 0 ∷ 0 ∷ 0 ∷ 0 ∷ 0 ∷ 0 ∷ a)) 2 (omega arith),
        le→ltb (length (0 ∷ 0 ∷ 0 ∷ 0 ∷ 0 ∷ 0 ∷ 0 ∷ 0 ∷ a)) 8 (omega arith),
      )
      (λ i. ok (record (no_fields 1) {
        hw_type = word h hh i;
        time = long_word t ht i;
        link_layer_addr = some a;
      }))
duid_from_bytes-to_bytes d (en n x hn) =
    rw
      (
        le→ltb (length (0 ∷ 0 ∷ 0 ∷ 0 ∷ 0 ∷ 0 ∷ x)) 2 (omega arith),
        le→ltb (length (0 ∷ 0 ∷ 0 ∷ 0 ∷ 0 ∷ 0 ∷ x)) 6 (omega arith),
      )
      (λ i.
        ok (record (no_fields 2) {
          enterprise_number = long_word n hn i;
          enterprise_identifier = x;
        }))
duid_from_bytes-to_bytes d (ll h a hh) =
    rw
      (
        le→ltb (length (0 ∷ 0 ∷ 0 ∷ 0 ∷ a)) 2 (omega arith),
        le→ltb (length (0 ∷ 0 ∷ 0 ∷ 0 ∷ a)) 4 (omega arith),
      )
      (λ i. ok (record (no_fields 3) { hw_type = word h hh i; link_layer_addr = some a }))
duid_from_bytes-to_bytes d (with_uuid i h) = rw (h, slice_to_whole 16 i h) refl
duid_from_bytes-to_bytes d (other t o ht hr) =
    let n₁ : t ≢ 1 = omega (arith, hr) in
    let n₂ : t ≢ 2 = omega (arith, hr) in
    let n₃ : t ≢ 3 = omega (arith, hr) in
    let n₄ : t ≢ 4 = omega (arith, hr) in
    rw
      (
        ==_ne t 1 n₁,
        ==_ne t 2 n₂,
        ==_ne t 3 n₃,
        ==_ne t 4 n₄,
        word t ht,
        le→ltb (length (0 ∷ 0 ∷ o)) 2 (omega arith),
        ==_ne t 1 n₁,
        ==_ne t 2 n₂,
        ==_ne t 3 n₃,
        ==_ne t 4 n₄,
      )
      refl

-- `Length` is the number of bytes written, for a DUID that the wire can carry.
pub length-to_bytes : (d : Duid) → IsDuid d → length (to_bytes d) ≡ wire_length d
unfolding to_bytes wire_length put16 put32
length-to_bytes d (llt h t a hh ht) = omega arith
length-to_bytes d (en n x hn) = omega arith
length-to_bytes d (ll h a hh) = omega arith
length-to_bytes d (with_uuid i h) = omega (arith, h)
length-to_bytes d (other t o ht hr) =
    let n₁ : t ≢ 1 = omega (arith, hr) in
    let n₂ : t ≢ 2 = omega (arith, hr) in
    let n₃ : t ≢ 3 = omega (arith, hr) in
    let n₄ : t ≢ 4 = omega (arith, hr) in
    rw (==_ne t 1 n₁, ==_ne t 2 n₂, ==_ne t 3 n₃, ==_ne t 4 n₄) (omega arith)
