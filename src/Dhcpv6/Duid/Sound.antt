-- ===== src/Dhcpv6/Duid/Sound.antt =====
-- dhcpv6/duid.go: writing the DUID that was read.
use dhcp.Prelude.{
  some, ℕ, ◌+◌, ◌*◌, ◌/◌, ◌%◌, ◌≡◌, ◌<◌, refl, ap, sym, ◌∙◌, [], ◌∷◌, ◌==◌, length, Bool-cases, All,
  IsByte, arith, Bytes, ok, err, le→ltb, ==_ne, ok-injective, ◌⊎◌, inl, inr,
}
use dhcp.Dhcpv6.Duid.{
  Duid, no_fields, to_bytes, duid_from_bytes, put16, put32, uint16_at, uint32_at, fields_from_bytes,
  slice_from, uuid_length,
}
use dhcp.Dhcpv6.Duid.RoundTrip.{slice_to_whole}

byte₁ : (x y : ℕ) → x < 256 → y < 256 → (x * 256 + y) / 256 % 256 ≡ x
byte₁ x y h k = omega arith

byte₀ : (x y : ℕ) → y < 256 → (x * 256 + y) % 256 ≡ y
byte₀ x y k = omega arith

put16-uint16 : (x y : ℕ) → x < 256 → y < 256 → put16 (x * 256 + y) ≡ x ∷ y ∷ []
unfolding put16
put16-uint16 x y h k = rw (byte₁ x y h k, byte₀ x y k) refl

put32-uint32 :
    (x y z v : ℕ)
    → x < 256
    → y < 256
    → z < 256
    → v < 256
    → put32 (x * 16777216 + y * 65536 + z * 256 + v) ≡ x ∷ y ∷ z ∷ v ∷ []
unfolding put32
put32-uint32 x y z v hx hy hz hv =
    let n = x * 16777216 + y * 65536 + z * 256 + v in
    let b₃ : n / 16777216 % 256 ≡ x = omega arith in
    let b₂ : n / 65536 % 256 ≡ y = omega arith in
    let b₁ : n / 256 % 256 ≡ z = omega arith in
    let b₀ : n % 256 ≡ v = omega arith in λ i. b₃ i ∷ b₂ i ∷ b₁ i ∷ b₀ i ∷ []

-- What a type's branch has to show.
abbrev Written : ℕ → ℕ → Bytes → Type 0
Written x y bs =
    (d : Duid)
    → All IsByte (x ∷ y ∷ bs)
    → duid_from_bytes (x ∷ y ∷ bs) ≡ ok d
    → to_bytes d ≡ x ∷ y ∷ bs

llt_case : (bs : Bytes) → Written 0 1 bs
unfolding duid_from_bytes fields_from_bytes to_bytes uint16_at uint32_at slice_from
llt_case (a ∷ b ∷ p ∷ q ∷ r ∷ s ∷ bs) d (hx, (hy, (ha, (hb, (hp, (hq, (hr, (hs, h)))))))) e =
    let long₂ = le→ltb (length (0 ∷ 1 ∷ a ∷ b ∷ p ∷ q ∷ r ∷ s ∷ bs)) 2 (omega arith) in
    let long₈ = le→ltb (length (0 ∷ 1 ∷ a ∷ b ∷ p ∷ q ∷ r ∷ s ∷ bs)) 8 (omega arith) in
    let read : duid_from_bytes (0 ∷ 1 ∷ a ∷ b ∷ p ∷ q ∷ r ∷ s ∷ bs)
        ≡ ok (record (no_fields 1) {
          hw_type = a * 256 + b;
          time = p * 16777216 + q * 65536 + r * 256 + s;
          link_layer_addr = some bs;
        }) =
      rw (long₂, long₈) refl in
    ap to_bytes (sym (ok-injective (sym read ∙ e)))
    ∙ rw (put16-uint16 0 1 hx hy, put16-uint16 a b ha hb, put32-uint32 p q r s hp hq hr hs) refl
llt_case _ d h e = ground (arith, e)

en_case : (bs : Bytes) → Written 0 2 bs
unfolding duid_from_bytes fields_from_bytes to_bytes uint16_at uint32_at slice_from
en_case (p ∷ q ∷ r ∷ s ∷ bs) d (hx, (hy, (hp, (hq, (hr, (hs, h)))))) e =
    let long₂ = le→ltb (length (0 ∷ 2 ∷ p ∷ q ∷ r ∷ s ∷ bs)) 2 (omega arith) in
    let long₆ = le→ltb (length (0 ∷ 2 ∷ p ∷ q ∷ r ∷ s ∷ bs)) 6 (omega arith) in
    let read : duid_from_bytes (0 ∷ 2 ∷ p ∷ q ∷ r ∷ s ∷ bs)
        ≡ ok (record (no_fields 2) {
          enterprise_number = p * 16777216 + q * 65536 + r * 256 + s;
          enterprise_identifier = bs;
        }) =
      rw (long₂, long₆) refl in
    ap to_bytes (sym (ok-injective (sym read ∙ e)))
    ∙ rw (put16-uint16 0 2 hx hy, put32-uint32 p q r s hp hq hr hs) refl
en_case _ d h e = ground (arith, e)

ll_case : (bs : Bytes) → Written 0 3 bs
unfolding duid_from_bytes fields_from_bytes to_bytes uint16_at uint32_at slice_from
ll_case (a ∷ b ∷ bs) d (hx, (hy, (ha, (hb, h)))) e =
    let long₂ = le→ltb (length (0 ∷ 3 ∷ a ∷ b ∷ bs)) 2 (omega arith) in
    let long₄ = le→ltb (length (0 ∷ 3 ∷ a ∷ b ∷ bs)) 4 (omega arith) in
    let read : duid_from_bytes (0 ∷ 3 ∷ a ∷ b ∷ bs)
        ≡ ok (record (no_fields 3) { hw_type = a * 256 + b; link_layer_addr = some bs }) =
      rw (long₂, long₄) refl in
    ap to_bytes (sym (ok-injective (sym read ∙ e)))
    ∙ rw (put16-uint16 0 3 hx hy, put16-uint16 a b ha hb) refl
ll_case _ d h e = ground (arith, e)

uuid_case : (bs : Bytes) → Written 0 4 bs
unfolding duid_from_bytes fields_from_bytes to_bytes uint16_at uint32_at slice_from
uuid_case bs d (hx, (hy, h)) e =
    let long₂ = le→ltb (length (0 ∷ 4 ∷ bs)) 2 (omega arith) in
    elim (Bool-cases (length (0 ∷ 4 ∷ bs) == 18)) [
      | inl fits ↦
          let read : duid_from_bytes (0 ∷ 4 ∷ bs) ≡ ok (record (no_fields 4) { uuid = bs }) =
            rw (long₂, fits, slice_to_whole 16 bs (ground (arith, fits))) refl in
          ap to_bytes (sym (ok-injective (sym read ∙ e))) ∙ rw (put16-uint16 0 4 hx hy) refl
      | inr not_18 ↦
          let read : duid_from_bytes (0 ∷ 4 ∷ bs) ≡ err uuid_length = rw (long₂, not_18) refl in
          ground (arith, sym read ∙ e)
    ]

other_case : (x y : ℕ) (bs : Bytes) → x * 256 + y ≡ 0 ⊎ 4 < x * 256 + y → Written x y bs
unfolding duid_from_bytes fields_from_bytes to_bytes uint16_at uint32_at slice_from
other_case x y bs t d (hx, (hy, h)) e =
    let long₂ = le→ltb (length (x ∷ y ∷ bs)) 2 (omega arith) in
    let n₁ = ==_ne (x * 256 + y) 1 (omega (arith, t)) in
    let n₂ = ==_ne (x * 256 + y) 2 (omega (arith, t)) in
    let n₃ = ==_ne (x * 256 + y) 3 (omega (arith, t)) in
    let n₄ = ==_ne (x * 256 + y) 4 (omega (arith, t)) in
    let read : duid_from_bytes (x ∷ y ∷ bs)
        ≡ ok (record (no_fields (x * 256 + y)) { opaque = bs }) =
      rw (long₂, n₁, n₂, n₃, n₄) refl in
    ap to_bytes (sym (ok-injective (sym read ∙ e)))
    ∙ rw (n₁, n₂, n₃, n₄, put16-uint16 x y hx hy) refl

type-cases : (t : ℕ) → (t ≡ 1) ⊎ (t ≡ 2) ⊎ (t ≡ 3) ⊎ (t ≡ 4) ⊎ (t ≡ 0 ⊎ 4 < t)
type-cases t = ground arith

written : (x y : ℕ) (bs : Bytes) → y < 256 → Written x y bs
written x y bs h = elim (type-cases (x * 256 + y)) [
  | inl t ↦ as_type 1 t (omega arith) (llt_case bs)
  | inr (inl t) ↦ as_type 2 t (omega arith) (en_case bs)
  | inr (inr (inl t)) ↦ as_type 3 t (omega arith) (ll_case bs)
  | inr (inr (inr (inl t))) ↦ as_type 4 t (omega arith) (uuid_case bs)
  | inr (inr (inr (inr t))) ↦ other_case x y bs t
]
  where
    as_type : (k : ℕ) → x * 256 + y ≡ k → k < 256 → Written 0 k bs → Written x y bs
    as_type k t small w =
        let x₀ : x ≡ 0 = omega arith in let y₀ : y ≡ k = omega arith in rw (x₀, y₀) w

-- If bytes are accepted, the DUID that is read is written as the same bytes.
pub to_bytes-duid_from_bytes :
    (bs : Bytes) (d : Duid) → All IsByte bs → duid_from_bytes bs ≡ ok d → to_bytes d ≡ bs
unfolding duid_from_bytes fields_from_bytes
to_bytes-duid_from_bytes (x ∷ y ∷ bs) d h e = written x y bs h.1.0 d h e
to_bytes-duid_from_bytes _ d h e = ground (arith, e)
