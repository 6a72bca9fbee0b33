-- ===== src/Dhcpv6/Duid/Termination.antt =====
-- dhcpv6/duid.go: no bytes make `DuidFromBytes` slice beyond them.
use dhcp.Prelude.{
  ℕ, zero, suc, ◌+◌, ◌≤◌, ◌≡◌, ◌≢◌, [], ◌∷◌, ◌==◌, ltb, not, Bool, Bool-cases, inl, inr, true,
  false, refl, length, if◌then◌else◌, Bytes, Result, ok, err, Fault, fault, ◌>>=◌, >>=-ne-fault,
  arith,
}
use dhcp.Dhcpv6.Duid.{
  Duid, Error, duid_from_bytes, fields_from_bytes, uint16_at, uint32_at, slice_from, slice_to,
  short_llt, short_ll, short_en, uuid_length, no_fields,
}
use dhcp.Dhcpv6.Duid.RoundTrip.{slice_to_whole}

uint16_at-ne-fault :
    (i : ℕ) (bs : Bytes) → i + 2 ≤ length bs → (x : Fault) → uint16_at i bs ≢ fault x
unfolding uint16_at
uint16_at-ne-fault zero (a ∷ b ∷ bs) h x p = cc
uint16_at-ne-fault zero (a ∷ []) h x p = ground (arith, h)
uint16_at-ne-fault zero [] h x p = ground (arith, h)
uint16_at-ne-fault (suc i) (a ∷ bs) h x p = uint16_at-ne-fault i bs (omega (arith, h)) x p
uint16_at-ne-fault (suc i) [] h x p = ground (arith, h)

uint32_at-ne-fault :
    (i : ℕ) (bs : Bytes) → i + 4 ≤ length bs → (x : Fault) → uint32_at i bs ≢ fault x
unfolding uint32_at
uint32_at-ne-fault zero (a ∷ b ∷ c ∷ d ∷ bs) h x p = cc
uint32_at-ne-fault zero (a ∷ b ∷ c ∷ []) h x p = ground (arith, h)
uint32_at-ne-fault zero (a ∷ b ∷ []) h x p = ground (arith, h)
uint32_at-ne-fault zero (a ∷ []) h x p = ground (arith, h)
uint32_at-ne-fault zero [] h x p = ground (arith, h)
uint32_at-ne-fault (suc i) (a ∷ bs) h x p = uint32_at-ne-fault i bs (omega (arith, h)) x p
uint32_at-ne-fault (suc i) [] h x p = ground (arith, h)

slice_from_lem :
    (i : ℕ) (bs : Bytes)
    → i ≤ length bs
    → (rest : Bytes) × (slice_from i bs ≡ ok rest) × (i + length rest ≡ length bs)
unfolding slice_from
slice_from_lem zero bs h = (bs, refl, omega arith)
slice_from_lem (suc i) (a ∷ bs) h =
    let (rest, sliced, n) = slice_from_lem i bs (omega (arith, h)) in
    (rest, sliced, omega (arith, n))
slice_from_lem (suc i) [] h = ground (arith, h)

slice_from-ne-fault : (i : ℕ) (bs : Bytes) → i ≤ length bs → (x : Fault) → slice_from i bs ≢ fault x
slice_from-ne-fault i bs h x p = let (rest, sliced, n) = slice_from_lem i bs h in cc

-- A guard against too few bytes.
guarded-ne-fault :
    (n k : ℕ) (e : Error) (r : Result Error Duid) (x : Fault)
    → (k ≤ n → r ≢ fault x)
    → (if ltb n k then err e else r) ≢ fault x
guarded-ne-fault n k e r x h = elim (Bool-cases (ltb n k)) [
  | inl short ↦ rw short (λ p. cc)
  | inr long ↦ rw long (h (ground (arith, long)))
]

branch-ne-fault :
    (c : Bool) (r s : Result Error Duid) (x : Fault)
    → r ≢ fault x
    → s ≢ fault x
    → (if c then r else s) ≢ fault x
branch-ne-fault true r s x h k = h
branch-ne-fault false r s x h k = k

abbrev accepted : Duid → Result Error Duid
accepted d = ok d

ok-ne-fault : (d : Duid) (x : Fault) → accepted d ≢ fault x
ok-ne-fault d x p = cc

uuid-ne-fault :
    (d : Duid) (bs : Bytes) (x : Fault)
    → 2 ≤ length bs
    → (if not (length bs == 18)
        then err uuid_length
        else do rest ← slice_from 2 bs; uuid ← slice_to 16 rest; ok (record d { uuid = uuid }))
      ≢ fault x
uuid-ne-fault d bs x h =
    let (rest, sliced, n) = slice_from_lem 2 bs h in
    elim (Bool-cases (length bs == 18)) [
      | inl fits ↦ rw (fits, sliced, slice_to_whole 16 rest (ground (arith, fits, n))) (λ p. cc)
      | inr other ↦ rw other (λ p. cc)
    ]

fields_from_bytes-ne-fault :
    (t : ℕ) (bs : Bytes) (x : Fault) → 2 ≤ length bs → fields_from_bytes t bs ≢ fault x
unfolding fields_from_bytes
fields_from_bytes-ne-fault t bs x h =
    branch-ne-fault (t == 1) _ _ x
      (guarded-ne-fault (length bs) 8 short_llt _ x (λ long.
        >>=-ne-fault _ _ x (uint16_at-ne-fault 2 bs (omega (arith, long))) (λ hw.
          >>=-ne-fault _ _ x (uint32_at-ne-fault 4 bs (omega (arith, long))) (λ time.
            >>=-ne-fault _ _ x (slice_from-ne-fault 8 bs (omega (arith, long)))
              (λ addr. ok-ne-fault _ x)))))
      (branch-ne-fault (t == 3) _ _ x
        (guarded-ne-fault (length bs) 4 short_ll _ x (λ long.
          >>=-ne-fault _ _ x (uint16_at-ne-fault 2 bs (omega (arith, long))) (λ hw.
            >>=-ne-fault _ _ x (slice_from-ne-fault 4 bs (omega (arith, long)))
              (λ addr. ok-ne-fault _ x))))
        (branch-ne-fault (t == 2) _ _ x
          (guarded-ne-fault (length bs) 6 short_en _ x (λ long.
            >>=-ne-fault _ _ x (uint32_at-ne-fault 2 bs (omega (arith, long))) (λ number.
              >>=-ne-fault _ _ x (slice_from-ne-fault 6 bs (omega (arith, long)))
                (λ identifier. ok-ne-fault _ x))))
          (branch-ne-fault (t == 4) _ _ x (uuid-ne-fault (no_fields t) bs x h)
            (>>=-ne-fault _ _ x (slice_from-ne-fault 2 bs h) (λ rest. ok-ne-fault _ x)))))

pub duid_from_bytes-ne-fault : (bs : Bytes) (x : Fault) → duid_from_bytes bs ≢ fault x
unfolding duid_from_bytes
duid_from_bytes-ne-fault bs x = guarded-ne-fault (length bs) 2 Error.too_short _ x (λ h.
    >>=-ne-fault (uint16_at 0 bs) (λ t. fields_from_bytes t bs) x
      (uint16_at-ne-fault 0 bs (omega (arith, h))) (λ t. fields_from_bytes-ne-fault t bs x h))
