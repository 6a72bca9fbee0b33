-- ===== src/Dhcpv4/Options/Encode.antt =====
-- `Marshal` of dhcpv4/options.go: the bytes that it writes.
use dhcp.Prelude.{
  ℕ, zero, suc, ◌+◌, ◌%◌, ◌≡◌, refl, Bool, List, [], ◌∷◌, ◌++◌, ◌∙◌, ◌<◌, ◌≤◌, length-take,
  append-nil, append_assoc, ◌==◌, if◌then◌else◌, length, take, drop, Bytes, elements, arith, All,
  inl, inr, Bool-cases,
}
use dhcp.Uio.{Uio}
use dhcp.Dhcpv4.Options.{
  Options, get, has, keys_from, sorted_keys, chunk_length, chunk_loop, marshal_codes, marshal,
}

-- A value cut into pieces of at most 255 bytes.
unfoldable pub pieces : ℕ → Bytes → List Bytes
pieces zero d = []
pieces (suc f) [] = []
pieces (suc f) (x ∷ d) = let n = chunk_length (x ∷ d) in take n (x ∷ d) ∷ pieces f (drop n (x ∷ d))

abbrev pub tagged : ℕ → List Bytes → List (ℕ × Bytes)
tagged c [] = []
tagged c (d ∷ ds) = (c, d) ∷ tagged c ds

-- Options on the wire.
abbrev pub wire : List (ℕ × Bytes) → Bytes
wire [] = []
wire ((c, d) ∷ opts) = c ∷ length d ∷ (d ++ wire opts)

wire-append : (a b : List (ℕ × Bytes)) → wire (a ++ b) ≡ wire a ++ wire b
wire-append [] b = refl
wire-append ((c, d) ∷ a) b = rw (wire-append a b) (rw (append_assoc d (wire a) (wire b)))

-- The options that `Marshal` writes for a list of codes.
unfoldable pub entries : List ℕ → Options → List (ℕ × Bytes)
entries [] o = []
entries (c ∷ cs) o =
    let d = elements (get c o) in
    if c == 255 then entries cs o else tagged c (pieces (length d) d) ++ entries cs o

keys_from-lt : (o : Options) (k n m : ℕ) → k + n ≤ m → All (λ c. c < m) (keys_from o k n)
unfolding keys_from
keys_from-lt o k zero m h = tt
keys_from-lt o k (suc n) m h = elim (Bool-cases (has k o)) [
  | inl here ↦ rw here (omega arith, keys_from-lt o (suc k) n m (omega arith))
  | inr gone ↦ rw gone (keys_from-lt o (suc k) n m (omega arith))
]

module _ (u : Uio) where
  open u use {Lexer, holds, write8_law, write_bytes_law}

  chunk_length-take :
      (d : Bytes) → (length (take (chunk_length d) d) ≡ chunk_length d) × (chunk_length d < 256)
  chunk_length-take d = ground (arith, length-take (chunk_length d) d)

  chunk_loop-wire :
      (f c : ℕ) (d bs : Bytes) (e : Bool)
      → c < 256
      → chunk_loop u f c d (holds bs e) ≡ holds (bs ++ wire (tagged c (pieces f d))) e
  unfolding chunk_loop pieces
  chunk_loop-wire zero c d bs e h = rw append-nil
  chunk_loop-wire (suc f) c [] bs e h = rw append-nil
  chunk_loop-wire (suc f) c (x ∷ d) bs e h =
      let n = chunk_length (x ∷ d) in
      let t = chunk_length-take (x ∷ d) in
      let cm : c % 256 ≡ c = omega arith in
      let nm : n % 256 ≡ n = omega (arith, t.1) in
      rw (write8_law c bs e, write8_law n _ e, write_bytes_law _ _ e, cm, nm)
        (chunk_loop-wire f c (drop n (x ∷ d)) _ e h ∙ simp (append_assoc, t.0))

  marshal_codes-wire :
      (cs : List ℕ) (o : Options) (bs : Bytes) (e : Bool)
      → All (λ c. c < 256) cs
      → marshal_codes u cs o (holds bs e) ≡ holds (bs ++ wire (entries cs o)) e
  unfolding marshal_codes entries
  marshal_codes-wire [] o bs e h = rw append-nil
  marshal_codes-wire (c ∷ cs) o bs e h = elim (Bool-cases (c == 255)) [
    | inl last ↦ rw last (marshal_codes-wire cs o bs e h.1)
    | inr more ↦
        let d = elements (get c o) in
        rw
          (
            more,
            chunk_loop-wire (length d) c d bs e h.0,
            wire-append (tagged c (pieces (length d) d)) (entries cs o),
          )
          (marshal_codes-wire cs o _ e h.1 ∙ rw append_assoc)
  ]

  -- `Marshal` appends the options of the sorted keys, whatever the buffer holds.
  pub marshal-wire :
      (o : Options) (bs : Bytes) (e : Bool)
      → marshal u o (holds bs e) ≡ holds (bs ++ wire (entries (sorted_keys o) o)) e
  unfolding marshal
  marshal-wire o bs e =
      marshal_codes-wire (sorted_keys o) o bs e (keys_from-lt o 0 256 256 (omega arith))
