-- ===== src/Dhcpv6/Options/Step.antt =====
-- dhcpv6/options.go: one round of the loop of `FromBytesWithParser`.
use dhcp.Prelude.{
  ℕ, ◌+◌, ◌*◌, ◌/◌, ◌%◌, ◌≡◌, ap, ◌∙◌, Bool, [], ◌∷◌, ◌++◌, length, append_assoc, Bytes, Slice,
  Result, ok, err, fault, ok-injective,
}
use dhcp.Uio.{Uio}
use dhcp.Dhcpv6.Options.{Kind, Error, read_option, write_option}

-- The bytes of an option.
abbrev pub option_bytes : {E Opt : Type 0} → Kind E Opt → Opt → Bytes
option_bytes k o =
    k.code o / 256 % 256
    ∷ k.code o % 256
    ∷ length (k.value o) / 256 % 256
    ∷ length (k.value o) % 256
    ∷ k.value o

module _ {E Opt : Type 0} (u : Uio) (k : Kind E Opt) where
  open u use {Lexer, holds}

  -- Reading an option whose header is there.
  pub option_step :
      (a b c d : ℕ) (bs : Bytes) (e : Bool)
      → read_option k u (holds (a ∷ b ∷ c ∷ d ∷ bs) e)
        ≡ (elim (k.parse (a * 256 + b) (u.consume (c * 256 + d) (holds bs e)).0) [
          | ok opt ↦ ok (opt, (u.consume (c * 256 + d) (holds bs e)).1)
          | err e ↦ err (Error.bad_option e)
          | fault x ↦ fault x
        ])
  unfolding read_option
  option_step a b c d bs e =
      let Out : Type 0 = Result (Error E) (Opt × Lexer) in
      let parsed : ℕ → Slice × Lexer → Out = λ code r. elim (k.parse code r.0) [
        | ok opt ↦ ok (opt, r.1)
        | err e ↦ err (Error.bad_option e)
        | fault x ↦ fault x
      ] in
      let counted : ℕ → ℕ × Lexer → Out = λ code r. parsed code (u.consume r.0 r.1) in
      let coded : ℕ × Lexer → Out = λ r. counted r.0 (u.read16 r.1) in
      ap coded (u.read16_cons a b (c ∷ d ∷ bs) e)
      ∙ ap (counted (a * 256 + b)) (u.read16_cons c d bs e)

  pub parsed_eq :
      (r : Result E Opt) (b c : Lexer) (o : Opt)
      → ◌≡◌ {A = Result (Error E) (Opt × Lexer)}
          (elim r [ ok opt ↦ ok (opt, b) | err e ↦ err (Error.bad_option e) | fault x ↦ fault x ])
          (ok (o, c))
      → (r ≡ ok o) × (b ≡ c)
  parsed_eq (ok opt) b c o h = let q = ok-injective h in (ap (λ p. ok p.0) q, ap (λ p. p.1) q)
  parsed_eq (err e) b c o h = cc
  parsed_eq (fault x) b c o h = cc

  pub option_write :
      (o : Opt) (bs : Bytes) (e : Bool)
      → write_option k u o (holds bs e) ≡ holds (bs ++ option_bytes k o) e
  unfolding write_option
  option_write o bs e =
      let n = length (k.value o) in
      let coded = bs ++ k.code o / 256 % 256 ∷ k.code o % 256 ∷ [] in
      ap (λ b. u.write_bytes (k.value o) (u.write16 n b)) (u.write16_law (k.code o) bs e)
      ∙ ap (u.write_bytes (k.value o)) (u.write16_law n coded e)
      ∙ u.write_bytes_law (k.value o) (coded ++ n / 256 % 256 ∷ n % 256 ∷ []) e
      ∙ ap (λ t. holds t e)
          (append_assoc coded (n / 256 % 256 ∷ n % 256 ∷ []) (k.value o)
            ∙ append_assoc bs (k.code o / 256 % 256 ∷ k.code o % 256 ∷ [])
                (n / 256 % 256 ∷ n % 256 ∷ k.value o))
