-- ===== src/Dhcpv6/Options/RoundTrip.antt =====
-- dhcpv6/options.go: `ToBytes` against `FromBytesWithParser`, over what `IsCodec` asks of
-- each option and its parser.
use dhcp.Prelude.{
  ℕ, ◌+◌, ◌*◌, ◌/◌, ◌%◌, ◌<◌, ◌≤◌, ◌≡◌, refl, ap, sym, ◌∙◌, Bool, true, List, [], ◌∷◌, ◌++◌, none,
  some, length, Bytes, elements, take, drop, All, IsByte, ok, arith, take-length-append,
  drop-length-append, le→leb, lt→leb, length-append, length-take, take-append-drop, All-take, ==_ne,
}
use native.Mathlib.Decide.{dec_le}
use dhcp.Uio.{Uio}
use dhcp.Uio.Items.{Item, Taken, whole, cut}
use dhcp.Uio.Items.Codec.{
  parse_items, parse_items-print_items, parse_items_sound, parse_items-encoding,
  print_items-encoding,
}
use dhcp.Dhcpv6.Options.Step.{option_bytes, option_write, option_step, parsed_eq}
use dhcp.Dhcpv6.Options.{
  Kind, Error, unread, write_option, read_option, to_bytes, from_bytes_with_parser,
}

-- What the container needs of a kind of options and its parser.
pub record IsCodec {E Opt : Type 0} (k : Kind E Opt) : Type 1 where
  pub IsValid : Opt → Type 0
  pub code_word : (o : Opt) → IsValid o → k.code o < 65536
  pub value_fits : (o : Opt) → IsValid o → length (k.value o) < 65536
  pub parse_value : (o : Opt) → IsValid o → k.parse (k.code o) (some (k.value o)) ≡ ok o

-- What it needs besides for `FromBytesWithParser` to accept only what `ToBytes` writes.
pub record IsSound {E Opt : Type 0} (k : Kind E Opt) (s : IsCodec k) : Type 0 where
  pub parse_sound :
      (c : ℕ) (d : Bytes) (o : Opt)
      → c < 65536
      → length d < 65536
      → All IsByte d
      → k.parse c (some d) ≡ ok o
      → s.IsValid o × (k.code o ≡ c) × (k.value o ≡ d)

module _ {E Opt : Type 0} (u : Uio) (k : Kind E Opt) (s : IsCodec k) where
  open u use {Lexer, holds}

  pub option_enc :
      (o : Opt) (bs : Bytes) (e : Bool)
      → s.IsValid o
      → read_option k u (holds (option_bytes k o ++ bs) e) ≡ ok (o, holds bs e)
  option_enc o bs e v =
      let c : k.code o / 256 % 256 * 256 + k.code o % 256 ≡ k.code o =
        omega (arith, s.code_word o v) in
      let n : length (k.value o) / 256 % 256 * 256 + length (k.value o) % 256 ≡ length (k.value o) =
        omega (arith, s.value_fits o v) in
      let fits =
        le→leb (length (k.value o)) (length (k.value o ++ bs))
          (omega (arith, length-append (k.value o) bs)) in
      let got : u.consume (length (k.value o)) (holds (k.value o ++ bs) e)
          ≡ (some (k.value o), holds bs e) =
        u.consume_law (length (k.value o)) (k.value o ++ bs) e
        ∙ rw (fits, take-length-append (k.value o) bs, drop-length-append (k.value o) bs) refl in
      option_step u k (k.code o / 256 % 256) (k.code o % 256) (length (k.value o) / 256 % 256)
        (length (k.value o) % 256) (k.value o ++ bs) e
      ∙ rw (c, n, got, s.parse_value o v) (rw (n, got) refl)

  header :
      (a b c d : ℕ) (bs : Bytes) (o : Opt)
      → a < 256
      → b < 256
      → c < 256
      → d < 256
      → k.code o ≡ a * 256 + b
      → length (k.value o) ≡ c * 256 + d
      → k.value o ≡ take (c * 256 + d) bs
      → a ∷ b ∷ c ∷ d ∷ bs ≡ option_bytes k o ++ drop (c * 256 + d) bs
  header a b c d bs o ha hb hc hd code len val =
      let a' : a ≡ k.code o / 256 % 256 = omega (arith, code) in
      let b' : b ≡ k.code o % 256 = omega (arith, code) in
      let c' : c ≡ length (k.value o) / 256 % 256 = omega (arith, len) in
      let d' : d ≡ length (k.value o) % 256 = omega (arith, len) in
      let bs' : bs ≡ k.value o ++ drop (c * 256 + d) bs =
        sym (take-append-drop (c * 256 + d) bs) ∙ ap (λ t. t ++ drop (c * 256 + d) bs) (sym val) in
      λ i. a' i ∷ b' i ∷ c' i ∷ d' i ∷ bs' i

  option-Taken :
      (t : IsSound k s) (bs : Bytes) (e : Bool) (o : Opt) (l : Lexer)
      → All IsByte bs
      → 4 ≤ length bs
      → read_option k u (holds bs e) ≡ ok (o, l)
      → Taken u s.IsValid (option_bytes k) bs e o l
  option-Taken t (a ∷ b ∷ c ∷ d ∷ bs) e o l (ha, (hb, (hc, (hd, byte)))) h p =
      let code = a * 256 + b in
      let n = c * 256 + d in
      let r = u.consume n (holds bs e) in
      let (parsed, left) =
        parsed_eq u k (k.parse code r.0) r.1 l o (sym (option_step u k a b c d bs e) ∙ p) in
      elim (dec_le n (length bs)) [
        | yes fits ↦
            let same : length (take n bs) ≡ n = omega (arith, length-take n bs) in
            let got : u.consume n (holds bs e) ≡ (some (take n bs), holds (drop n bs) e) =
              u.consume_law n bs e ∙ rw (le→leb n (length bs) fits) refl in
            let (v, is_code, is_value) =
              t.parse_sound code (take n bs) o (omega arith) (omega (arith, same))
                (All-take IsByte n bs byte) (rw got at parsed) in
            whole (drop n bs) v
              (header a b c d bs o ha hb hc hd is_code (ap length is_value ∙ same) is_value)
              (sym left ∙ ap (λ t. t.1) got)
        | no long ↦
            let got : u.consume n (holds bs e) ≡ (none, holds bs true) =
              u.consume_law n bs e ∙ rw (lt→leb n (length bs) (omega arith)) refl in
            cut bs (omega arith) byte (sym left ∙ ap (λ t. t.1) got)
      ]
  option-Taken t _ e o l byte h p = absurd (omega arith)

  abbrev pub option_item : Item u (Error E) Opt
  option_item = record {
    read = read_option k u;
    write = write_option k u;
    enc = option_bytes k;
    need = 4;
    IsValid = s.IsValid;
    need_pos = omega arith;
    need-le = λ o h. omega arith;
    read_enc = option_enc;
    write_enc = λ o bs e h. option_write u k o bs e;
  }

  pub from_bytes_items :
      (bs : Bytes) → from_bytes_with_parser k u bs ≡ parse_items u option_item unread bs
  unfolding from_bytes_with_parser
  from_bytes_items [] = sym (parse_items-encoding u option_item unread [] tt)
  from_bytes_items (b ∷ bs) = rw (==_ne (length (b ∷ bs)) 0 (omega arith)) refl

  -- Options that the wire can carry are read back in their order.
  pub from_bytes_with_parser-to_bytes :
      (o : List Opt)
      → All s.IsValid o
      → from_bytes_with_parser k u (elements (to_bytes k u o)) ≡ ok o
  unfolding to_bytes
  from_bytes_with_parser-to_bytes o v =
      from_bytes_items _ ∙ parse_items-print_items u option_item unread o v

  -- What is accepted is a sequence of options that the wire can carry, and they are written back
  -- as the same bytes.
  pub from_bytes_with_parser_sound :
      (t : IsSound k s) (bs : Bytes) (o : List Opt)
      → All IsByte bs
      → from_bytes_with_parser k u bs ≡ ok o
      → All s.IsValid o × (elements (to_bytes k u o) ≡ bs)
  unfolding to_bytes
  from_bytes_with_parser_sound t bs o byte h =
      let (e, v) =
        parse_items_sound u option_item unread (record { read_taken = option-Taken t }) bs o byte
          (sym (from_bytes_items bs) ∙ h) in
      (v, print_items-encoding u option_item unread o v ∙ sym e)
