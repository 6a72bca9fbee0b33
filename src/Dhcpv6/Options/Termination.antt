-- ===== src/Dhcpv6/Options/Termination.antt =====
-- dhcpv6/options.go: the loop of `FromBytesWithParser` ends, for a parser that does.
use dhcp.Prelude.{
  ℕ, ◌+◌, ◌*◌, ◌≤◌, ◌<◌, ◌≡◌, ◌≢◌, refl, sym, ap, ◌∙◌, Bool, true, ◌∷◌, none, some, length, take,
  drop, Bytes, Slice, elements, ok, fault, Fault, arith, le→leb, lt→leb, length-take, length-drop,
}
use native.Mathlib.Decide.{dec_le}
use dhcp.Uio.{Uio}
use dhcp.Uio.Items.{Shorter}
use dhcp.Uio.Items.Codec.{parse_items-ne-fault}
use dhcp.Dhcpv6.Options.{Kind, unread, read_option, from_bytes_with_parser}
use dhcp.Dhcpv6.Options.Step.{option_step, parsed_eq}
use dhcp.Dhcpv6.Options.RoundTrip.{IsCodec, option_item, from_bytes_items}

-- The parser of a kind neither panics nor runs out of fuel on values shorter than `limit`.
pub record Stops {E Opt : Type 0} (k : Kind E Opt) (limit : ℕ) : Type 0 where
  pub parse-ne-fault :
      (c : ℕ) (d : Slice) (x : Fault) → length (elements d) < limit → k.parse c d ≢ fault x

module _ {E Opt : Type 0} (u : Uio) (k : Kind E Opt) where
  open u use {Lexer, holds}

  -- What `Consume` gives and what it leaves.
  record Consumed (n : ℕ) (bs : Bytes) (e : Bool) : Type 0 where
    given : Slice
    rest : Bytes
    failed : Bool
    got : u.consume n (holds bs e) ≡ (given, holds rest failed)
    given-le : length (elements given) ≤ length bs
    rest-le : length rest ≤ length bs

  consume-Consumed : (n : ℕ) (bs : Bytes) (e : Bool) → Consumed n bs e
  consume-Consumed n bs e = elim (dec_le n (length bs)) [
    | yes fits ↦ record {
      given = some (take n bs);
      rest = drop n bs;
      failed = e;
      got = u.consume_law n bs e ∙ rw (le→leb n (length bs) fits) refl;
      given-le = omega (arith, length-take n bs);
      rest-le = omega (arith, length-drop n bs);
    }
    | no long ↦ record {
      given = none;
      rest = bs;
      failed = true;
      got = u.consume_law n bs e ∙ rw (lt→leb n (length bs) (omega arith)) refl;
      given-le = omega arith;
      rest-le = omega arith;
    }
  ]

  option-Shorter :
      (bs : Bytes) (e : Bool) (o : Opt) (b : Lexer)
      → 4 ≤ length bs
      → read_option k u (holds bs e) ≡ ok (o, b)
      → Shorter u bs b
  option-Shorter (w ∷ x ∷ y ∷ z ∷ bs) e o b h p =
      let q = consume-Consumed (y * 256 + z) bs e in
      let r = u.consume (y * 256 + z) (holds bs e) in
      let (parsed, left) =
        parsed_eq u k (k.parse (w * 256 + x) r.0) r.1 b o
          (sym (option_step u k w x y z bs e) ∙ p) in
      let le = q.rest-le in
      record {
        rest = q.rest;
        failed = q.failed;
        left = sym left ∙ ap (λ t. t.1) q.got;
        shorter = omega arith;
      }
  option-Shorter _ e o b h p = absurd (omega arith)

  option-ne-fault :
      (n : ℕ) (t : Stops k n) (bs : Bytes) (e : Bool) (f : Fault)
      → length bs ≤ n
      → 4 ≤ length bs
      → read_option k u (holds bs e) ≢ fault f
  option-ne-fault n t (w ∷ x ∷ y ∷ z ∷ bs) e f small h p =
      let q = consume-Consumed (y * 256 + z) bs e in
      let le = q.given-le in
      let len : length (elements (u.consume (y * 256 + z) (holds bs e)).0)
          ≡ length (elements q.given) =
        ap (λ t. length (elements t.0)) q.got in
      ground (
        arith,
        option_step u k w x y z bs e,
        p,
        t.parse-ne-fault (w * 256 + x) (u.consume (y * 256 + z) (holds bs e)).0 f (omega arith),
      )
  option-ne-fault n t _ e f small h p = absurd (omega arith)

  -- Parsing a sequence of options ends, and without a panic, on every input, if the parser of an
  -- option does on every value that is shorter than the input.
  pub from_bytes_with_parser-ne-fault :
      (s : IsCodec k) (bs : Bytes) (x : Fault)
      → Stops k (length bs)
      → from_bytes_with_parser k u bs ≢ fault x
  from_bytes_with_parser-ne-fault s bs x t = rw (from_bytes_items u k s bs) (
      parse_items-ne-fault u (option_item u k s) unread bs x
        (record { read_shorter = option-Shorter; read-ne-fault = option-ne-fault (length bs) t }))
