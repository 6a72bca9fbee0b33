-- ===== src/Uio/Items/Codec.antt =====
-- Codecs of sequences: a `FromBytes` that reads items while there are any and ends with
-- `FinError`, and a `ToBytes` that writes them one after the other.
use dhcp.Prelude.{
  suc, ◌≡◌, ◌≢◌, refl, sym, ap, ◌∙◌, Bool, true, false, List, [], if◌then◌else◌, length, All, Bytes,
  IsByte, Result, Slice, elements, ok, err, fault, Fault, ◌>>=◌, >>=-eq-ok, >>=-ne-fault, arith,
  ok-injective,
}
use mathlib.Core.Path.{subst}
use dhcp.Uio.{Uio}
use dhcp.Uio.Items.{each, write_each, encoding, finish, Item, Sound, Ends}
use dhcp.Uio.Items.Loop.{each-encoding, write_each-encoding, each_sound, each-ne-fault}

finish_ok :
    {E A : Type 0} (e : E) (a : A) {x : A} (c : Bool)
    → ◌≡◌ {A = Result E A} (if c then err e else ok a) (ok x)
    → (c ≡ false) × (a ≡ x)
finish_ok e a true h = cc
finish_ok e a false h = (refl, ok-injective h)

pub finish-ne-fault :
    {E A : Type 0} (e : E) (a : A) (x : Fault) (c : Bool)
    → ◌≢◌ {A = Result E A} (if c then err e else ok a) (fault x)
finish-ne-fault e a x true h = cc
finish-ne-fault e a x false h = cc

module _ (u : Uio) {E A : Type 0} (i : Item u E A) (e : E) where
  open u use {Lexer, holds}

  abbrev pub parse_items : Bytes → Result E (List A)
  parse_items bs = each u i.need i.read (suc (length bs)) [] (u.new bs) >>= λ r. finish u e r.0 r.1

  abbrev pub print_items : List A → Slice
  print_items xs = u.contents (write_each u i.write xs (u.new []))

  pub print_items-encoding :
      (xs : List A) → All i.IsValid xs → elements (print_items xs) ≡ encoding i.enc xs
  print_items-encoding xs v =
      let written : write_each u i.write xs (u.new []) ≡ holds (encoding i.enc xs) false =
        rw (u.new_law []) (write_each-encoding u i xs [] false v) in
      ap (λ b. elements (u.contents b)) written ∙ u.contents_law (encoding i.enc xs) false

  pub parse_items-encoding :
      (xs : List A) → All i.IsValid xs → parse_items (encoding i.enc xs) ≡ ok xs
  parse_items-encoding xs v =
      rw
        (
          u.new_law (encoding i.enc xs),
          each-encoding u i (suc (length (encoding i.enc xs))) [] xs false v (omega arith),
        )
        (rw (u.fin_failed_law [] false))

  -- What was printed is parsed.
  pub parse_items-print_items :
      (xs : List A) → All i.IsValid xs → parse_items (elements (print_items xs)) ≡ ok xs
  parse_items-print_items xs v = rw (print_items-encoding xs v) (parse_items-encoding xs v)

  -- What parses is the encoding of what it parses to.
  pub parse_items_sound :
      (t : Sound u i) (bs : Bytes) (xs : List A)
      → All IsByte bs
      → parse_items bs ≡ ok xs
      → (bs ≡ encoding i.enc xs) × All i.IsValid xs
  parse_items_sound t bs xs byte h =
      let f = suc (length bs) in
      let (r, got, done) =
        >>=-eq-ok (each u i.need i.read f [] (u.new bs)) (λ r. finish u e r.0 r.1) h in
      let (read_all, same) = finish_ok e r.0 (u.fin_failed r.1) done in
      let q =
        each_sound u i t f [] bs r.0 r.1 byte
          (ap (each u i.need i.read f []) (sym (u.new_law bs)) ∙ got) read_all in
      let eq : q.items ≡ xs = sym q.result ∙ same in
      (q.bytes ∙ ap (encoding i.enc) eq, subst (All i.IsValid) eq q.valid)

  -- Parsing ends.
  pub parse_items-ne-fault :
      (bs : Bytes) (x : Fault) → Ends u i (length bs) → parse_items bs ≢ fault x
  parse_items-ne-fault bs x t =
      let f = suc (length bs) in
      rw (u.new_law bs) (
        >>=-ne-fault (each u i.need i.read f [] (holds bs false)) (λ r. finish u e r.0 r.1) x
          (λ y. each-ne-fault u i (length bs) t f [] bs false y (omega arith) (omega arith))
          (λ r. finish-ne-fault e r.0 x (u.fin_failed r.1)))
