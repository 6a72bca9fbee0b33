-- ===== src/Dhcpv4/Options/Unended.antt =====
-- dhcpv4/options.go on options that no end option closes: those inside the value of an option, as
-- relay agent information and vendor options are.
use dhcp.Prelude.{
  ℕ, zero, suc, ◌≡◌, ◌≢◌, ◌<◌, refl, sym, ◌∙◌, Bool, false, List, [], ◌∷◌, some, ◌==◌, length,
  length-append, Bytes, Slice, elements, All, ok, arith, Bool-cases, inl, inr, ==_iff,
}
use dhcp.Uio.{Uio}
use dhcp.Dhcpv4.Options.{
  Options, empty, update, append_option, from_loop, at_eof, check_end, from_bytes_check_end,
  from_bytes, to_bytes, sorted_keys,
}
use dhcp.Dhcpv4.Options.Loop.{loop_nil}
use dhcp.Dhcpv4.Options.Grammar.{append_all, loop_option}
use dhcp.Dhcpv4.Options.Decode.{padding_nil}
use dhcp.Dhcpv4.Options.Encode.{wire, entries}
use dhcp.Dhcpv4.Options.RoundTrip.{
  IsCode, IsCarried, missing, present, entries-IsCode, append_all-sorted_keys, to_bytes-wire,
}

pub IsCarried-empty : IsCarried empty
IsCarried-empty k = missing

-- A value that is not empty, under a code that the wire can carry.
pub IsCarried-update :
    (c x : ℕ) (d : Bytes) (v : Slice) (o : Options)
    → c ≢ 0
    → c < 255
    → v ≡ some (x ∷ d)
    → IsCarried o
    → IsCarried (update c v o)
unfolding update
IsCarried-update c x d v o nonzero small same carried k = elim (Bool-cases (k == c)) [
  | inl p ↦
      let at_c : k ≡ c = (==_iff k c).0 p in
      rw (p, same) (present x d (λ z. nonzero (sym at_c ∙ z)) (omega arith))
  | inr p ↦ rw p (carried k)
]

module _ (u : Uio) where
  open u use {Lexer, holds, new_law}

  loop-wire :
      (f : ℕ) (opts : List (ℕ × Bytes)) (o : Options) (e : Bool)
      → All IsCode opts
      → length (wire opts) < f
      → from_loop u f o (holds (wire opts) e) ≡ (append_all opts o, holds [] e, at_eof)
  unfolding append_all
  loop-wire zero opts o e v h = absurd (omega arith)
  loop-wire (suc f) [] o e v h = loop_nil u f o e
  loop-wire (suc f) ((c, d) ∷ opts) o e v h =
      loop_option u f c d (wire opts) o e v.0.0 v.0.1
      ∙ loop-wire f opts (append_option c d o) e v.1 (omega (arith, length-append d (wire opts)))

  from_bytes-wire :
      (opts : List (ℕ × Bytes)) (o : Options)
      → All IsCode opts
      → from_bytes u (wire opts) o ≡ (append_all opts o, ok tt)
  unfolding from_bytes from_bytes_check_end check_end
  from_bytes-wire [] o v = unfold append_all in refl
  from_bytes-wire ((c, d) ∷ opts) o v =
      let bs = wire ((c, d) ∷ opts) in
      rw
        (
          new_law bs,
          loop-wire (suc (length bs)) ((c, d) ∷ opts) o false v (omega arith),
          padding_nil u (length bs) false,
        )
        refl

  -- What `Marshal` writes of a map that the wire can carry is read back as the map, with no end
  -- option behind it, if none is required.
  pub from_bytes_unended :
      (o : Options) → IsCarried o → from_bytes u (elements (to_bytes u o)) empty ≡ (o, ok tt)
  from_bytes_unended o v = rw (to_bytes-wire u o) (
      from_bytes-wire (entries (sorted_keys o) o) empty
        (unfold sorted_keys in entries-IsCode o 0 256 v)
      ∙ rw (append_all-sorted_keys o v) refl)
