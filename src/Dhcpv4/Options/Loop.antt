-- ===== src/Dhcpv4/Options/Loop.antt =====
-- The rounds of the reading loop of dhcpv4/options.go, one equation for each form of the input.
use dhcp.Prelude.{
  ℕ, zero, suc, ◌≡◌, Bool, true, [], ◌∷◌, leb, ◌==◌, if◌then◌else◌, length, take, drop, Bytes,
  arith, Bool-cases, inl, inr, ◌<◌, sym, ◌∙◌, length-drop,
}
use dhcp.Uio.{Uio}
use dhcp.Dhcpv4.Options.{Options, append_option, from_loop, at_end, at_eof, short}

module _ (u : Uio) where
  open u use {Lexer, holds, len_law, read8_nil, read8_cons, consume_law}

  pub loop_nil :
      (f : ℕ) (o : Options) (e : Bool)
      → from_loop u (suc f) o (holds [] e) ≡ (o, holds [] e, at_eof)
  unfolding from_loop
  loop_nil f o e = simp len_law

  pub loop_last :
      (f c : ℕ) (o : Options) (e : Bool)
      → from_loop u (suc f) o (holds (c ∷ []) e) ≡ (
          if c == 0
          then from_loop u f o (holds [] e)
          else if c == 255
          then (o, holds [] e, at_end)
          else from_loop u f (append_option c [] o) (holds [] true))
  unfolding from_loop
  loop_last f c o e = simp (len_law, read8_cons, read8_nil, consume_law) (ground arith)

  pub loop_more :
      (f c n : ℕ) (bs : Bytes) (o : Options) (e : Bool)
      → from_loop u (suc f) o (holds (c ∷ n ∷ bs) e) ≡ (
          if c == 0
          then from_loop u f o (holds (n ∷ bs) e)
          else if c == 255
          then (o, holds (n ∷ bs) e, at_end)
          else if leb n (length bs)
          then from_loop u f (append_option c (take n bs) o) (holds (drop n bs) e)
          else (o, holds bs true, short))
  unfolding from_loop
  loop_more f c n bs o e = elim (Bool-cases (leb n (length bs))) [
    | inl fits ↦ simp (len_law, read8_cons, consume_law, fits) (ground arith)
    | inr long ↦ simp (len_law, read8_cons, consume_law, long) (ground arith)
  ]

  -- Any fuel above the number of bytes gives the same result.
  pub loop_fuel :
      (f g : ℕ) (bs : Bytes) (o : Options) (e : Bool)
      → length bs < f
      → length bs < g
      → from_loop u f o (holds bs e) ≡ from_loop u g o (holds bs e)
  loop_fuel zero g bs o e h k = absurd (omega arith)
  loop_fuel (suc f) zero bs o e h k = absurd (omega arith)
  loop_fuel (suc f) (suc g) [] o e h k = loop_nil f o e ∙ sym (loop_nil g o e)
  loop_fuel (suc f) (suc g) (c ∷ []) o e h k = ground (
    arith,
    loop_last f c o e,
    loop_last g c o e,
    loop_fuel f g [] o e,
    loop_fuel f g [] (append_option c [] o) true,
  )
  loop_fuel (suc f) (suc g) (c ∷ n ∷ bs) o e h k = ground (
    arith,
    loop_more f c n bs o e,
    loop_more g c n bs o e,
    length-drop n bs,
    loop_fuel f g (n ∷ bs) o e,
    loop_fuel f g (drop n bs) (append_option c (take n bs) o) e,
  )
