-- ===== src/Dhcpv4/Options/Decode.antt =====
-- `fromBytesCheckEnd` of dhcpv4/options.go as a whole: the inputs that it accepts, and its fuel.
use dhcp.Prelude.{
  ℕ, zero, suc, ◌≡◌, ◌≢◌, refl, Bool, true, false, List, [], ◌∷◌, leb, ◌<◌, ◌≤◌, length-drop, ◌==◌,
  if◌then◌else◌, length, take, drop, Bytes, ok, err, fault, Fault, arith, inl, inr, ◌⊎◌, Bool-cases,
}
use dhcp.Uio.{Uio}
use dhcp.Dhcpv4.Options.{
  Options, Stop, Error, append_option, from_loop, at_end, at_eof, short, spent, padding_loop,
  from_bytes_check_end, check_end,
}
use dhcp.Dhcpv4.Options.Loop.{loop_nil, loop_last, loop_more}
use dhcp.Dhcpv4.Options.Grammar.{Area, append_all, IsPadding, loop-Area, loop_sound, Area-shorter}

module _ (u : Uio) where
  open u use {Lexer, holds, len_law, read8_nil, read8_cons, new_law}

  pub padding_nil : (f : ℕ) (e : Bool) → padding_loop u (suc f) (holds [] e) ≡ ok tt
  unfolding padding_loop
  padding_nil f e = ground (arith, len_law [] e)

  padding_cons :
      (f b : ℕ) (bs : Bytes) (e : Bool)
      → padding_loop u (suc f) (holds (b ∷ bs) e)
        ≡ (if b == 0 then padding_loop u f (holds bs e) else err Error.invalid_options)
  unfolding padding_loop
  padding_cons f b bs e = ground (arith, len_law (b ∷ bs) e, read8_cons b bs e)

  padding-IsPadding :
      (f : ℕ) (bs : Bytes) (e : Bool)
      → length bs < f
      → IsPadding bs
      → padding_loop u f (holds bs e) ≡ ok tt
  padding-IsPadding zero bs e h p = absurd (omega arith)
  padding-IsPadding (suc f) [] e h p = padding_nil f e
  padding-IsPadding (suc f) (b ∷ bs) e h p =
      ground (arith, padding_cons f b bs e, padding-IsPadding f bs e (omega arith) p.1)

  IsPadding-sound :
      (f : ℕ) (bs : Bytes) (e : Bool) → padding_loop u f (holds bs e) ≡ ok tt → IsPadding bs
  IsPadding-sound zero bs e h = unfold padding_loop in cc
  IsPadding-sound (suc f) [] e h = tt
  IsPadding-sound (suc f) (b ∷ bs) e h = elim (Bool-cases (b == 0)) [
    | inl z ↦ (ground arith, IsPadding-sound f bs e (ground (arith, padding_cons f b bs e)))
    | inr n ↦ ground (arith, padding_cons f b bs e)
  ]

  padding-ne-fault :
      (f : ℕ) (bs : Bytes) (e : Bool) (x : Fault)
      → length bs < f
      → padding_loop u f (holds bs e) ≢ fault x
  padding-ne-fault zero bs e x h = absurd (omega arith)
  padding-ne-fault (suc f) [] e x h = λ p. cc (padding_nil f e)
  padding-ne-fault (suc f) (b ∷ bs) e x h =
      ground (arith, padding_cons f b bs e, padding-ne-fault f bs e x)

  -- How the loop ends with fuel enough.
  record Ends (bs : Bytes) (r : Options × Lexer × Stop) : Type 0 where
    map_after : Options
    rest : Bytes
    failed : Bool
    stop : Stop
    result : r ≡ (map_after, holds rest failed, stop)
    not_spent : stop ≢ spent
    no_longer : length rest ≤ length bs
    eof : stop ≡ at_eof → rest ≡ []

  Ends-more :
      {bs bs₁ : Bytes} {r : Options × Lexer × Stop}
      → length bs₁ ≤ length bs
      → Ends bs₁ r
      → Ends bs r
  Ends-more l x = record {
    map_after = x.map_after;
    rest = x.rest;
    failed = x.failed;
    stop = x.stop;
    result = x.result;
    not_spent = x.not_spent;
    no_longer = omega (arith, x.no_longer);
    eof = x.eof;
  }

  Ends-at :
      {bs rest : Bytes} (o : Options) (e : Bool) (s : Stop)
      → length rest ≤ length bs
      → s ≢ spent
      → (s ≡ at_eof → rest ≡ [])
      → Ends bs (o, holds rest e, s)
  Ends-at {rest} o e s l n z = record {
    map_after = o;
    rest = rest;
    failed = e;
    stop = s;
    result = refl;
    not_spent = n;
    no_longer = l;
    eof = z;
  }

  Ends-if :
      {bs : Bytes} {r s : Options × Lexer × Stop} (b : Bool)
      → Ends bs r
      → Ends bs s
      → Ends bs (if b then r else s)
  Ends-if true x y = x
  Ends-if false x y = y

  loop-Ends :
      (f : ℕ) (bs : Bytes) (o : Options) (e : Bool)
      → length bs < f
      → Ends bs (from_loop u f o (holds bs e))
  loop-Ends zero bs o e h = absurd (omega arith)
  loop-Ends (suc f) [] o e h =
      rw (loop_nil u f o e) (Ends-at o e at_eof (omega arith) (ground arith) (λ _. refl))
  loop-Ends (suc f) (c ∷ []) o e h = rw (loop_last u f c o e) (
      Ends-if (c == 0) (Ends-more (omega arith) (loop-Ends f [] o e (omega arith))) (
        Ends-if (c == 255) (Ends-at o e at_end (omega arith) (ground arith) (λ _. refl))
          (Ends-more (omega arith) (loop-Ends f [] (append_option c [] o) true (omega arith)))))
  loop-Ends (suc f) (c ∷ n ∷ bs) o e h =
      let shorter : length (drop n bs) ≤ length bs = omega (arith, length-drop n bs) in
      rw (loop_more u f c n bs o e) (
        Ends-if (c == 0) (Ends-more (omega arith) (loop-Ends f (n ∷ bs) o e (omega arith))) (
          Ends-if (c == 255) (Ends-at o e at_end (omega arith) (ground arith) (λ q. ground arith)) (
            Ends-if (leb n (length bs))
              (Ends-more (omega arith)
                (loop-Ends f (drop n bs) (append_option c (take n bs) o) e (omega arith)))
              (Ends-at o true short (omega arith) (ground arith) (λ q. ground arith)))))

  check_end-ne-fault :
      (check : Bool) (f : ℕ) (rest : Bytes) (e : Bool) (s : Stop) (x : Fault)
      → s ≢ spent
      → length rest < f
      → check_end u check f (holds rest e) s ≢ fault x
  unfolding check_end
  check_end-ne-fault check f rest e at_end x n h = padding-ne-fault f rest e x h
  check_end-ne-fault true f rest e at_eof x n h = λ p. cc
  check_end-ne-fault false f rest e at_eof x n h = padding-ne-fault f rest e x h
  check_end-ne-fault check f rest e short x n h = λ p. cc
  check_end-ne-fault check f rest e spent x n h = absurd (n refl)

  -- Parsing ends on every input: neither loop runs out of fuel, and nothing panics.
  pub from_bytes_check_end-ne-fault :
      (bs : Bytes) (check : Bool) (o : Options) (x : Fault)
      → (from_bytes_check_end u bs check o).1 ≢ fault x
  unfolding from_bytes_check_end
  from_bytes_check_end-ne-fault [] check o x = λ p. cc
  from_bytes_check_end-ne-fault (b ∷ bs) check o x =
      let ends = loop-Ends (suc (length (b ∷ bs))) (b ∷ bs) o false (omega arith) in
      rw (new_law (b ∷ bs), ends.result)
        (check_end-ne-fault check (suc (length (b ∷ bs))) ends.rest ends.failed ends.stop x
          ends.not_spent (omega (arith, ends.no_longer)))

  -- An options area with only padding behind its end option is read, for any map to begin with.
  pub from_bytes_check_end-Area :
      {bs rest : Bytes} {opts : List (ℕ × Bytes)} (check : Bool) (o : Options)
      → Area bs opts rest
      → IsPadding rest
      → from_bytes_check_end u bs check o ≡ (append_all opts o, ok tt)
  unfolding from_bytes_check_end check_end
  from_bytes_check_end-Area {bs = []} check o a p = absurd (omega (arith, Area-shorter a))
  from_bytes_check_end-Area {bs = b ∷ bs} {rest} check o a p = rw (
    new_law (b ∷ bs),
    loop-Area u (suc (length (b ∷ bs))) o false a (omega arith),
    padding-IsPadding (suc (length (b ∷ bs))) rest false (omega (arith, Area-shorter a)) p,
  )

  -- What was read when the end option is required.
  pub record Decoded (o o' : Options) (bs : Bytes) : Type 0 where
    pub opts : List (ℕ × Bytes)
    pub rest : Bytes
    pub area : Area bs opts rest
    pub padding : IsPadding rest
    pub joined : o' ≡ append_all opts o

  check_end-true :
      (f : ℕ) (buf : Lexer) (s : Stop)
      → check_end u true f buf s ≡ ok tt
      → (s ≡ at_end) × (padding_loop u f buf ≡ ok tt)
  unfolding check_end
  check_end-true f buf at_end p = (refl, p)
  check_end-true f buf at_eof p = cc
  check_end-true f buf short p = cc
  check_end-true f buf spent p = cc

  -- Only options areas are accepted when the end option is required, but for the empty input, and
  -- the map is what the area says.
  pub from_bytes_check_end_sound :
      (bs : Bytes) (o : Options)
      → (from_bytes_check_end u bs true o).1 ≡ ok tt
      → (bs ≡ []) ⊎ Decoded o (from_bytes_check_end u bs true o).0 bs
  unfolding from_bytes_check_end
  from_bytes_check_end_sound [] o p = inl refl
  from_bytes_check_end_sound (b ∷ bs) o p =
      let f = suc (length (b ∷ bs)) in
      let run = from_loop u f o (u.new (b ∷ bs)) in
      let (ended, padded) = check_end-true f run.1 run.2 p in
      let started : from_loop u f o (holds (b ∷ bs) false) ≡ (run.0, run.1, at_end) =
        rw (← new_law (b ∷ bs)) (rw (← ended)) in
      let r = loop_sound u f (b ∷ bs) o false started in
      inr (record {
        opts = r.opts;
        rest = r.rest;
        area = r.area;
        padding = IsPadding-sound f r.rest false (rw r.lexer at padded);
        joined = r.joined;
      })
