-- ===== src/Dhcpv4/Options/Grammar.antt =====
-- The options area of dhcpv4/options.go as a grammar, and the reading loop on it.
use dhcp.Prelude.{
  ℕ, zero, suc, ◌≡◌, ◌≢◌, refl, Bool, true, List, [], ◌∷◌, ◌++◌, ap, sym, ◌∙◌, ◌<◌, ◌≤◌,
  length-append, take-length-append, drop-length-append, length-drop, length-take, take-append-drop,
  length, take, drop, Bytes, arith, All,
}
use native.Mathlib.Decide.{ℕ_discrete, dec_le}
use dhcp.Uio.{Uio}
use dhcp.Dhcpv4.Options.{Options, Stop, append_option, from_loop, at_end, at_eof, short}
use dhcp.Dhcpv4.Options.Loop.{loop_nil, loop_last, loop_more}

-- `Area bs opts rest`: `bs` is pad bytes and options, an end byte, and then `rest`.
pub data Area : Bytes → List (ℕ × Bytes) → Bytes → Type 0 where
  end : {bs rest : Bytes} → bs ≡ 255 ∷ rest → Area bs [] rest
  pad : {bs rest : Bytes} {opts : List (ℕ × Bytes)} → Area bs opts rest → Area (0 ∷ bs) opts rest
  option :
      {bs more rest : Bytes} {opts : List (ℕ × Bytes)} (c : ℕ) (d : Bytes)
      → c ≢ 0
      → c ≢ 255
      → more ≡ d ++ bs
      → Area bs opts rest
      → Area (c ∷ length d ∷ more) ((c, d) ∷ opts) rest

-- The map after the options of a list, in their order: values of one code are joined.
unfoldable pub append_all : List (ℕ × Bytes) → Options → Options
append_all [] o = o
append_all ((c, d) ∷ opts) o = append_all opts (append_option c d o)

abbrev pub IsPadding : Bytes → Type 0
IsPadding = All (λ b. b ≡ 0)

pub Area-shorter :
    {bs rest : Bytes} {opts : List (ℕ × Bytes)} → Area bs opts rest → length rest < length bs
Area-shorter (end s) = omega (arith, ap length s)
Area-shorter (pad a) = omega (arith, Area-shorter a)
Area-shorter (option {bs} c d h k s a) =
    omega (arith, Area-shorter a, ap length s, length-append d bs)

module _ (u : Uio) where
  open u use {Lexer, holds, len_law, read8_nil, read8_cons, new_law}

  pub loop_option :
      (f c : ℕ) (d bs : Bytes) (o : Options) (e : Bool)
      → c ≢ 0
      → c ≢ 255
      → from_loop u (suc f) o (holds (c ∷ length d ∷ (d ++ bs)) e)
        ≡ from_loop u f (append_option c d o) (holds bs e)
  loop_option f c d bs o e h k = ground (
    arith,
    loop_more u f c (length d) (d ++ bs) o e,
    length-append d bs,
    take-length-append d bs,
    drop-length-append d bs,
  )

  loop_end :
      (f : ℕ) (bs : Bytes) (o : Options) (e : Bool)
      → from_loop u (suc f) o (holds (255 ∷ bs) e) ≡ (o, holds bs e, at_end)
  loop_end f [] o e = loop_last u f 255 o e
  loop_end f (n ∷ bs) o e = loop_more u f 255 n bs o e

  loop_pad :
      (f : ℕ) (bs : Bytes) (o : Options) (e : Bool)
      → from_loop u (suc f) o (holds (0 ∷ bs) e) ≡ from_loop u f o (holds bs e)
  loop_pad f [] o e = loop_last u f 0 o e
  loop_pad f (n ∷ bs) o e = loop_more u f 0 n bs o e

  pub loop-Area :
      {bs rest : Bytes} {opts : List (ℕ × Bytes)} (f : ℕ) (o : Options) (e : Bool)
      → Area bs opts rest
      → length bs < f
      → from_loop u f o (holds bs e) ≡ (append_all opts o, holds rest e, at_end)
  unfolding append_all
  loop-Area zero o e a h = absurd (omega arith)
  loop-Area (suc f) o e (end {rest} s) h = rw s (loop_end f rest o e)
  loop-Area (suc f) o e (pad {bs} a) h = loop_pad f bs o e ∙ loop-Area f o e a (omega arith)
  loop-Area (suc f) o e (option {bs} c d h0 h1 s a) h =
      rw s (loop_option f c d bs o e h0 h1)
      ∙ loop-Area f (append_option c d o) e a (omega (arith, ap length s, length-append d bs))

  -- What a round that ends at the end option has read.
  pub record Read (o o' : Options) (bs : Bytes) (e : Bool) (buf : Lexer) : Type 0 where
    pub opts : List (ℕ × Bytes)
    pub rest : Bytes
    pub area : Area bs opts rest
    pub shorter : length rest < length bs
    pub lexer : buf ≡ holds rest e
    pub joined : o' ≡ append_all opts o

  loop_take :
      (f c n : ℕ) (bs : Bytes) (o : Options) (e : Bool)
      → c ≢ 0
      → c ≢ 255
      → n ≤ length bs
      → from_loop u (suc f) o (holds (c ∷ n ∷ bs) e)
        ≡ from_loop u f (append_option c (take n bs) o) (holds (drop n bs) e)
  loop_take f c n bs o e h k l = ground (arith, loop_more u f c n bs o e)

  loop_short :
      (f c n : ℕ) (bs : Bytes) (o : Options) (e : Bool)
      → c ≢ 0
      → c ≢ 255
      → length bs < n
      → from_loop u (suc f) o (holds (c ∷ n ∷ bs) e) ≡ (o, holds bs true, short)
  loop_short f c n bs o e h k l = ground (arith, loop_more u f c n bs o e)

  loop_bare :
      (f c : ℕ) (o : Options) (e : Bool)
      → c ≢ 0
      → c ≢ 255
      → from_loop u (suc (suc f)) o (holds (c ∷ []) e)
        ≡ (append_option c [] o, holds [] true, at_eof)
  loop_bare f c o e h k =
      ground (arith, loop_last u (suc f) c o e, loop_nil u f (append_option c [] o) true)

  Read-pad :
      {o o' : Options} {bs : Bytes} {e : Bool} {buf : Lexer}
      → Read o o' bs e buf
      → Read o o' (0 ∷ bs) e buf
  Read-pad r = record {
    opts = r.opts;
    rest = r.rest;
    area = pad r.area;
    shorter = omega (arith, r.shorter);
    lexer = r.lexer;
    joined = r.joined;
  }

  Read-end :
      {o o' : Options} {bs : Bytes} {e : Bool} {buf : Lexer}
      → ◌≡◌ {A = Options × Lexer × Stop} (o, holds bs e, at_end) (o', buf, at_end)
      → Read o o' (255 ∷ bs) e buf
  unfolding append_all
  Read-end {bs} p = record {
    opts = [];
    rest = bs;
    area = end refl;
    shorter = omega arith;
    lexer = sym (ap (λ t. t.1) p);
    joined = sym (ap (λ t. t.0) p);
  }

  Read-option :
      {o o' : Options} {e : Bool} {buf : Lexer} (c n : ℕ) (bs : Bytes)
      → c ≢ 0
      → c ≢ 255
      → n ≤ length bs
      → Read (append_option c (take n bs) o) o' (drop n bs) e buf
      → Read o o' (c ∷ n ∷ bs) e buf
  unfolding append_all
  Read-option {o} {o'} {e} {buf} c n bs h k l r =
      let same : length (take n bs) ≡ n = omega (arith, length-take n bs) in
      rw (← same) (record {
        opts = (c, take n bs) ∷ r.opts;
        rest = r.rest;
        area = option c (take n bs) h k (sym (take-append-drop n bs)) r.area;
        shorter = omega (arith, r.shorter, length-drop n bs);
        lexer = r.lexer;
        joined = r.joined;
      })

  loop_sound_value :
      (f c : ℕ) (bs : Bytes) (o : Options) (e : Bool) {o' : Options} {buf : Lexer}
      → c ≢ 0
      → c ≢ 255
      → ((bs₁ : Bytes) (o₁ : Options)
          → from_loop u f o₁ (holds bs₁ e) ≡ (o', buf, at_end)
          → Read o₁ o' bs₁ e buf)
      → from_loop u (suc f) o (holds (c ∷ bs) e) ≡ (o', buf, at_end)
      → Read o o' (c ∷ bs) e buf
  loop_sound_value zero c [] o e h k ih p = unfold from_loop in ground (arith, loop_last u 0 c o e)
  loop_sound_value (suc f) c [] o e h k ih p = cc (loop_bare f c o e h k)
  loop_sound_value f c (n ∷ bs) o e h k ih p = elim (dec_le n (length bs)) [
    | yes l ↦
        Read-option c n bs h k l
          (ih (drop n bs) (append_option c (take n bs) o) (sym (loop_take f c n bs o e h k l) ∙ p))
    | no l ↦ cc (loop_short f c n bs o e h k (omega arith))
  ]

  -- A loop that ends on the end option has read an options area.
  pub loop_sound :
      (f : ℕ) (bs : Bytes) (o : Options) (e : Bool) {o' : Options} {buf : Lexer}
      → from_loop u f o (holds bs e) ≡ (o', buf, at_end)
      → Read o o' bs e buf
  loop_sound zero bs o e p = unfold from_loop in cc
  loop_sound (suc f) [] o e p = cc (loop_nil u f o e)
  loop_sound (suc f) (c ∷ bs) o e p = elim (ℕ_discrete c 0) [
    | yes z ↦ rw z (Read-pad (loop_sound f bs o e (sym (loop_pad f bs o e) ∙ (rw z at p))))
    | no h ↦ elim (ℕ_discrete c 255) [
      | yes z ↦ rw z (Read-end (sym (loop_end f bs o e) ∙ (rw z at p)))
      | no k ↦ loop_sound_value f c bs o e h k (λ bs₁ o₁. loop_sound f bs₁ o₁ e) p
    ]
  ]
