-- ===== src/Uio/Items.antt =====
-- The loops over a lexer that the codecs share: `for buf.Has(n) { … append … }` and
-- `for _, x := range xs { buf.Write… }`, with what one item must satisfy for them.
pub mod Loop
pub mod Codec
use dhcp.Prelude.{
  ℕ, zero, suc, ◌+◌, ◌≤◌, ◌<◌, ◌≡◌, ◌≢◌, refl, sym, ap, ◌∙◌, Bool, true, false, List, [], ◌∷◌, ◌++◌,
  ◌⊎◌, inl, inr, if◌then◌else◌, length, All, Bytes, IsByte, Result, ok, err, fault, Fault,
  out_of_fuel, ◌>>=◌, >>=-eq-ok, leb, arith, append-nil, append_assoc, length-append, Bool-cases,
  ◌||◌, not, ◌==◌, All-append_right, ok-injective, le→leb, lt→leb,
}
use native.Mathlib.Decide.{dec_le}
use mathlib.Core.Path.{subst}
use dhcp.Uio.{Uio}

module _ (u : Uio) {E A : Type 0} where
  open u use {Lexer, holds}

  unfoldable pub each :
      ℕ → (Lexer → Result E (A × Lexer)) → ℕ → List A → Lexer → Result E (List A × Lexer)
  each n read zero acc b = fault out_of_fuel
  each n read (suc fuel) acc b =
      let more = read b >>= λ r. each n read fuel (acc ++ r.0 ∷ []) r.1 in
      if u.has b n then more else ok (acc, b)

-- `return buf.FinError()`: the value is given if all was read and no read has failed.
abbrev pub finish : (u : Uio) {E A : Type 0} → E → A → u.Lexer → Result E A
finish u e a b = if u.fin_failed b then err e else ok a

module _ (u : Uio) {A : Type 0} where
  open u use {Lexer}

  unfoldable pub write_each : (A → Lexer → Lexer) → List A → Lexer → Lexer
  write_each write [] b = b
  write_each write (x ∷ xs) b = write_each write xs (write x b)

-- The bytes of a sequence of items.
abbrev pub encoding : {A : Type 0} → (A → Bytes) → List A → Bytes
encoding enc [] = []
encoding enc (x ∷ xs) = enc x ++ encoding enc xs

encoding-append :
    {A : Type 0} (enc : A → Bytes) (xs ys : List A)
    → encoding enc (xs ++ ys) ≡ encoding enc xs ++ encoding enc ys
encoding-append enc [] ys = refl
encoding-append enc (x ∷ xs) ys =
    ap (λ t. enc x ++ t) (encoding-append enc xs ys)
    ∙ sym (append_assoc (enc x) (encoding enc xs) (encoding enc ys))

-- What a reader has taken from `bs`: an item and its bytes, or bytes of which it ran out.
pub data Taken (u : Uio) {A : Type 0} (IsValid : A → Type 0) (enc : A → Bytes) (bs : Bytes)
    (e : Bool) (x : A) (b : u.Lexer) : Type 0 where
  whole :
      (rest : Bytes)
      → IsValid x
      → bs ≡ enc x ++ rest
      → b ≡ u.holds rest e
      → Taken u IsValid enc bs e x b
  cut :
      (rest : Bytes)
      → length rest < length bs
      → All IsByte rest
      → b ≡ u.holds rest true
      → Taken u IsValid enc bs e x b

-- A lexer over fewer bytes than there were.
pub record Shorter (u : Uio) (bs : Bytes) (b : u.Lexer) : Type 0 where
  pub rest : Bytes
  pub failed : Bool
  pub left : b ≡ u.holds rest failed
  pub shorter : length rest < length bs

-- The same for a result that is equal.
pub Taken-eq :
    (u : Uio) {A : Type 0} (IsValid : A → Type 0) (enc : A → Bytes) (bs : Bytes) (e : Bool)
    {E : Type 0} (r r' : A × u.Lexer)
    → ◌≡◌ {A = Result E (A × u.Lexer)} (ok r) (ok r')
    → Taken u IsValid enc bs e r.0 r.1
    → Taken u IsValid enc bs e r'.0 r'.1
Taken-eq u IsValid enc bs e r r' p t =
    subst (λ q. Taken u IsValid enc bs e q.0 q.1) (ok-injective p) t

-- One item of a sequence, as the loops need it.
pub record Item (u : Uio) (E A : Type 0) : Type 1 where
  pub read : u.Lexer → Result E (A × u.Lexer)
  pub write : A → u.Lexer → u.Lexer
  pub enc : A → Bytes
  pub need : ℕ
  pub IsValid : A → Type 0
  pub need_pos : 0 < need
  pub need-le : (x : A) → IsValid x → need ≤ length (enc x)
  pub read_enc :
      (x : A) (bs : Bytes) (e : Bool)
      → IsValid x
      → read (u.holds (enc x ++ bs) e) ≡ ok (x, u.holds bs e)
  pub write_enc :
      (x : A) (bs : Bytes) (e : Bool) → IsValid x → write x (u.holds bs e) ≡ u.holds (bs ++ enc x) e

module _ (u : Uio) {E A : Type 0} (i : Item u E A) where
  -- What the loops need besides for a parser to accept encodings only.
  pub record Sound : Type 0 where
    pub read_taken :
        (bs : Bytes) (e : Bool) (x : A) (b : u.Lexer)
        → All IsByte bs
        → i.need ≤ length bs
        → i.read (u.holds bs e) ≡ ok (x, b)
        → Taken u i.IsValid i.enc bs e x b

  -- What they need to end on inputs of at most `limit` bytes.
  pub record Ends (limit : ℕ) : Type 0 where
    pub read_shorter :
        (bs : Bytes) (e : Bool) (x : A) (b : u.Lexer)
        → i.need ≤ length bs
        → i.read (u.holds bs e) ≡ ok (x, b)
        → Shorter u bs b
    pub read-ne-fault :
        (bs : Bytes) (e : Bool) (f : Fault)
        → length bs ≤ limit
        → i.need ≤ length bs
        → i.read (u.holds bs e) ≢ fault f
