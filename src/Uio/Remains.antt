-- ===== src/Uio/Remains.antt =====
-- No read makes the bytes of a lexer more: how many may be left after a number of reads.
use dhcp.Prelude.{
  ℕ, ◌≤◌, ◌≡◌, refl, ap, ◌∙◌, Bool, true, false, [], ◌∷◌, length, drop, Bytes, elements, arith,
  le→leb, lt→leb, length-drop,
}
use native.Mathlib.Decide.{dec_le}
use dhcp.Uio.{Uio}
use dhcp.Uio.Reads.{copy_n_take, copy_n_short}

pub record Remains (u : Uio) (n : ℕ) (b : u.Lexer) : Type 0 where
  pub rest : Bytes
  pub failed : Bool
  pub left : b ≡ u.holds rest failed
  pub rest-le : length rest ≤ n

module _ (u : Uio) (n : ℕ) where
  open u use {Lexer, holds}

  remains : (b : Lexer) (bs : Bytes) (e : Bool) → b ≡ holds bs e → length bs ≤ n → Remains u n b
  remains b bs e p h = record { rest = bs; failed = e; left = p; rest-le = h }

  pub new-Remains : (bs : Bytes) → length bs ≤ n → Remains u n (u.new bs)
  new-Remains bs h = remains (u.new bs) bs false (u.new_law bs) h

  read8_left : (bs : Bytes) (e : Bool) → length bs ≤ n → Remains u n (u.read8 (holds bs e)).1
  read8_left [] e h = remains _ [] true (ap (λ r. r.1) (u.read8_nil e)) h
  read8_left (a ∷ bs) e h = remains _ bs e (ap (λ r. r.1) (u.read8_cons a bs e)) (omega arith)

  read16_left : (bs : Bytes) (e : Bool) → length bs ≤ n → Remains u n (u.read16 (holds bs e)).1
  read16_left (a ∷ b ∷ bs) e h =
      remains _ bs e (ap (λ r. r.1) (u.read16_cons a b bs e)) (omega arith)
  read16_left [] e h = remains _ [] true (ap (λ r. r.1) (u.read16_short [] e (omega arith))) h
  read16_left (a ∷ []) e h =
      remains _ (a ∷ []) true (ap (λ r. r.1) (u.read16_short (a ∷ []) e (omega arith))) h

  read32_left : (bs : Bytes) (e : Bool) → length bs ≤ n → Remains u n (u.read32 (holds bs e)).1
  read32_left (a ∷ b ∷ c ∷ d ∷ bs) e h =
      remains _ bs e (ap (λ r. r.1) (u.read32_cons a b c d bs e)) (omega arith)
  read32_left [] e h = remains _ [] true (ap (λ r. r.1) (u.read32_short [] e (omega arith))) h
  read32_left (a ∷ []) e h =
      remains _ (a ∷ []) true (ap (λ r. r.1) (u.read32_short (a ∷ []) e (omega arith))) h
  read32_left (a ∷ b ∷ []) e h =
      remains _ (a ∷ b ∷ []) true (ap (λ r. r.1) (u.read32_short (a ∷ b ∷ []) e (omega arith))) h
  read32_left (a ∷ b ∷ c ∷ []) e h =
      remains _ (a ∷ b ∷ c ∷ []) true
        (ap (λ r. r.1) (u.read32_short (a ∷ b ∷ c ∷ []) e (omega arith))) h

  copy_n_left :
      (k : ℕ) (bs : Bytes) (e : Bool) → length bs ≤ n → Remains u n (u.copy_n k (holds bs e)).1
  copy_n_left k bs e h = elim (dec_le k (length bs)) [
    | yes fits ↦
        remains _ (drop k bs) e (ap (λ r. r.1) (copy_n_take u k bs e fits))
          (omega (arith, length-drop k bs))
    | no long ↦ remains _ bs true (ap (λ r. r.1) (copy_n_short u k bs e (omega arith))) h
  ]

  read_bytes_left :
      (k : ℕ) (bs : Bytes) (e : Bool) → length bs ≤ n → Remains u n (u.read_bytes k (holds bs e)).1
  read_bytes_left k bs e h = elim (dec_le k (length bs)) [
    | yes fits ↦
        remains _ (drop k bs) e
          (ap (λ r. r.1) (u.read_bytes_law k bs e) ∙ rw (le→leb k (length bs) fits) refl)
          (omega (arith, length-drop k bs))
    | no long ↦
        remains _ bs true
          (ap (λ r. r.1) (u.read_bytes_law k bs e) ∙ rw (lt→leb k (length bs) (omega arith)) refl) h
  ]

  -- A read that leaves no more than there was.
  after :
      {A : Type 0} (read : Lexer → A × Lexer) (b : Lexer)
      → ((bs : Bytes) (e : Bool) → length bs ≤ n → Remains u n (read (holds bs e)).1)
      → Remains u n b
      → Remains u n (read b).1
  after read b h r =
      let q = h r.rest r.failed r.rest-le in
      remains _ q.rest q.failed (ap (λ t. (read t).1) r.left ∙ q.left) q.rest-le

  pub read8-Remains : (b : Lexer) → Remains u n b → Remains u n (u.read8 b).1
  read8-Remains b r = after u.read8 b read8_left r

  pub read16-Remains : (b : Lexer) → Remains u n b → Remains u n (u.read16 b).1
  read16-Remains b r = after u.read16 b read16_left r

  pub read32-Remains : (b : Lexer) → Remains u n b → Remains u n (u.read32 b).1
  read32-Remains b r = after u.read32 b read32_left r

  pub copy_n-Remains : (k : ℕ) (b : Lexer) → Remains u n b → Remains u n (u.copy_n k b).1
  copy_n-Remains k b r = after (u.copy_n k) b (copy_n_left k) r

  pub read_bytes-Remains : (k : ℕ) (b : Lexer) → Remains u n b → Remains u n (u.read_bytes k b).1
  read_bytes-Remains k b r = after (u.read_bytes k) b (read_bytes_left k) r

  -- The rest of the bytes is no longer.
  pub read_all-le : (b : Lexer) → Remains u n b → length (elements (u.read_all b).0) ≤ n
  read_all-le b r =
      let len : length (elements (u.read_all b).0) ≡ length r.rest =
        ap (λ t. length (elements (u.read_all t).0)) r.left
        ∙ ap (λ t. length (elements t.0)) (u.read_all_law r.rest r.failed) in
      let le = r.rest-le in omega (arith, len)

  pub contents-le : (b : Lexer) → Remains u n b → length (elements (u.contents b)) ≤ n
  contents-le b r =
      let len : length (elements (u.contents b)) ≡ length r.rest =
        ap (λ t. length (elements (u.contents t))) r.left
        ∙ ap length (u.contents_law r.rest r.failed) in
      let le = r.rest-le in omega (arith, len)
