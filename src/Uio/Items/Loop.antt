-- ===== src/Uio/Items/Loop.antt =====
-- What the loops of `Uio.Items` do with a sequence of items.
use dhcp.Prelude.{
  ℕ, zero, suc, ◌≤◌, ◌<◌, ◌≡◌, ◌≢◌, refl, sym, ap, ◌∙◌, Bool, true, false, List, [], ◌∷◌, ◌++◌,
  length, All, Bytes, IsByte, Result, ok, err, fault, Fault, ◌>>=◌, >>=-eq-ok, arith, append-nil,
  append_assoc, length-append, ◌||◌, not, ◌==◌, All-append_right, ok-injective, le→leb, lt→leb,
}
use native.Mathlib.Decide.{dec_le}
use dhcp.Uio.{Uio}
use dhcp.Uio.Items.{each, write_each, encoding, Taken, whole, cut, Item, Sound, Ends}

no_rest : (bs : Bytes) → (false || not (length bs == 0)) ≡ false → bs ≡ []
no_rest [] h = refl
no_rest (b ∷ bs) h = ground arith

module _ (u : Uio) {E A : Type 0} (i : Item u E A) where
  open u use {Lexer, holds, has_law}

  each_done :
      (f : ℕ) (acc : List A) (bs : Bytes) (e : Bool)
      → length bs < i.need
      → each u i.need i.read (suc f) acc (holds bs e) ≡ ok (acc, holds bs e)
  unfolding each
  each_done f acc bs e h = rw (has_law bs e i.need, lt→leb i.need (length bs) h)

  each_more :
      (f : ℕ) (acc : List A) (bs : Bytes) (e : Bool)
      → i.need ≤ length bs
      → each u i.need i.read (suc f) acc (holds bs e)
        ≡ (i.read (holds bs e) >>= λ r. each u i.need i.read f (acc ++ r.0 ∷ []) r.1)
  unfolding each
  each_more f acc bs e h = rw (has_law bs e i.need, le→leb i.need (length bs) h)

  -- The loop reads back a sequence of items.
  pub each-encoding :
      (f : ℕ) (acc xs : List A) (e : Bool)
      → All i.IsValid xs
      → length (encoding i.enc xs) < f
      → each u i.need i.read f acc (holds (encoding i.enc xs) e) ≡ ok (acc ++ xs, holds [] e)
  each-encoding zero acc xs e v h = absurd (omega arith)
  each-encoding (suc f) acc [] e v h = rw append-nil (each_done f acc [] e i.need_pos)
  each-encoding (suc f) acc (x ∷ xs) e v h =
      let longer = length-append (i.enc x) (encoding i.enc xs) in
      let least = i.need-le x v.0 in
      let pos = i.need_pos in
      each_more f acc (i.enc x ++ encoding i.enc xs) e (omega arith)
      ∙ rw (i.read_enc x (encoding i.enc xs) e v.0)
          (each-encoding f (acc ++ x ∷ []) xs e v.1 (omega arith) ∙ rw append_assoc)

  -- Writing a sequence appends its encoding.
  pub write_each-encoding :
      (xs : List A) (bs : Bytes) (e : Bool)
      → All i.IsValid xs
      → write_each u i.write xs (holds bs e) ≡ holds (bs ++ encoding i.enc xs) e
  unfolding write_each
  write_each-encoding [] bs e v = rw append-nil
  write_each-encoding (x ∷ xs) bs e v =
      rw (i.write_enc x bs e v.0) (write_each-encoding xs (bs ++ i.enc x) e v.1 ∙ rw append_assoc)

  module _ (t : Sound u i) where
    -- The last round, or a round that takes an item.
    data Round (f : ℕ) (acc : List A) (bs : Bytes) (e : Bool) (ys : List A) (b : Lexer)
        : Type 0 where
      last : length bs < i.need → ys ≡ acc → b ≡ holds bs e → Round f acc bs e ys b
      takes :
          (x : A) (b₁ : Lexer)
          → i.need ≤ length bs
          → Taken u i.IsValid i.enc bs e x b₁
          → each u i.need i.read f (acc ++ x ∷ []) b₁ ≡ ok (ys, b)
          → Round f acc bs e ys b

    each-Round :
        (f : ℕ) (acc : List A) (bs : Bytes) (e : Bool) (ys : List A) (b : Lexer)
        → All IsByte bs
        → each u i.need i.read (suc f) acc (holds bs e) ≡ ok (ys, b)
        → Round f acc bs e ys b
    each-Round f acc bs e ys b byte p = elim (dec_le i.need (length bs)) [
      | no n ↦
          let q = ok-injective (sym (each_done f acc bs e (omega arith)) ∙ p) in
          last (omega arith) (sym (ap (λ t. t.0) q)) (sym (ap (λ t. t.1) q))
      | yes l ↦
          let (r, got, later) =
            >>=-eq-ok (i.read (holds bs e)) (λ r. each u i.need i.read f (acc ++ r.0 ∷ []) r.1)
              (sym (each_more f acc bs e l) ∙ p) in
          takes r.0 r.1 l (t.read_taken bs e r.0 r.1 byte l got) later
    ]

    -- Once a read has failed the failure stays.
    each_failed :
        (f : ℕ) (acc : List A) (bs : Bytes) (ys : List A) (b : Lexer)
        → All IsByte bs
        → each u i.need i.read f acc (holds bs true) ≡ ok (ys, b)
        → (rest : Bytes) × (b ≡ holds rest true)
    each_failed zero acc bs ys b byte p = unfold each in cc
    each_failed (suc f) acc bs ys b byte p =
        go (each-Round f acc bs true ys b byte p) (λ acc₁ rest. each_failed f acc₁ rest ys b)
      where
        go :
            Round f acc bs true ys b
            → ((acc₁ : List A) (rest : Bytes)
                → All IsByte rest
                → each u i.need i.read f acc₁ (holds rest true) ≡ ok (ys, b)
                → (rest₁ : Bytes) × (b ≡ holds rest₁ true))
            → (rest : Bytes) × (b ≡ holds rest true)
        go (last h q r) ih = (bs, r)
        go (takes x b₁ l (whole rest v s h) later) ih =
            ih (acc ++ x ∷ []) rest (All-append_right IsByte (i.enc x) rest (rw s at byte))
              (rw h at later)
        go (takes x b₁ l (cut rest s t h) later) ih = ih (acc ++ x ∷ []) rest t (rw h at later)

    -- What a loop has read that leaves no byte and no failure behind.
    pub record Sequence (acc ys : List A) (bs : Bytes) : Type 0 where
      pub items : List A
      pub valid : All i.IsValid items
      pub bytes : bs ≡ encoding i.enc items
      pub result : ys ≡ acc ++ items

    Sequence-cons :
        {acc ys : List A} (x : A) {bs rest : Bytes}
        → i.IsValid x
        → bs ≡ i.enc x ++ rest
        → Sequence (acc ++ x ∷ []) ys rest
        → Sequence acc ys bs
    Sequence-cons {acc} x v s q = record {
      items = x ∷ q.items;
      valid = (v, q.valid);
      bytes = s ∙ ap (λ t. i.enc x ++ t) q.bytes;
      result = q.result ∙ append_assoc acc (x ∷ []) q.items;
    }

    pub each_sound :
        (f : ℕ) (acc : List A) (bs : Bytes) (ys : List A) (b : Lexer)
        → All IsByte bs
        → each u i.need i.read f acc (holds bs false) ≡ ok (ys, b)
        → u.fin_failed b ≡ false
        → Sequence acc ys bs
    each_sound zero acc bs ys b byte p q = unfold each in cc
    each_sound (suc f) acc bs ys b byte p q =
        go (each-Round f acc bs false ys b byte p)
          (λ acc₁ rest h k. each_sound f acc₁ rest ys b h k q)
      where
        go :
            Round f acc bs false ys b
            → ((acc₁ : List A) (rest : Bytes)
                → All IsByte rest
                → each u i.need i.read f acc₁ (holds rest false) ≡ ok (ys, b)
                → Sequence acc₁ ys rest)
            → Sequence acc ys bs
        go (last h r s) ih = record {
          items = [];
          valid = tt;
          bytes = no_rest bs (rw (s, u.fin_failed_law bs false) at q);
          result = r ∙ sym (append-nil acc);
        }
        go (takes x b₁ l (whole rest v s h) later) ih = Sequence-cons x v s (
            ih (acc ++ x ∷ []) rest (All-append_right IsByte (i.enc x) rest (rw s at byte))
              (rw h at later))
        go (takes x b₁ l (cut rest s t h) later) ih =
            let (left, e) = each_failed f (acc ++ x ∷ []) rest ys b t (rw h at later) in
            cc (rw (e, u.fin_failed_law left true) at q)

  -- The loop ends: its fuel is enough.
  pub each-ne-fault :
      (n : ℕ) (t : Ends u i n) (f : ℕ) (acc : List A) (bs : Bytes) (e : Bool) (x : Fault)
      → length bs ≤ n
      → length bs < f
      → each u i.need i.read f acc (holds bs e) ≢ fault x
  each-ne-fault n t zero acc bs e x small h = absurd (omega arith)
  each-ne-fault n t (suc f) acc bs e x small h = elim (dec_le i.need (length bs)) [
    | no short ↦ λ p. cc (each_done f acc bs e (omega arith))
    | yes l ↦
        rw (each_more f acc bs e l)
          (go (i.read (holds bs e)) refl l (λ acc₁ rest e₁. each-ne-fault n t f acc₁ rest e₁ x))
  ]
    where
      go :
          (r : Result E (A × Lexer))
          → i.read (holds bs e) ≡ r
          → i.need ≤ length bs
          → ((acc₁ : List A) (rest : Bytes) (e₁ : Bool)
              → length rest ≤ n
              → length rest < f
              → each u i.need i.read f acc₁ (holds rest e₁) ≢ fault x)
          → (r >>= λ t. each u i.need i.read f (acc ++ t.0 ∷ []) t.1) ≢ fault x
      go (err y) s l ih = λ p. cc
      go (fault y) s l ih = absurd (t.read-ne-fault bs e y small l s)
      go (ok r) s l ih =
          let q = t.read_shorter bs e r.0 r.1 l s in
          let less = q.shorter in
          rw q.left (ih (acc ++ r.0 ∷ []) q.rest q.failed (omega arith) (omega arith))
