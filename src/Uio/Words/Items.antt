-- ===== src/Uio/Words/Items.antt =====
-- Items of sequences: a number of 16 bits, a slice behind its 16-bit length, an IPv6 address.
use dhcp.Prelude.{
  ℕ, ◌≤◌, ◌<◌, ◌≡◌, refl, sym, ap, ◌∙◌, Bool, true, [], ◌∷◌, ◌++◌, none, some, length, drop, Bytes,
  Slice, elements, Result, ok, arith, append_assoc, ok-injective, length-drop,
}
use native.Mathlib.Decide.{dec_le}
use dhcp.Net.{to16}
use dhcp.Uio.{Uio}
use dhcp.Uio.Items.{Item, Ends, Shorter}
use dhcp.Uio.Reads.{copy_n_take, copy_n_append, copy_n_short}
use dhcp.Uio.Words.{IsWord16, bytes16, read16_bytes16}

-- An address of sixteen bytes.
abbrev pub IsIpv6 : Slice → Type 0
IsIpv6 none = ⊥
IsIpv6 (some ip) = length ip ≡ 16

pub to16_lem : (ip : Slice) → IsIpv6 ip → to16 ip ≡ ip
unfolding to16
to16_lem none h = absurd h
to16_lem (some ip) h = rw h

-- A slice whose length has 16 bits.
abbrev pub IsChunk : Bytes → Type 0
IsChunk s = length s < 65536

abbrev pub chunk_bytes : Bytes → Bytes
chunk_bytes s = bytes16 (length s) ++ s

pub length-ip : (ip : Slice) → IsIpv6 ip → length (elements ip) ≡ 16
length-ip none h = absurd h
length-ip (some ip) h = h

module _ (u : Uio) where
  open u use {Lexer, holds}

  abbrev pub write_ip : Slice → Lexer → Lexer
  write_ip ip buf = u.write_bytes (elements (to16 ip)) buf

  abbrev pub write_chunk : Bytes → Lexer → Lexer
  write_chunk s buf = u.write_bytes s (u.write16 (length s) buf)

  pub write_ip_lem :
      (ip : Slice) (bs : Bytes) (e : Bool)
      → IsIpv6 ip
      → write_ip ip (holds bs e) ≡ holds (bs ++ elements ip) e
  write_ip_lem ip bs e h =
      ap (λ t. u.write_bytes (elements t) (holds bs e)) (to16_lem ip h)
      ∙ u.write_bytes_law (elements ip) bs e

  pub read_ip_lem :
      (ip : Slice) (bs : Bytes) (e : Bool)
      → IsIpv6 ip
      → u.copy_n 16 (holds (elements ip ++ bs) e) ≡ (ip, holds bs e)
  read_ip_lem none bs e h = absurd h
  read_ip_lem (some ip) bs e h = copy_n_append u 16 ip bs e h

  pub write_chunk_lem :
      (s bs : Bytes) (e : Bool) → write_chunk s (holds bs e) ≡ holds (bs ++ chunk_bytes s) e
  write_chunk_lem s bs e =
      ap (u.write_bytes s) (u.write16_law (length s) bs e)
      ∙ u.write_bytes_law s (bs ++ bytes16 (length s)) e
      ∙ ap (λ t. holds t e) (append_assoc bs (bytes16 (length s)) s)

  pub read16_rest :
      (bs : Bytes) (e : Bool)
      → 2 ≤ length bs
      → (rest : Bytes) × (u.read16 (holds bs e) ≡ ((u.read16 (holds bs e)).0, holds rest e))
        × (length rest < length bs)
  read16_rest [] e h = absurd (omega arith)
  read16_rest (a ∷ []) e h = absurd (omega arith)
  read16_rest (a ∷ b ∷ bs) e h = (
    bs,
    ap (λ t. ((u.read16 (holds (a ∷ b ∷ bs) e)).0, t.1)) (u.read16_cons a b bs e),
    omega arith,
  )

module _ (u : Uio) {E : Type 0} where
  open u use {Lexer, holds}

  abbrev pub read_word : Lexer → Result E (ℕ × Lexer)
  read_word buf = ok (u.read16 buf)

  abbrev pub read_ip : Lexer → Result E (Slice × Lexer)
  read_ip buf = ok (u.copy_n 16 buf)

  abbrev pub read_chunk : Lexer → Result E (Bytes × Lexer)
  read_chunk buf =
      let (n, measured) = u.read16 buf in
      let (s, after) = u.copy_n n measured in ok (elements s, after)

  abbrev pub word_item : Item u E ℕ
  word_item = record {
    read = read_word;
    write = u.write16;
    enc = bytes16;
    need = 2;
    IsValid = IsWord16;
    need_pos = omega arith;
    need-le = λ v h. omega arith;
    read_enc = λ v bs e h. ap ok (read16_bytes16 u v bs e h);
    write_enc = λ v bs e h. u.write16_law v bs e;
  }

  abbrev pub ip_item : Item u E Slice
  ip_item = record {
    read = read_ip;
    write = write_ip u;
    enc = elements;
    need = 16;
    IsValid = IsIpv6;
    need_pos = omega arith;
    need-le = λ ip h. omega (arith, length-ip ip h);
    read_enc = λ ip bs e h. ap ok (read_ip_lem u ip bs e h);
    write_enc = write_ip_lem u;
  }

  pub chunk_enc :
      (s bs : Bytes) (e : Bool)
      → IsChunk s
      → read_chunk (holds (chunk_bytes s ++ bs) e) ≡ ok (s, holds bs e)
  chunk_enc s bs e h =
      ap (λ (r : ℕ × Lexer). ok (elements (u.copy_n r.0 r.1).0, (u.copy_n r.0 r.1).1))
        (read16_bytes16 u (length s) (s ++ bs) e h)
      ∙ ap (λ (r : Slice × Lexer). ok (elements r.0, r.1)) (copy_n_append u (length s) s bs e refl)

  abbrev pub chunk_item : Item u E Bytes
  chunk_item = record {
    read = read_chunk;
    write = write_chunk u;
    enc = chunk_bytes;
    need = 2;
    IsValid = IsChunk;
    need_pos = omega arith;
    need-le = λ s h. omega arith;
    read_enc = chunk_enc;
    write_enc = λ s bs e h. write_chunk_lem u s bs e;
  }

  Shorter-by :
      {A : Type 0} (r : A × Lexer) (x : A) (b : Lexer) (bs rest : Bytes) (e : Bool)
      → ◌≡◌ {A = Result E (A × Lexer)} (ok r) (ok (x, b))
      → r.1 ≡ holds rest e
      → length rest < length bs
      → Shorter u bs b
  Shorter-by r x b bs rest e p q h = record {
    rest = rest;
    failed = e;
    left = sym (ap (λ t. t.1) (ok-injective p)) ∙ q;
    shorter = h;
  }

  pub word-Ends : (n : ℕ) → Ends u word_item n
  word-Ends n = record {
    read_shorter = λ bs e x b h p.
        let (rest, q, less) = read16_rest u bs e h in
        Shorter-by (u.read16 (holds bs e)) x b bs rest e p (ap (λ t. t.1) q) less;
    read-ne-fault = λ bs e f s h p. cc;
  }

  pub ip-Ends : (n : ℕ) → Ends u ip_item n
  ip-Ends n = record {
    read_shorter = λ bs e x b h p.
        Shorter-by (u.copy_n 16 (holds bs e)) x b bs (drop 16 bs) e p
          (ap (λ t. t.1) (copy_n_take u 16 bs e h)) (omega (arith, length-drop 16 bs));
    read-ne-fault = λ bs e f s h p. cc;
  }

  pub chunk-Ends : (n : ℕ) → Ends u chunk_item n
  chunk-Ends n = record {
    read_shorter = λ bs e x b h p.
        let (rest, q, less) = read16_rest u bs e h in
        let m = (u.read16 (holds bs e)).0 in
        let got = u.copy_n m (u.read16 (holds bs e)).1 in
        let from : got.1 ≡ (u.copy_n m (holds rest e)).1 = ap (λ t. (u.copy_n m t.1).1) q in
        elim (dec_le m (length rest)) [
          | yes fits ↦
              Shorter-by (elements got.0, got.1) x b bs (drop m rest) e p
                (from ∙ ap (λ t. t.1) (copy_n_take u m rest e fits))
                (omega (arith, length-drop m rest))
          | no long ↦
              Shorter-by (elements got.0, got.1) x b bs rest true p
                (from ∙ ap (λ t. t.1) (copy_n_short u m rest e (omega arith))) less
        ];
    read-ne-fault = λ bs e f s h p. cc;
  }
