-- ===== src/Dhcpv4/Values/Items.antt =====
-- The items of the sequences of dhcpv4/option_*.go and iana/archtype.go, as the loops need them.
use dhcp.Prelude.{
  ℕ, ◌+◌, ◌*◌, ◌/◌, ◌%◌, ◌≤◌, ◌<◌, ◌≡◌, refl, sym, ap, ◌∙◌, Bool, [], ◌∷◌, ◌++◌, some, none, length,
  take, drop, Bytes, Slice, elements, ok, arith, All, IsByte, take-append-drop, length-take,
}
use dhcp.Net.{to4}
use dhcp.Uio.{Uio}
use dhcp.Uio.Items.{Item, Sound, Taken, Taken-eq, whole}
use dhcp.Uio.Reads.{copy_n_take, copy_n_append}
use dhcp.Dhcpv4.Values.{Error, read_ip, write_ip4, read_code, read_arch}

-- An address of four bytes.
abbrev pub IsIpv4 : Slice → Type 0
IsIpv4 none = ⊥
IsIpv4 (some ip) = length ip ≡ 4

pub to4_lem : (ip : Slice) → IsIpv4 ip → to4 ip ≡ ip
unfolding to4
to4_lem none h = absurd h
to4_lem (some ip) h = rw h

-- Architectures are two bytes each.
abbrev pub IsWord : ℕ → Type 0
IsWord v = v < 65536

abbrev pub word_bytes : ℕ → Bytes
word_bytes v = v / 256 % 256 ∷ v % 256 ∷ []

module _ (u : Uio) where
  open u use {Lexer, holds}

  pub ip_enc :
      (ip : Slice) (bs : Bytes) (e : Bool)
      → IsIpv4 ip
      → read_ip u (holds (elements ip ++ bs) e) ≡ ok (ip, holds bs e)
  unfolding read_ip
  ip_enc none bs e h = absurd h
  ip_enc (some ip) bs e h = ap ok (copy_n_append u 4 ip bs e h)

  pub ip_write :
      (ip : Slice) (bs : Bytes) (e : Bool)
      → IsIpv4 ip
      → write_ip4 u ip (holds bs e) ≡ holds (bs ++ elements ip) e
  unfolding write_ip4
  ip_write ip bs e h =
      ap (λ t. u.write_bytes (elements t) (holds bs e)) (to4_lem ip h)
      ∙ u.write_bytes_law (elements ip) bs e

  pub ip_long : (ip : Slice) → IsIpv4 ip → 4 ≤ length (elements ip)
  ip_long none h = absurd h
  ip_long (some ip) h = omega arith

  pub ip-Taken :
      (bs : Bytes) (e : Bool) (x : Slice) (b : Lexer)
      → All IsByte bs
      → 4 ≤ length bs
      → read_ip u (holds bs e) ≡ ok (x, b)
      → Taken u IsIpv4 elements bs e x b
  unfolding read_ip
  ip-Taken bs e x b byte h p =
      let q = copy_n_take u 4 bs e h in
      Taken-eq u IsIpv4 elements bs e (some (take 4 bs), holds (drop 4 bs) e) (x, b)
        (sym (ap ok q) ∙ p)
        (whole (drop 4 bs) (omega (arith, length-take 4 bs)) (sym (take-append-drop 4 bs)) refl)

  abbrev pub ip_item : Item u Error Slice
  ip_item = record {
    read = read_ip u;
    write = write_ip4 u;
    enc = elements;
    need = 4;
    IsValid = IsIpv4;
    need_pos = omega arith;
    need-le = ip_long;
    read_enc = ip_enc;
    write_enc = ip_write;
  }

  abbrev pub ip-Sound : Sound u ip_item
  ip-Sound = record { read_taken = ip-Taken }

  -- A list of option codes, a byte each.
  pub code-Taken :
      (bs : Bytes) (e : Bool) (x : ℕ) (b : Lexer)
      → All IsByte bs
      → 1 ≤ length bs
      → read_code u (holds bs e) ≡ ok (x, b)
      → Taken u IsByte (λ c. c ∷ []) bs e x b
  unfolding read_code
  code-Taken [] e x b byte h p = absurd (omega arith)
  code-Taken (c ∷ bs) e x b byte h p =
      Taken-eq u IsByte (λ c. c ∷ []) (c ∷ bs) e (c, holds bs e) (x, b)
        (sym (ap ok (u.read8_cons c bs e)) ∙ p) (whole bs byte.0 refl refl)

  pub code_enc :
      (c : ℕ) (bs : Bytes) (e : Bool)
      → IsByte c
      → read_code u (holds (c ∷ bs) e) ≡ ok (c, holds bs e)
  unfolding read_code
  code_enc c bs e h = ap ok (u.read8_cons c bs e)

  pub code_write :
      (c : ℕ) (bs : Bytes) (e : Bool) → IsByte c → u.write8 c (holds bs e) ≡ holds (bs ++ c ∷ []) e
  code_write c bs e h = let same : c % 256 ≡ c = omega arith in u.write8_law c bs e ∙ rw same

  abbrev pub code_item : Item u Error ℕ
  code_item = record {
    read = read_code u;
    write = u.write8;
    enc = λ c. c ∷ [];
    need = 1;
    IsValid = IsByte;
    need_pos = omega arith;
    need-le = λ c h. omega arith;
    read_enc = code_enc;
    write_enc = code_write;
  }

  abbrev pub code-Sound : Sound u code_item
  code-Sound = record { read_taken = code-Taken }

  pub arch_enc :
      (v : ℕ) (bs : Bytes) (e : Bool)
      → IsWord v
      → read_arch u (holds (word_bytes v ++ bs) e) ≡ ok (v, holds bs e)
  unfolding read_arch
  arch_enc v bs e h =
      let same : v / 256 % 256 * 256 + v % 256 ≡ v = omega arith in
      ap ok (u.read16_cons (v / 256 % 256) (v % 256) bs e ∙ rw same)

  pub arch-Taken :
      (bs : Bytes) (e : Bool) (x : ℕ) (b : Lexer)
      → All IsByte bs
      → 2 ≤ length bs
      → read_arch u (holds bs e) ≡ ok (x, b)
      → Taken u IsWord word_bytes bs e x b
  unfolding read_arch
  arch-Taken [] e x b byte h p = absurd (omega arith)
  arch-Taken (a ∷ []) e x b byte h p = absurd (omega arith)
  arch-Taken (a ∷ c ∷ bs) e x b byte h p =
      let high : (a * 256 + c) / 256 % 256 ≡ a = omega (arith, byte.0, byte.1.0) in
      let low : (a * 256 + c) % 256 ≡ c = omega (arith, byte.1.0) in
      Taken-eq u IsWord word_bytes (a ∷ c ∷ bs) e (a * 256 + c, holds bs e) (x, b)
        (sym (ap ok (u.read16_cons a c bs e)) ∙ p)
        (whole bs (omega (arith, byte.0, byte.1.0)) (rw (high, low)) refl)

  abbrev pub arch_item : Item u Error ℕ
  arch_item = record {
    read = read_arch u;
    write = u.write16;
    enc = word_bytes;
    need = 2;
    IsValid = IsWord;
    need_pos = omega arith;
    need-le = λ v h. omega arith;
    read_enc = arch_enc;
    write_enc = λ v bs e h. u.write16_law v bs e;
  }

  abbrev pub arch-Sound : Sound u arch_item
  arch-Sound = record { read_taken = arch-Taken }
