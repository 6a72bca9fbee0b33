-- ===== src/Dhcpv4/Values/Strings.antt =====
-- The strings of dhcpv4/option_strings.go as items of a sequence.
use dhcp.Prelude.{
  ℕ, ◌%◌, ◌≤◌, ◌<◌, ◌≡◌, refl, sym, ap, ◌∙◌, Bool, true, [], ◌∷◌, ◌++◌, ◌==◌, if◌then◌else◌, length,
  take, drop, Bytes, elements, ok, err, arith, All, IsByte, append_assoc, take-append-drop,
  length-take, ==_ne,
}
use native.Mathlib.Decide.{dec_le, ℕ_discrete}
use dhcp.Uio.{Uio}
use dhcp.Uio.Items.{Item, Sound, Taken, Taken-eq, whole, cut}
use dhcp.Uio.Reads.{copy_n_take, copy_n_append, copy_n_short}
use dhcp.Dhcpv4.Values.{Error, read_string, write_string}

-- A string has a length byte and is not empty.
abbrev pub IsShortString : Bytes → Type 0
IsShortString s = (0 < length s) × (length s < 256)

abbrev pub string_bytes : Bytes → Bytes
string_bytes s = length s ∷ s

module _ (u : Uio) where
  open u use {Lexer, holds}

  pub string_enc :
      (s bs : Bytes) (e : Bool)
      → IsShortString s
      → read_string u (holds (string_bytes s ++ bs) e) ≡ ok (s, holds bs e)
  unfolding read_string
  string_enc s bs e h =
      let set = ==_ne (length s) 0 (omega arith) in
      rw (u.read8_cons (length s) (s ++ bs) e, copy_n_append u (length s) s bs e refl, set)

  pub string_write :
      (s bs : Bytes) (e : Bool)
      → IsShortString s
      → write_string u s (holds bs e) ≡ holds (bs ++ string_bytes s) e
  unfolding write_string
  string_write s bs e h =
      let same : length s % 256 ≡ length s = omega (arith, h.1) in
      ap (u.write_bytes s) (u.write8_law (length s) bs e)
      ∙ u.write_bytes_law s (bs ++ length s % 256 ∷ []) e
      ∙ rw (same, append_assoc)

  string_step :
      (n : ℕ) (bs : Bytes) (e : Bool)
      → read_string u (holds (n ∷ bs) e) ≡ (
          if n == 0
          then err Error.zero_length
          else ok (elements (u.copy_n n (holds bs e)).0, (u.copy_n n (holds bs e)).1))
  unfolding read_string
  string_step n bs e = rw (u.read8_cons n bs e)

  pub string-Taken :
      (bs : Bytes) (e : Bool) (x : Bytes) (b : Lexer)
      → All IsByte bs
      → 1 ≤ length bs
      → read_string u (holds bs e) ≡ ok (x, b)
      → Taken u IsShortString string_bytes bs e x b
  unfolding read_string
  string-Taken [] e x b byte h p = absurd (omega arith)
  string-Taken (n ∷ bs) e x b byte h p = elim (ℕ_discrete n 0) [
    | yes z ↦ cc (rw z at (sym (string_step n bs e) ∙ p))
    | no set ↦
        let more = ==_ne n 0 set in
        let got = rw more at (sym (string_step n bs e) ∙ p) in
        elim (dec_le n (length bs)) [
          | yes fits ↦
              let same : length (take n bs) ≡ n = omega (arith, length-take n bs) in
              Taken-eq u IsShortString string_bytes (n ∷ bs) e (take n bs, holds (drop n bs) e)
                (x, b) (rw (copy_n_take u n bs e fits) at got)
                (whole (drop n bs) (omega (arith, byte.0))
                  (ap (◌∷◌ n) (sym (take-append-drop n bs)) ∙ rw same) refl)
          | no long ↦
              Taken-eq u IsShortString string_bytes (n ∷ bs) e ([], holds bs true) (x, b)
                (rw (copy_n_short u n bs e (omega arith)) at got) (cut bs (omega arith) byte.1 refl)
        ]
  ]

  abbrev pub string_item : Item u Error Bytes
  string_item = record {
    read = read_string u;
    write = write_string u;
    enc = string_bytes;
    need = 1;
    IsValid = IsShortString;
    need_pos = omega arith;
    need-le = λ s h. omega arith;
    read_enc = string_enc;
    write_enc = string_write;
  }

  abbrev pub string-Sound : Sound u string_item
  string-Sound = record { read_taken = string-Taken }
