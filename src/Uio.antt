-- ===== src/Uio.antt =====
-- github.com/u-root/u-root/pkg/uio, the byte reader and writer that every codec of the repository
-- uses. It is not part of the repository, so it is a parameter: its operations as the callers use
-- them, and the documented behaviour that they rely on. `Uio.Listed` has a value of the record.
pub mod Listed
pub mod Items
pub mod Reads
pub mod Words
pub mod Remains
use dhcp.Prelude.{
  ℕ, ◌/◌, ◌%◌, ◌≡◌, Bool, true, false, not, ◌||◌, [], ◌∷◌, ◌++◌, none, some, leb, ◌==◌,
  if◌then◌else◌, length, take, drop, replicate, Bytes, Slice, elements, Result, ok, err, ◌<◌, ◌+◌,
  ◌*◌,
}

-- `Lexer` in big-endian order. `holds bs e` is a lexer over the bytes `bs`, to be read from the front
-- and written at the end, and `e` says that a read has failed before. `write_copy n d` is
-- `copy(buf.WriteN(n), d)`. `from_big_endian` is `FromBigEndian` of a type's `Unmarshal`; nothing is
-- said of what it gives when bytes are left.
pub record Uio : Type 1 where
  pub Lexer : Type 0
  pub holds : Bytes → Bool → Lexer
  pub new : Bytes → Lexer
  pub len : Lexer → ℕ
  pub has : Lexer → ℕ → Bool
  pub contents : Lexer → Slice
  pub failed : Lexer → Bool
  pub fin_failed : Lexer → Bool
  pub read8 : Lexer → ℕ × Lexer
  pub read16 : Lexer → ℕ × Lexer
  pub read32 : Lexer → ℕ × Lexer
  pub consume : ℕ → Lexer → Slice × Lexer
  pub copy_n : ℕ → Lexer → Slice × Lexer
  pub read_bytes : ℕ → Lexer → Bytes × Lexer
  pub read_all : Lexer → Slice × Lexer
  pub write8 : ℕ → Lexer → Lexer
  pub write16 : ℕ → Lexer → Lexer
  pub write32 : ℕ → Lexer → Lexer
  pub write_bytes : Bytes → Lexer → Lexer
  pub write_copy : ℕ → Bytes → Lexer → Lexer
  pub to_big_endian : (Lexer → Lexer) → Slice
  pub from_big_endian : (E A : Type 0) → (Lexer → Result E (A × Lexer)) → Bytes → Result E A
  pub new_law : (bs : Bytes) → new bs ≡ holds bs false
  pub len_law : (bs : Bytes) (e : Bool) → len (holds bs e) ≡ length bs
  pub has_law : (bs : Bytes) (e : Bool) (n : ℕ) → has (holds bs e) n ≡ leb n (length bs)
  pub contents_law : (bs : Bytes) (e : Bool) → elements (contents (holds bs e)) ≡ bs
  pub failed_law : (bs : Bytes) (e : Bool) → failed (holds bs e) ≡ e
  pub fin_failed_law :
      (bs : Bytes) (e : Bool) → fin_failed (holds bs e) ≡ (e || not (length bs == 0))
  pub read8_nil : (e : Bool) → read8 (holds [] e) ≡ (0, holds [] true)
  pub read8_cons : (a : ℕ) (bs : Bytes) (e : Bool) → read8 (holds (a ∷ bs) e) ≡ (a, holds bs e)
  pub read16_short :
      (bs : Bytes) (e : Bool) → length bs < 2 → read16 (holds bs e) ≡ (0, holds bs true)
  pub read16_cons :
      (a b : ℕ) (bs : Bytes) (e : Bool) → read16 (holds (a ∷ b ∷ bs) e) ≡ (a * 256 + b, holds bs e)
  pub read32_short :
      (bs : Bytes) (e : Bool) → length bs < 4 → read32 (holds bs e) ≡ (0, holds bs true)
  pub read32_cons :
      (a b c d : ℕ) (bs : Bytes) (e : Bool)
      → read32 (holds (a ∷ b ∷ c ∷ d ∷ bs) e) ≡ (a * 16777216 + b * 65536 + c * 256 + d, holds bs e)
  pub consume_law :
      (n : ℕ) (bs : Bytes) (e : Bool)
      → consume n (holds bs e) ≡ (
          if leb n (length bs)
          then (some (take n bs), holds (drop n bs) e)
          else (none, holds bs true))
  pub copy_n_law :
      (n : ℕ) (bs : Bytes) (e : Bool)
      → copy_n n (holds bs e) ≡ (
          if leb n (length bs)
          then (some (take n bs), holds (drop n bs) e)
          else (none, holds bs true))
  pub read_bytes_law :
      (n : ℕ) (bs : Bytes) (e : Bool)
      → read_bytes n (holds bs e) ≡ (
          if leb n (length bs)
          then (take n bs, holds (drop n bs) e)
          else (replicate n 0, holds bs true))
  pub read_all_law : (bs : Bytes) (e : Bool) → read_all (holds bs e) ≡ (some bs, holds [] e)
  pub write8_law :
      (v : ℕ) (bs : Bytes) (e : Bool) → write8 v (holds bs e) ≡ holds (bs ++ v % 256 ∷ []) e
  pub write16_law :
      (v : ℕ) (bs : Bytes) (e : Bool)
      → write16 v (holds bs e) ≡ holds (bs ++ v / 256 % 256 ∷ v % 256 ∷ []) e
  pub write32_law :
      (v : ℕ) (bs : Bytes) (e : Bool)
      → write32 v (holds bs e)
        ≡ holds (bs ++ v / 16777216 % 256 ∷ v / 65536 % 256 ∷ v / 256 % 256 ∷ v % 256 ∷ []) e
  pub write_bytes_law : (d bs : Bytes) (e : Bool) → write_bytes d (holds bs e) ≡ holds (bs ++ d) e
  pub write_copy_law :
      (n : ℕ) (d bs : Bytes) (e : Bool)
      → write_copy n d (holds bs e) ≡ holds (bs ++ take n (d ++ replicate n 0)) e
  pub to_big_endian_law :
      (f : Lexer → Lexer) → elements (to_big_endian f) ≡ elements (contents (f (new [])))
  pub from_big_endian_ok :
      (E A : Type 0) (read : Lexer → Result E (A × Lexer)) (bs : Bytes) (a : A)
      → read (holds bs false) ≡ ok (a, holds [] false)
      → from_big_endian E A read bs ≡ ok a
  pub from_big_endian_err :
      (E A : Type 0) (read : Lexer → Result E (A × Lexer)) (bs : Bytes) (failure : E)
      → read (holds bs false) ≡ err failure
      → from_big_endian E A read bs ≡ err failure
