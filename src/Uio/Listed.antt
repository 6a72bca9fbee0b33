-- ===== src/Uio/Listed.antt =====
-- A value of the record of `Uio`, over lists: it shows that the assumptions can be met.
use dhcp.Prelude.{
  ℕ, ◌+◌, ◌*◌, ◌/◌, ◌%◌, ◌<◌, ◌≡◌, refl, Bool, true, false, not, ◌||◌, [], ◌∷◌, ◌++◌, some, none,
  leb, ◌==◌, if◌then◌else◌, length, take, drop, replicate, Bytes, Slice, arith, Result, ok, ◌>>=◌,
  ap,
}
use dhcp.Uio.{Uio}

abbrev Buffer : Type 0
Buffer = Bytes × Bool

abbrev read8 : Buffer → ℕ × Buffer
read8 ([], e) = (0, ([], true))
read8 (a ∷ bs, e) = (a, (bs, e))

abbrev read16 : Buffer → ℕ × Buffer
read16 (a ∷ b ∷ bs, e) = (a * 256 + b, (bs, e))
read16 (bs, e) = (0, (bs, true))

abbrev read32 : Buffer → ℕ × Buffer
read32 (a ∷ b ∷ c ∷ d ∷ bs, e) = (a * 16777216 + b * 65536 + c * 256 + d, (bs, e))
read32 (bs, e) = (0, (bs, true))

pub read16_short : (bs : Bytes) (e : Bool) → length bs < 2 → read16 (bs, e) ≡ (0, (bs, true))
read16_short [] e h = refl
read16_short (a ∷ []) e h = refl
read16_short (a ∷ b ∷ bs) e h = absurd (omega arith)

pub read32_short : (bs : Bytes) (e : Bool) → length bs < 4 → read32 (bs, e) ≡ (0, (bs, true))
read32_short [] e h = refl
read32_short (a ∷ []) e h = refl
read32_short (a ∷ b ∷ []) e h = refl
read32_short (a ∷ b ∷ c ∷ []) e h = refl
read32_short (a ∷ b ∷ c ∷ d ∷ bs) e h = absurd (omega arith)

abbrev consume : ℕ → Buffer → Slice × Buffer
consume n (bs, e) =
    if leb n (length bs) then (some (take n bs), (drop n bs, e)) else (none, (bs, true))

abbrev from_big_endian : (E A : Type 0) → (Buffer → Result E (A × Buffer)) → Bytes → Result E A
from_big_endian E A read bs = read (bs, false) >>= λ r. ok r.0

abbrev pub listed : Uio
listed = record {
  Lexer = Buffer;
  holds = λ bs e. (bs, e);
  new = λ bs. (bs, false);
  len = λ b. length b.0;
  has = λ b n. leb n (length b.0);
  contents = λ b. some b.0;
  failed = λ b. b.1;
  fin_failed = λ b. b.1 || not (length b.0 == 0);
  read8 = read8;
  read16 = read16;
  read32 = read32;
  consume = consume;
  copy_n = consume;
  read_bytes = λ n b.
      if leb n (length b.0) then (take n b.0, (drop n b.0, b.1)) else (replicate n 0, (b.0, true));
  read_all = λ b. (some b.0, ([], b.1));
  write8 = λ v b. (b.0 ++ v % 256 ∷ [], b.1);
  write16 = λ v b. (b.0 ++ v / 256 % 256 ∷ v % 256 ∷ [], b.1);
  write32 =
      λ v b. (b.0 ++ v / 16777216 % 256 ∷ v / 65536 % 256 ∷ v / 256 % 256 ∷ v % 256 ∷ [], b.1);
  write_bytes = λ d b. (b.0 ++ d, b.1);
  write_copy = λ n d b. (b.0 ++ take n (d ++ replicate n 0), b.1);
  to_big_endian = λ f. some (f ([], false)).0;
  from_big_endian = from_big_endian;
  new_law = λ bs. refl;
  len_law = λ bs e. refl;
  has_law = λ bs e n. refl;
  contents_law = λ bs e. refl;
  failed_law = λ bs e. refl;
  fin_failed_law = λ bs e. refl;
  read8_nil = λ e. refl;
  read8_cons = λ a bs e. refl;
  read16_short = read16_short;
  read16_cons = λ a b bs e. refl;
  read32_short = read32_short;
  read32_cons = λ a b c d bs e. refl;
  consume_law = λ n bs e. refl;
  copy_n_law = λ n bs e. refl;
  read_bytes_law = λ n bs e. refl;
  read_all_law = λ bs e. refl;
  write8_law = λ v bs e. refl;
  write16_law = λ v bs e. refl;
  write32_law = λ v bs e. refl;
  write_bytes_law = λ d bs e. refl;
  write_copy_law = λ n d bs e. refl;
  to_big_endian_law = λ f. refl;
  from_big_endian_ok = λ E A read bs a p. ap (λ r. r >>= λ t. ok t.0) p;
  from_big_endian_err = λ E A read bs failure p. ap (λ r. r >>= λ t. ok t.0) p;
}
