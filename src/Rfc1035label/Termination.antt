-- ===== src/Rfc1035label/Termination.antt =====
-- The fuel of the loop of `labelsFromBytes` in rfc1035label/label.go.
use Prim.Native.Nat.{bit_and}
use dhcp.Prelude.{
  ℕ, zero, suc, ◌+◌, ◌-◌, ◌*◌, ◌≤◌, ◌<◌, ◌≡◌, ◌≢◌, refl, ap, Bool, true, false, leb, ltb, ◌==◌,
  if◌then◌else◌, length, take, drop, get_or, Bytes, Result, ok, err, fault, Fault, ◌>>=◌, arith,
  Bool-cases, inl, inr, lt→leb, le→leb, le→leb,
}
use dhcp.Rfc1035label.{
  Cursor, start, step, run, rounds, labels_from_bytes, close_label, follow_pointer, take_chunk,
  Error, byte_at, slice_at,
}

-- What is left to do: `l` is one more than the length of the buffer. Behind a pointer there is
-- a label to be read at the position, and all the bytes behind the pointer after it.
abbrev pub measure_at : ℕ → Bool → ℕ → ℕ → ℕ
measure_at l true pos old = (l - old) * l + (l - pos)
measure_at l false pos old = (l - pos) * l

abbrev pub measure : Bytes → Cursor → ℕ
measure buf c = measure_at (length buf + 1) c.handling_pointer c.pos c.old_pos

mul_step : (l a b : ℕ) → a < b → a * l + l ≤ b * l
mul_step l a b h = grind arith

-- What a round leaves to do is less.
abbrev Falls : Bytes → Cursor → Result Error Cursor → Type 0
Falls buf c (ok c') = measure buf c' < measure buf c
Falls buf c (err e) = Unit
Falls buf c (fault x) = ⊥

Falls-if :
    (buf : Bytes) (c : Cursor) (b : Bool) (r s : Result Error Cursor)
    → Falls buf c r
    → Falls buf c s
    → Falls buf c (if b then r else s)
Falls-if buf c true r s x y = x
Falls-if buf c false r s x y = y

Falls-guard :
    (buf : Bytes) (c : Cursor) (b : Bool) (e : Error) (r : Result Error Cursor)
    → (b ≡ false → Falls buf c r)
    → Falls buf c (if b then err e else r)
Falls-guard buf c true e r h = tt
Falls-guard buf c false e r h = h refl

pub byte_at-inside : (i : ℕ) (bs : Bytes) → i < length bs → byte_at i bs ≡ ok (get_or bs i 0)
unfolding byte_at
byte_at-inside i bs h = let t : ltb i (length bs) ≡ true = ground (arith, h) in rw t refl

pub slice_at-inside :
    (i n : ℕ) (bs : Bytes) → i + n ≤ length bs → slice_at i n bs ≡ ok (take n (drop i bs))
unfolding slice_at
slice_at-inside i n bs h = rw (le→leb (i + n) (length bs) h) refl

measure_close :
    (l old pos : ℕ) (h : Bool)
    → pos < l
    → measure_at l false (if h then old else pos + 1) old < measure_at l h pos old
measure_close l old pos true k = omega arith
measure_close l old pos false k = omega (arith, mul_step l (l - (pos + 1)) (l - pos))

measure_chunk :
    (l old pos n : ℕ) (h : Bool)
    → pos < l
    → measure_at l h (pos + 1 + n) old < measure_at l h pos old
measure_chunk l old pos n true k = omega arith
measure_chunk l old pos n false k = omega (arith, mul_step l (l - (pos + 1 + n)) (l - pos))

measure_pointer :
    (l old pos off : ℕ) → pos + 1 < l → measure_at l true off (pos + 2) < measure_at l false pos old
measure_pointer l old pos off k =
    omega (arith, mul_step l (l - (pos + 2)) (l - (pos + 1)), mul_step l (l - (pos + 1)) (l - pos))

pointer-Falls :
    (buf : Bytes) (high : ℕ) (c : Cursor)
    → c.pos < length buf
    → Falls buf c (follow_pointer buf high c)
unfolding follow_pointer
pointer-Falls buf high c h = go c.handling_pointer refl
  where
    off : ℕ
    off = bit_and high 0x3f * 256 + get_or buf (c.pos + 1) 0

    go :
        (b : Bool)
        → c.handling_pointer ≡ b
        → Falls buf c (
            if b
            then err Error.nested_pointer
            else if ltb (length buf) (c.pos + 2)
            then err Error.short_pointer
            else byte_at (c.pos + 1) buf >>= λ low. ok (record c {
              pos = bit_and high 0x3f * 256 + low;
              old_pos = c.pos + 2;
              handling_pointer = true;
            }))
    go true e = tt
    go false e = Falls-guard buf c (ltb (length buf) (c.pos + 2)) Error.short_pointer _ (λ long.
        rw (byte_at-inside (c.pos + 1) buf (ground (arith, long)), e)
          (measure_pointer (length buf + 1) c.old_pos c.pos off (omega arith)))

step-Falls : (buf : Bytes) (c : Cursor) → c.pos < length buf → Falls buf c (step buf c)
unfolding step close_label take_chunk
step-Falls buf c h =
    let n = get_or buf c.pos 0 in
    rw (byte_at-inside c.pos buf h) (
      Falls-if buf c (n == 0) _ _
        (measure_close (length buf + 1) c.old_pos c.pos c.handling_pointer (omega arith))
        (Falls-if buf c (bit_and n 0xc0 == 0xc0) _ _ (pointer-Falls buf n c h) (
          Falls-guard buf c (ltb (length buf) (c.pos + 1 + n)) Error.short_buffer _ (λ long.
            rw (slice_at-inside (c.pos + 1) n buf (ground (arith, long))) (
              measure_chunk (length buf + 1) c.old_pos c.pos n c.handling_pointer (omega arith))))))

run-ne-fault :
    (f : ℕ) (buf : Bytes) (c : Cursor) (x : Fault) → measure buf c < f → run f buf c ≢ fault x
unfolding run
run-ne-fault zero buf c x h = absurd (omega arith)
run-ne-fault (suc f) buf c x h = elim (Bool-cases (leb (length buf) c.pos)) [
  | inl done ↦ rw done (λ p. cc)
  | inr more ↦
      rw more (go (step buf c) (step-Falls buf c (ground arith)) (λ c'. run-ne-fault f buf c' x))
]
  where
    go :
        (r : Result Error Cursor)
        → Falls buf c r
        → ((c' : Cursor) → measure buf c' < f → run f buf c' ≢ fault x)
        → (r >>= λ c'. run f buf c') ≢ fault x
    go (ok c') l ih = ih c' (omega arith)
    go (err e) l ih = λ p. cc
    go (fault y) l ih = absurd l

-- Parsing ends on every input, with pointers that point at themselves as well, and without a panic.
pub labels_from_bytes-ne-fault : (buf : Bytes) (x : Fault) → labels_from_bytes buf ≢ fault x
unfolding labels_from_bytes
labels_from_bytes-ne-fault buf x =
    let l = length buf + 1 in
    let whole : l - 0 ≡ l = omega arith in
    run-ne-fault (rounds buf) buf start x (omega (arith, ap (λ t. t * l) whole))

-- A round inside the buffer, and the fuel that is enough after it.
pub run-step :
    (f : ℕ) (buf : Bytes) (c c' : Cursor)
    → measure buf c < f
    → c.pos < length buf
    → step buf c ≡ ok c'
    → (g : ℕ) × (run f buf c ≡ run g buf c') × (measure buf c' < g)
unfolding run
run-step zero buf c c' h k e = absurd (omega arith)
run-step (suc f) buf c c' h k e =
    let less = rw e at (step-Falls buf c k) in (f, rw (lt→leb (length buf) c.pos k, e), omega arith)

pub run_end :
    (f : ℕ) (buf : Bytes) (c : Cursor)
    → measure buf c < f
    → length buf ≤ c.pos
    → run f buf c ≡ ok c.labels
unfolding run
run_end zero buf c h k = absurd (omega arith)
run_end (suc f) buf c h k = rw (le→leb (length buf) c.pos k)

pub start-measure : (buf : Bytes) → measure buf start < rounds buf
start-measure buf =
    let l = length buf + 1 in
    let whole : l - 0 ≡ l = omega arith in omega (arith, ap (λ t. t * l) whole)
