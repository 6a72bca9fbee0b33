-- ===== src/Rfc1035label/RoundTrip.antt =====
-- The two directions of rfc1035label/label.go.
use Prim.Native.Nat.{bit_and}
use dhcp.Prelude.{
  ℕ, suc, ◌+◌, ◌%◌, ◌≤◌, ◌<◌, ◌≡◌, ◌≢◌, equal, refl, sym, ap, ◌∙◌, true, false, List, [], ◌∷◌, ◌++◌,
  some, ◌==◌, if◌then◌else◌, length, drop, get_or, Bytes, ok, arith, Bool-cases, inl, inr, All,
  append_assoc, append-nil, length-append, take-length-append, get_or-length, agree, agree_below,
  le→ltb, ==_ne, drop-length_suc, equal_iff, >>=-eq-ok, ok-injective,
}
use dhcp.Rfc1035label.{
  Cursor, Labels, dot, step, run, rounds, labels_from_bytes, close_label, take_chunk, split_dots,
  parts_to_bytes, label_to_bytes, labels_to_bytes, encoded, same, to_bytes, from_bytes,
}
use dhcp.Rfc1035label.Termination.{
  measure, run-step, start-measure, run_end, byte_at-inside, slice_at-inside,
}

-- A part of a label that the format has room for.
abbrev pub IsPart : Bytes → Type 0
IsPart p = (0 < length p) × (length p < 64)

-- No label, or parts between dots, each of 1 to 63 bytes.
abbrev pub IsLabel : Bytes → Type 0
IsLabel [] = Unit
IsLabel (c ∷ label) = All IsPart (split_dots [] (c ∷ label))

small_length : (n : ℕ) → n < 64 → bit_and n 0xc0 ≡ 0
unfolding agree
small_length n h = agree_below 64 (λ i. bit_and i 0xc0) (λ _. 0) n refl h

-- The label after a list of parts has been read.
abbrev extend : Bytes → Bytes → Bytes
extend label part = (if length label == 0 then label else label ++ dot ∷ []) ++ part

abbrev join_onto : Bytes → List Bytes → Bytes
join_onto label [] = label
join_onto label (p ∷ ps) = join_onto (extend label p) ps

-- The cursor at the end of `pre`, with no pointer behind it.
abbrev at : Bytes → Bytes → List Bytes → ℕ → Cursor
at pre label labels old = record {
  pos = length pre;
  old_pos = old;
  label = label;
  handling_pointer = false;
  labels = labels;
}

step_part :
    (pre part rest label : Bytes) (labels : List Bytes) (old : ℕ)
    → IsPart part
    → step (pre ++ (length part ∷ (part ++ rest))) (at pre label labels old)
      ≡ ok (at (pre ++ (length part ∷ part)) (extend label part) labels old)
unfolding step take_chunk
step_part pre part rest label labels old h =
    let n = length part in
    let buf = pre ++ (n ∷ (part ++ rest)) in
    let fits : length pre + 1 + n ≤ length buf =
      omega (arith, length-append pre (n ∷ (part ++ rest)), length-append part rest) in
    let read : get_or buf (length pre) 0 ≡ n = get_or-length pre (part ++ rest) n 0 in
    let more : (n == 0) ≡ false = ==_ne n 0 (omega arith) in
    let after : length (pre ++ (n ∷ part)) ≡ length pre + 1 + n =
      omega (arith, length-append pre (n ∷ part)) in
    rw (
      byte_at-inside (length pre) buf (omega (arith, fits)),
      read,
      more,
      small_length n h.1,
      le→ltb (length buf) (length pre + 1 + n) fits,
      slice_at-inside (length pre + 1) n buf fits,
      drop-length_suc pre (part ++ rest) n,
      take-length-append part rest,
      after,
    )

step_end :
    (pre rest label : Bytes) (labels : List Bytes) (old : ℕ)
    → step (pre ++ (0 ∷ rest)) (at pre label labels old)
      ≡ ok (at (pre ++ 0 ∷ []) [] (labels ++ label ∷ []) old)
unfolding step close_label
step_end pre rest label labels old =
    let inside : length pre < length (pre ++ (0 ∷ rest)) =
      omega (arith, length-append pre (0 ∷ rest)) in
    rw
      (
        byte_at-inside (length pre) (pre ++ (0 ∷ rest)) inside,
        get_or-length pre rest 0 0,
        length-append pre (0 ∷ []),
      )
      refl

-- The fuel that is left over, and what remains to be run.
abbrev Continues : ℕ → Bytes → Cursor → Cursor → Type 0
Continues f buf c c' = (g : ℕ) × (run f buf c ≡ run g buf c') × (measure buf c' < g)

Continues-trans :
    (f : ℕ) (buf : Bytes) (a b c : Cursor)
    → Continues f buf a b
    → ((g : ℕ) → measure buf b < g → Continues g buf b c)
    → Continues f buf a c
Continues-trans f buf a b c (g, e, h) next = let (k, e', h') = next g h in (k, e ∙ e', h')

run_parts :
    (parts : List Bytes) (f : ℕ) (buf pre rest label : Bytes) (labels : List Bytes) (old : ℕ)
    → All IsPart parts
    → buf ≡ pre ++ (parts_to_bytes parts ++ rest)
    → measure buf (at pre label labels old) < f
    → Continues f buf
        (at pre label labels old)
        (at (pre ++ parts_to_bytes parts) [] (labels ++ join_onto label parts ∷ []) old)
unfolding parts_to_bytes
run_parts [] f buf pre rest label labels old v s h =
    run-step f buf (at pre label labels old) (at (pre ++ 0 ∷ []) [] (labels ++ label ∷ []) old) h
      (omega (arith, ap length s, length-append pre (0 ∷ rest)))
      (rw s (step_end pre rest label labels old))
run_parts (part ∷ parts) f buf pre rest label labels old v s h =
    let n = length part in
    let byte : n % 256 ≡ n = omega (arith, v.0.1) in
    let tail = parts_to_bytes parts in
    let s' : buf ≡ pre ++ (n ∷ (part ++ (tail ++ rest))) =
      s ∙ rw (byte, append_assoc part tail rest) in
    let whole : (pre ++ (n ∷ part)) ++ tail ≡ pre ++ (n % 256 ∷ (part ++ tail)) =
      rw (byte, append_assoc pre (n ∷ part) tail) in
    rw (← whole) (
      Continues-trans f buf (at pre label labels old)
        (at (pre ++ (n ∷ part)) (extend label part) labels old) _
        (run-step f buf (at pre label labels old)
          (at (pre ++ (n ∷ part)) (extend label part) labels old) h
          (omega (arith, ap length s', length-append pre (n ∷ (part ++ (tail ++ rest)))))
          (rw s' (step_part pre part (tail ++ rest) label labels old v.0)))
        (λ g k.
          run_parts parts g buf (pre ++ (n ∷ part)) rest (extend label part) labels old v.1
            (s' ∙ sym (append_assoc pre (n ∷ part) (tail ++ rest))) k))

-- Each part with a dot in front.
abbrev dots : List Bytes → Bytes
dots [] = []
dots (p ∷ ps) = dot ∷ (p ++ dots ps)

dots-split_dots : (part cs : Bytes) → dots (split_dots part cs) ≡ dot ∷ (part ++ cs)
unfolding split_dots
dots-split_dots part [] = refl
dots-split_dots part (c ∷ cs) = elim (Bool-cases (c == dot)) [
  | inl is_dot ↦ let e : c ≡ dot = ground arith in rw is_dot (rw (dots-split_dots [] cs, e))
  | inr other ↦ rw other (dots-split_dots (part ++ c ∷ []) cs ∙ rw append_assoc)
]

join_onto-dots :
    (c : ℕ) (label : Bytes) (ps : List Bytes) → join_onto (c ∷ label) ps ≡ (c ∷ label) ++ dots ps
join_onto-dots c label [] = sym (append-nil (c ∷ label))
join_onto-dots c label (p ∷ ps) =
    let set : (suc (length label) == 0) ≡ false = ground arith in
    rw set (join_onto-dots c ((label ++ dot ∷ []) ++ p) ps ∙ rw (append_assoc, append_assoc))

join_onto-nil :
    (ps : List Bytes)
    → All IsPart ps
    → dot ∷ join_onto [] ps ≡ (if length ps == 0 then dot ∷ [] else dots ps)
join_onto-nil [] v = refl
join_onto-nil ([] ∷ ps) v = absurd (omega (arith, v.0.0))
join_onto-nil ((c ∷ p) ∷ ps) v =
    let set : (suc (length ps) == 0) ≡ false = ground arith in rw (join_onto-dots c p ps, set)

split_dots-ne-nil : (part cs : Bytes) → (length (split_dots part cs) == 0) ≡ false
unfolding split_dots
split_dots-ne-nil part [] = refl
split_dots-ne-nil part (c ∷ cs) = elim (Bool-cases (c == dot)) [
  | inl is_dot ↦ rw is_dot (ground arith)
  | inr other ↦ rw other (split_dots-ne-nil (part ++ c ∷ []) cs)
]

-- The parts of a label, joined as the parser joins them, are the label.
join_onto-split_dots :
    (s : Bytes) → All IsPart (split_dots [] s) → join_onto [] (split_dots [] s) ≡ s
join_onto-split_dots s v =
    let joined = join_onto-nil (split_dots [] s) v in
    ap (drop 1) ((rw (split_dots-ne-nil [] s) at joined) ∙ dots-split_dots [] s)

run_label :
    (name : Bytes) (f : ℕ) (buf pre rest : Bytes) (labels : List Bytes) (old : ℕ)
    → IsLabel name
    → buf ≡ pre ++ (label_to_bytes name ++ rest)
    → measure buf (at pre [] labels old) < f
    → Continues f buf
        (at pre [] labels old)
        (at (pre ++ label_to_bytes name) [] (labels ++ name ∷ []) old)
unfolding label_to_bytes
run_label [] f buf pre rest labels old v s h = run_parts [] f buf pre rest [] labels old tt s h
run_label (c ∷ cs) f buf pre rest labels old v s h =
    rw (join_onto-split_dots (c ∷ cs) v) at
      (run_parts (split_dots [] (c ∷ cs)) f buf pre rest [] labels old v s h)

run_labels :
    (names : List Bytes) (f : ℕ) (buf pre : Bytes) (labels : List Bytes) (old : ℕ)
    → All IsLabel names
    → buf ≡ pre ++ labels_to_bytes names
    → measure buf (at pre [] labels old) < f
    → run f buf (at pre [] labels old) ≡ ok (labels ++ names)
unfolding labels_to_bytes
run_labels [] f buf pre labels old v s h =
    run_end f buf (at pre [] labels old) h (omega (arith, ap length s, length-append pre []))
    ∙ rw append-nil
run_labels (name ∷ names) f buf pre labels old v s h =
    let (g, e, k) = run_label name f buf pre (labels_to_bytes names) labels old v.0 s h in
    e
    ∙ run_labels names g buf (pre ++ label_to_bytes name) (labels ++ name ∷ []) old v.1
        (s ∙ sym (append_assoc pre (label_to_bytes name) (labels_to_bytes names))) k
    ∙ rw append_assoc

-- Names whose parts have 1 to 63 bytes are read back as they were written.
pub labels_from_bytes-labels_to_bytes :
    (names : List Bytes) → All IsLabel names → labels_from_bytes (labels_to_bytes names) ≡ ok names
unfolding labels_from_bytes
labels_from_bytes-labels_to_bytes names v =
    let buf = labels_to_bytes names in
    run_labels names (rounds buf) buf [] [] 0 v refl (start-measure buf)

same_refl : (names : List Bytes) → same names names ≡ true
unfolding same
same_refl [] = refl
same_refl (a ∷ names) = rw ((equal_iff a a).1 refl) (same_refl names)

-- Parsed labels carry their bytes and the labels of those bytes.
from_bytes_fields :
    (bs : Bytes) {l : Labels}
    → from_bytes bs ≡ ok l
    → (l.original ≡ some bs) × (labels_from_bytes bs ≡ ok l.labels)
unfolding from_bytes
from_bytes_fields bs h =
    let (labels, e, made) =
      >>=-eq-ok (labels_from_bytes bs)
        (λ labels. ok (record { original = some bs; labels = labels })) h in
    let same_record = ok-injective made in
    (
      sym (ap (λ (t : Labels). t.original) same_record),
      e ∙ ap (λ (t : Labels). ok t.labels) same_record,
    )

to_bytes_parsed :
    (bs : Bytes) (parsed names : List Bytes)
    → labels_from_bytes bs ≡ ok parsed
    → to_bytes (record { original = some bs; labels = names })
      ≡ (if same parsed names then some bs else encoded names)
unfolding to_bytes
to_bytes_parsed bs parsed names e = rw (e, to_bytes)

pub to_bytes-parsed : (bs : Bytes) (l : Labels) → from_bytes bs ≡ ok l → to_bytes l ≡ l.original
to_bytes-parsed bs l h =
    let (o, e) = from_bytes_fields bs h in
    ap to_bytes (λ i. record { original = o i; labels = l.labels })
    ∙ to_bytes_parsed bs l.labels l.labels e
    ∙ rw (same_refl l.labels) (sym o)

pub original-from_bytes : (bs : Bytes) (l : Labels) → from_bytes bs ≡ ok l → l.original ≡ some bs
original-from_bytes bs l h = (from_bytes_fields bs h).0

-- `same` holds of equal names alone.
same_equal : (as' bs : List Bytes) → same as' bs ≡ true → as' ≡ bs
unfolding same
same_equal [] [] h = refl
same_equal [] (b ∷ bs) h = cc
same_equal (a ∷ as') [] h = cc
same_equal (a ∷ as') (b ∷ bs) h = elim (Bool-cases (equal a b)) [
  | inl p ↦
      let head : a ≡ b = (equal_iff a b).0 p in
      let tail : as' ≡ bs = same_equal as' bs (rw p at h) in λ i. head i ∷ tail i
  | inr p ↦ cc (rw p at h)
]

same_ne : (as' bs : List Bytes) → as' ≢ bs → same as' bs ≡ false
same_ne as' bs h = elim (Bool-cases (same as' bs)) [
  | inl p ↦ absurd (h (same_equal as' bs p))
  | inr p ↦ p
]

-- If bytes are parsed, the value is written as the bytes that it was parsed from, compressed or
-- not; with other names in the field `Labels`, those are written, and the old bytes no more.
pub to_bytes-from_bytes :
    (bs : Bytes) (l : Labels) (names : List Bytes)
    → from_bytes bs ≡ ok l
    → l.labels ≢ names
    → (to_bytes l ≡ some bs) × (to_bytes (record l { labels = names }) ≡ encoded names)
to_bytes-from_bytes bs l names h changed =
    let (o, e) = from_bytes_fields bs h in
    let written = λ (new : List Bytes).
      ap to_bytes (λ i. record { original = o i; labels = new })
      ∙ to_bytes_parsed bs l.labels new e in
    (
      written l.labels ∙ rw (same_refl l.labels),
      written names ∙ rw (same_ne l.labels names changed),
    )
