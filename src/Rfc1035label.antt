-- ===== src/Rfc1035label.antt =====
-- rfc1035label/label.go: domain names as sequences of labels, with compression pointers.
pub mod Termination
pub mod RoundTrip
use Prim.Native.Nat.{bit_and}
use dhcp.Prelude.{
  ℕ, zero, suc, ◌+◌, ◌*◌, ◌%◌, ◌≡◌, refl, Bool, true, false, not, ◌&&◌, ◌||◌, List, [], ◌∷◌, ◌++◌,
  Option, none, some, leb, ltb, ◌==◌, if◌then◌else◌, length, take, drop, get_or, Bytes, Slice,
  elements, Result, ok, err, fault, out_of_fuel, panic, equal, ◌>>=◌,
}

pub data Error : Type 0 where
  nested_pointer short_pointer short_buffer : Error

-- `Labels`: the bytes that it was parsed from, or `nil`, and the labels.
pub record Labels : Type 0 where
  pub original : Slice
  pub labels : List Bytes

-- The variables of the loop of `labelsFromBytes`.
pub record Cursor : Type 0 where
  pub pos : ℕ
  pub old_pos : ℕ
  pub label : Bytes
  pub handling_pointer : Bool
  pub labels : List Bytes

abbrev pub start : Cursor
start = record { pos = 0; old_pos = 0; label = []; handling_pointer = false; labels = [] }

abbrev pub dot : ℕ
dot = b'.'

-- The end of a label; a label behind a pointer goes on behind the pointer.
unfoldable pub close_label : Cursor → Cursor
close_label c = record {
  pos = if c.handling_pointer then c.old_pos else c.pos + 1;
  old_pos = c.old_pos;
  label = [];
  handling_pointer = false;
  labels = c.labels ++ c.label ∷ [];
}

-- `buf[i]` and `buf[i:i+n]`. A slice beyond the bytes panics: their capacity is taken to be their
-- length.
unfoldable pub byte_at : ℕ → Bytes → Result Error ℕ
byte_at i bs = if ltb i (length bs) then ok (get_or bs i 0) else fault panic

unfoldable pub slice_at : ℕ → ℕ → Bytes → Result Error Bytes
slice_at i n bs = if leb (i + n) (length bs) then ok (take n (drop i bs)) else fault panic

-- A pointer, its first byte being `high`.
unfoldable pub follow_pointer : Bytes → ℕ → Cursor → Result Error Cursor
follow_pointer buf high c =
    if c.handling_pointer
    then err nested_pointer
    else if ltb (length buf) (c.pos + 2)
    then err short_pointer
    else byte_at (c.pos + 1) buf >>= λ low. ok (record c {
      pos = bit_and high 0x3f * 256 + low;
      old_pos = c.pos + 2;
      handling_pointer = true;
    })

unfoldable pub take_chunk : Bytes → ℕ → Cursor → Result Error Cursor
take_chunk buf n c =
    let dotted = if length c.label == 0 then c.label else c.label ++ dot ∷ [] in
    if ltb (length buf) (c.pos + 1 + n)
    then err short_buffer
    else slice_at (c.pos + 1) n buf >>= λ chunk.
        ok (record c { label = dotted ++ chunk; pos = c.pos + 1 + n })

-- One round of the loop, at a position inside the buffer.
unfoldable pub step : Bytes → Cursor → Result Error Cursor
unfolding close_label follow_pointer take_chunk
step buf c = byte_at c.pos buf >>= λ n.
    if n == 0
    then ok (close_label c)
    else if bit_and n 0xc0 == 0xc0
    then follow_pointer buf n c
    else take_chunk buf n c

unfoldable pub run : ℕ → Bytes → Cursor → Result Error (List Bytes)
run zero buf c = fault out_of_fuel
run (suc fuel) buf c =
    let more = step buf c >>= λ c'. run fuel buf c' in
    if leb (length buf) c.pos then ok c.labels else more

-- A pointer is followed for at most as many rounds as there are bytes, and there are at most as
-- many pointers.
abbrev pub rounds : Bytes → ℕ
rounds buf = suc ((length buf + 1) * (length buf + 1))

unfoldable pub labels_from_bytes : Bytes → Result Error (List Bytes)
unfolding run
labels_from_bytes buf = run (rounds buf) buf start

-- `strings.Split(s, ".")`: the part up to the first dot, and the parts behind it.
unfoldable pub split_dots : Bytes → Bytes → List Bytes
split_dots part [] = part ∷ []
split_dots part (c ∷ cs) =
    let next = split_dots [] cs in
    let same = split_dots (part ++ c ∷ []) cs in if c == dot then part ∷ next else same

unfoldable pub parts_to_bytes : List Bytes → Bytes
parts_to_bytes [] = 0 ∷ []
parts_to_bytes (part ∷ parts) = length part % 256 ∷ (part ++ parts_to_bytes parts)

unfoldable pub label_to_bytes : Bytes → Bytes
unfolding split_dots parts_to_bytes
label_to_bytes [] = 0 ∷ []
label_to_bytes (c ∷ label) = parts_to_bytes (split_dots [] (c ∷ label))

unfoldable pub labels_to_bytes : List Bytes → Bytes
unfolding label_to_bytes
labels_to_bytes [] = []
labels_to_bytes (label ∷ labels) = label_to_bytes label ++ labels_to_bytes labels

-- `same`
unfoldable pub same : List Bytes → List Bytes → Bool
same [] [] = true
same (a ∷ as') (b ∷ bs) = equal a b && same as' bs
same _ _ = false

-- The slice that `labelsToBytes` gives back, which is `nil` for no labels.
abbrev pub encoded : List Bytes → Slice
encoded [] = none
encoded (label ∷ labels) = some (labels_to_bytes (label ∷ labels))

abbrev is_set : Slice → Bool
is_set none = false
is_set (some _) = true

-- `Labels.ToBytes`: the original bytes, unless the labels have been changed.
unfoldable pub to_bytes : Labels → Slice
to_bytes l = elim (labels_from_bytes (elements l.original)) [
  | ok labels ↦ if is_set l.original && same labels l.labels then l.original else encoded l.labels
  | err _ ↦ l.original
  | fault _ ↦ l.original
]

-- `Labels.Length`
unfoldable pub serialized_length : Labels → ℕ
unfolding to_bytes
serialized_length l = length (elements (to_bytes l))

unfoldable pub from_bytes : Bytes → Result Error Labels
from_bytes bs = do
  labels ← labels_from_bytes bs
  ok (record { original = some bs; labels = labels })
