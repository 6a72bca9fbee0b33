-- ===== src/Dhcpv4/Options.antt =====
-- dhcpv4/options.go: the map from option codes to values, and its codec.
pub mod Loop
pub mod Grammar
pub mod Decode
pub mod Encode
pub mod Sorted
pub mod RoundTrip
pub mod Unended
use dhcp.Prelude.{
  ℕ, zero, suc, ◌+◌, ◌≡◌, refl, Bool, true, false, not, ◌&&◌, List, [], ◌∷◌, ◌++◌, Option, none,
  some, leb, ltb, ◌==◌, if◌then◌else◌, length, take, drop, Bytes, Slice, elements, Result, ok, err,
  fault, out_of_fuel, min,
}
use dhcp.Uio.{Uio}

-- `map[uint8][]byte`: `none` is a missing key, and the slice at a key may be `nil`.
abbrev pub Options : Type 0
Options = ℕ → Option Slice

-- `make(Options)`
abbrev pub empty : Options
empty _ = none

unfoldable pub get : ℕ → Options → Slice
get code o = elim (o code) [ none ↦ none | some v ↦ v ]

unfoldable pub has : ℕ → Options → Bool
has code o = elim (o code) [ none ↦ false | some _ ↦ true ]

-- The value is the option's `Value.ToBytes()`.
unfoldable pub update : ℕ → Slice → Options → Options
update code value o k = if k == code then some value else o k

unfoldable pub options_from_list : List (ℕ × Slice) → Options → Options
options_from_list [] o = o
options_from_list ((code, value) ∷ opts) o = options_from_list opts (update code value o)

-- `append(s, d...)`: nothing appended to `nil` is `nil`.
abbrev pub append_slice : Slice → Bytes → Slice
append_slice none [] = none
append_slice none (b ∷ d) = some (b ∷ d)
append_slice (some s) d = some (s ++ d)

-- `o[code] = append(o[code], data...)`
unfoldable pub append_option : ℕ → Bytes → Options → Options
unfolding get
append_option code d o k = if k == code then some (append_slice (get code o) d) else o k

abbrev pub opt_pad : ℕ
opt_pad = 0

abbrev pub opt_end : ℕ
opt_end = 255

-- `ErrInvalidOptions`, `io.ErrUnexpectedEOF` and "error collecting options".
pub data Error : Type 0 where
  invalid_options unexpected_eof collecting : Error

-- How the reading loop ends: on the end option, on the end of the data, or on a value that is
-- longer than the data. `spent` is the end of the fuel.
pub data Stop : Type 0 where
  at_end at_eof short spent : Stop

abbrev pub is_nil : Slice → Bool
is_nil none = true
is_nil (some _) = false

module _ (u : Uio) where
  open u use {Lexer}

  unfoldable pub from_loop : ℕ → Options → Lexer → Options × Lexer × Stop
  from_loop zero o buf = (o, buf, spent)
  from_loop (suc fuel) o buf =
      let (code, coded) = u.read8 buf in
      let (n, measured) = u.read8 coded in
      let (d, after) = u.consume n measured in
      let skipped = from_loop fuel o coded in
      let taken = from_loop fuel (append_option code (elements d) o) after in
      if not (leb 1 (u.len buf))
      then (o, buf, at_eof)
      else if code == opt_pad
      then skipped
      else if code == opt_end
      then (o, coded, at_end)
      else if is_nil d
      then (o, after, short)
      else taken

  -- "Any bytes left must be padding."
  unfoldable pub padding_loop : ℕ → Lexer → Result Error (Unit {0})
  padding_loop zero buf = fault out_of_fuel
  padding_loop (suc fuel) buf =
      let (b, after) = u.read8 buf in
      let rest = padding_loop fuel after in
      if not (leb 1 (u.len buf)) then ok tt else if b == opt_pad then rest else err invalid_options

  -- What follows the loop.
  unfoldable pub check_end : Bool → ℕ → Lexer → Stop → Result Error (Unit {0})
  check_end check fuel buf at_end = padding_loop fuel buf
  check_end check fuel buf at_eof = if check then err unexpected_eof else padding_loop fuel buf
  check_end check fuel buf short = err collecting
  check_end check fuel buf spent = fault out_of_fuel

  -- The map is changed in place, so it is given back on an error too. Each round of a loop reads a
  -- byte, so one round more than there are bytes is fuel enough.
  unfoldable pub from_bytes_check_end : Bytes → Bool → Options → Options × Result Error (Unit {0})
  from_bytes_check_end [] check o = (o, ok tt)
  from_bytes_check_end (b ∷ bs) check o =
      let fuel = suc (length (b ∷ bs)) in
      let (o', buf, stop) = from_loop fuel o (u.new (b ∷ bs)) in (o', check_end check fuel buf stop)

  unfoldable pub from_bytes : Bytes → Options → Options × Result Error (Unit {0})
  from_bytes bs = from_bytes_check_end bs false

-- The codes from `k` on, `n` of them, that the map has. The keys are bytes: the sorted keys of the
-- map are those of 0 to 255 that are there, in their order.
pub keys_from : Options → ℕ → ℕ → List ℕ
unfolding has
keys_from o k zero = []
keys_from o k (suc n) = let rest = keys_from o (suc k) n in if has k o then k ∷ rest else rest

unfoldable pub sorted_keys : Options → List ℕ
unfolding keys_from
sorted_keys o = keys_from o 0 256

-- `n := len(data); if n > math.MaxUint8 { n = math.MaxUint8 }`
abbrev pub chunk_length : Bytes → ℕ
chunk_length d = if ltb 255 (length d) then 255 else length d

module _ (u : Uio) where
  open u use {Lexer}

  -- `for len(data) > 0`: every round takes a byte, so `length d` rounds are enough.
  unfoldable pub chunk_loop : ℕ → ℕ → Bytes → Lexer → Lexer
  chunk_loop zero code d b = b
  chunk_loop (suc fuel) code [] b = b
  chunk_loop (suc fuel) code (x ∷ d) b =
      let n = chunk_length (x ∷ d) in
      let written = u.write_bytes (take n (x ∷ d)) (u.write8 n (u.write8 code b)) in
      chunk_loop fuel code (drop n (x ∷ d)) written

  unfoldable pub marshal_codes : List ℕ → Options → Lexer → Lexer
  unfolding get
  marshal_codes [] o b = b
  marshal_codes (code ∷ codes) o b =
      let data_of = elements (get code o) in
      marshal_codes codes o
        (if code == opt_end then b else chunk_loop (length data_of) code data_of b)

  unfoldable pub marshal : Options → Lexer → Lexer
  unfolding sorted_keys
  marshal o = marshal_codes (sorted_keys o) o

  unfoldable pub to_bytes : Options → Slice
  to_bytes o = u.to_big_endian (marshal o)
