-- ===== src/Dhcpv4/Options/RoundTrip.antt =====
-- The reading loop of dhcpv4/options.go on what `Marshal` writes.
use dhcp.Prelude.{
  ℕ, zero, suc, ◌+◌, ◌≡◌, ◌≢◌, refl, Bool, false, ◌&&◌, List, [], ◌∷◌, ◌++◌, Option, none, some,
  leb, ltb, ap, sym, ◌∙◌, ◌<◌, ◌≤◌, length-drop, take-append-drop, append-nil, append_assoc,
  fun_ext, ◌==◌, if◌then◌else◌, length, take, drop, Bytes, Slice, elements, ok, arith, All, inl,
  inr, Bool-cases, All-append, ==_refl, ==_ne,
}
use native.Mathlib.Decide.{ℕ_discrete}
use dhcp.Uio.{Uio}
use dhcp.Dhcpv4.Options.{
  Options, empty, get, has, append_slice, append_option, keys_from, sorted_keys, chunk_length,
  marshal, to_bytes, from_bytes_check_end,
}
use dhcp.Dhcpv4.Options.Grammar.{Area, end, option, append_all, IsPadding}
use dhcp.Dhcpv4.Options.Decode.{from_bytes_check_end-Area}
use dhcp.Dhcpv4.Options.Encode.{pieces, tagged, wire, entries, marshal-wire}

-- A code that is neither padding nor the end option.
abbrev pub IsCode : ℕ × Bytes → Type 0
IsCode p = (p.0 ≢ 0) × (p.0 ≢ 255)

wire-Area :
    (opts : List (ℕ × Bytes)) (rest : Bytes)
    → All IsCode opts
    → Area (wire opts ++ 255 ∷ rest) opts rest
wire-Area [] rest h = end refl
wire-Area ((c, d) ∷ opts) rest h =
    option c d h.0.0 h.0.1 (append_assoc d (wire opts) (255 ∷ rest)) (wire-Area opts rest h.1)

tagged-IsCode : (c : ℕ) (ds : List Bytes) → c ≢ 0 → c ≢ 255 → All IsCode (tagged c ds)
tagged-IsCode c [] h k = tt
tagged-IsCode c (d ∷ ds) h k = ((h, k), tagged-IsCode c ds h k)

-- What the wire can carry: codes 1 to 254, each with a value that is not empty.
pub data Carried (k : ℕ) : Option Slice → Type 0 where
  missing : Carried k none
  present : (x : ℕ) (d : Bytes) → k ≢ 0 → k < 255 → Carried k (some (some (x ∷ d)))

abbrev pub IsCarried : Options → Type 0
IsCarried o = (k : ℕ) → Carried k (o k)

append_slice_assoc :
    (s : Slice) (a b : Bytes) → append_slice (append_slice s a) b ≡ append_slice s (a ++ b)
append_slice_assoc none [] b = refl
append_slice_assoc none (x ∷ a) [] = rw append-nil
append_slice_assoc none (x ∷ a) (y ∷ b) = refl
append_slice_assoc (some s) a b = ap some (append_assoc s a b)

get-append_option_self :
    (c : ℕ) (d : Bytes) (o : Options) → get c (append_option c d o) ≡ append_slice (get c o) d
unfolding append_option get
get-append_option_self c d o = rw (==_refl c, get)

append_option-append_option :
    (c : ℕ) (a b : Bytes) (o : Options)
    → append_option c b (append_option c a o) ≡ append_option c (a ++ b) o
unfolding append_option
append_option-append_option c a b o = fun_ext (λ k. elim (Bool-cases (k == c)) [
  | inl same ↦ rw same (ap some (rw get-append_option_self (append_slice_assoc (get c o) a b)))
  | inr other ↦ rw other
])

abbrev concat : List Bytes → Bytes
concat [] = []
concat (d ∷ ds) = d ++ concat ds

append_all-tagged :
    (c : ℕ) (d : Bytes) (ds : List Bytes) (o : Options)
    → append_all (tagged c (d ∷ ds)) o ≡ append_option c (d ++ concat ds) o
unfolding append_all
append_all-tagged c d [] o = rw append-nil
append_all-tagged c d (x ∷ ds) o =
    append_all-tagged c x ds (append_option c d o)
    ∙ append_option-append_option c d (x ++ concat ds) o

append_all-append :
    (a b : List (ℕ × Bytes)) (o : Options) → append_all (a ++ b) o ≡ append_all b (append_all a o)
unfolding append_all
append_all-append [] b o = refl
append_all-append ((c, d) ∷ a) b o = append_all-append a b (append_option c d o)

concat-pieces : (f : ℕ) (d : Bytes) → length d ≤ f → concat (pieces f d) ≡ d
unfolding pieces
concat-pieces zero [] h = refl
concat-pieces zero (x ∷ d) h = absurd (omega arith)
concat-pieces (suc f) [] h = refl
concat-pieces (suc f) (x ∷ d) h =
    let n = chunk_length (x ∷ d) in
    let shorter : length (drop n (x ∷ d)) ≤ f = ground (arith, length-drop n (x ∷ d)) in
    rw (concat-pieces f (drop n (x ∷ d)) shorter) (take-append-drop n (x ∷ d))

append_all-pieces :
    (c x : ℕ) (d : Bytes) (o : Options)
    → append_all (tagged c (pieces (suc (length d)) (x ∷ d))) o ≡ append_option c (x ∷ d) o
unfolding pieces
append_all-pieces c x d o =
    append_all-tagged c (take (chunk_length (x ∷ d)) (x ∷ d))
      (pieces (length d) (drop (chunk_length (x ∷ d)) (x ∷ d))) o
    ∙ ap (λ t. append_option c t o) (concat-pieces (suc (length d)) (x ∷ d) (omega arith))

-- One code more in front: nothing for a missing key, the pieces of its value otherwise.
entries_missing :
    (o : Options) (k n : ℕ)
    → o k ≡ none
    → entries (keys_from o k (suc n)) o ≡ entries (keys_from o (suc k) n) o
unfolding keys_from has
entries_missing o k n e = ap (λ cs. entries cs o) (rw (e, has))

keys_from_present :
    (o : Options) (k n : ℕ) {v : Slice}
    → o k ≡ some v
    → keys_from o k (suc n) ≡ k ∷ keys_from o (suc k) n
unfolding keys_from has
keys_from_present o k n e = rw (e, has)

entries_present :
    (o : Options) (k n x : ℕ) (d : Bytes)
    → k < 255
    → o k ≡ some (some (x ∷ d))
    → entries (keys_from o k (suc n)) o
      ≡ tagged k (pieces (suc (length d)) (x ∷ d)) ++ entries (keys_from o (suc k) n) o
entries_present o k n x d h e =
    let found : get k o ≡ some (x ∷ d) = unfold get in rw (e, get) in
    rw (keys_from_present o k n e) (unfold entries in rw (==_ne k 255 (omega arith), found))

pub entries-IsCode :
    (o : Options) (k n : ℕ) → IsCarried o → All IsCode (entries (keys_from o k n) o)
entries-IsCode o k zero w = unfold entries keys_from in tt
entries-IsCode o k (suc n) w = go (o k) refl (w k) (entries-IsCode o (suc k) n w)
  where
    go :
        (v : Option Slice)
        → o k ≡ v
        → Carried k v
        → All IsCode (entries (keys_from o (suc k) n) o)
        → All IsCode (entries (keys_from o k (suc n)) o)
    go v e missing r = rw (entries_missing o k n e) r
    go v e (present x d h l) r = rw (entries_present o k n x d l e) (
        All-append IsCode (tagged k (pieces (suc (length d)) (x ∷ d)))
          (entries (keys_from o (suc k) n) o)
          (tagged-IsCode k (pieces (suc (length d)) (x ∷ d)) h (omega arith)) r)

append_option_ne : (c k : ℕ) (d : Bytes) (o : Options) → k ≢ c → append_option c d o k ≡ o k
unfolding append_option
append_option_ne c k d o h = rw (==_ne k c h)

append_option_fresh :
    (c x : ℕ) (d : Bytes) (o : Options)
    → o c ≡ none
    → append_option c (x ∷ d) o c ≡ some (some (x ∷ d))
unfolding append_option get
append_option_fresh c x d o e =
    let unset : get c o ≡ none = rw (e, get) in
    rw (==_refl c) (ap (λ s. some (append_slice s (x ∷ d))) unset)

range_step :
    (o acc acc' : Options) (k n j : ℕ)
    → (j ≡ k → o j ≡ acc j)
    → (j ≢ k → acc j ≡ acc' j)
    → ◌≡◌ {A = Option Slice}
        (if leb (suc k) j && ltb j (suc k + n) then o j else acc j)
        (if leb k j && ltb j (k + suc n) then o j else acc' j)
range_step o acc acc' k n j h g = elim (ℕ_discrete j k) [
  | yes same ↦ let hit = h same in ground arith
  | no other ↦ let kept = g other in ground arith
]

-- Reading the written options of the keys from `k` on puts their values into the map.
append_all-entries :
    (o acc : Options) (k n : ℕ)
    → IsCarried o
    → ((j : ℕ) → k ≤ j → acc j ≡ none)
    → (j : ℕ)
    → append_all (entries (keys_from o k n) o) acc j
      ≡ (if leb k j && ltb j (k + n) then o j else acc j)
append_all-entries o acc k zero w fresh j = unfold append_all entries keys_from in ground arith
append_all-entries o acc k (suc n) w fresh j =
    go (o k) refl (w k) (λ acc₁ f. append_all-entries o acc₁ (suc k) n w f j)
  where
    go :
        (v : Option Slice)
        → o k ≡ v
        → Carried k v
        → ((acc₁ : Options)
            → ((i : ℕ) → suc k ≤ i → acc₁ i ≡ none)
            → append_all (entries (keys_from o (suc k) n) o) acc₁ j
              ≡ (if leb (suc k) j && ltb j (suc k + n) then o j else acc₁ j))
        → append_all (entries (keys_from o k (suc n)) o) acc j
          ≡ (if leb k j && ltb j (k + suc n) then o j else acc j)
    go v e missing ih = rw (entries_missing o k n e) (
        ih acc (λ i h. fresh i (omega arith))
        ∙ range_step o acc acc k n j (λ h. rw h (e ∙ sym (fresh k (omega arith)))) (λ h. refl))
    go v e (present x d h l) ih =
        let acc₁ = append_option k (x ∷ d) acc in
        rw (entries_present o k n x d l e, append_all-append, append_all-pieces)
          (ih acc₁ (λ i g. append_option_ne k i (x ∷ d) acc (omega arith) ∙ fresh i (omega arith))
            ∙ range_step o acc₁ acc k n j
                (λ g. rw g (e ∙ sym (append_option_fresh k x d acc (fresh k (omega arith)))))
                (λ g. append_option_ne k j (x ∷ d) acc g))

all_keys : (j : ℕ) (o : Options) → IsCarried o → (if leb 0 j && ltb j 256 then o j else none) ≡ o j
all_keys j o w = go (o j) (w j)
  where
    go : (v : Option Slice) → Carried j v → (if leb 0 j && ltb j 256 then v else none) ≡ v
    go v missing = ground arith
    go v (present x d h l) = ground arith

pub append_all-sorted_keys :
    (o : Options) → IsCarried o → append_all (entries (sorted_keys o) o) empty ≡ o
unfolding sorted_keys
append_all-sorted_keys o w =
    fun_ext (λ j. append_all-entries o empty 0 256 w (λ i h. refl) j ∙ all_keys j o w)

module _ (u : Uio) where
  open u use {Lexer, holds, new, contents, new_law, contents_law, to_big_endian_law}

  -- `ToBytes` writes the options of the sorted keys.
  pub to_bytes-wire : (o : Options) → elements (to_bytes u o) ≡ wire (entries (sorted_keys o) o)
  unfolding to_bytes
  to_bytes-wire o =
      rw (to_big_endian_law (marshal u o), new_law [], marshal-wire u o [] false)
        (contents_law _ false)

  -- What `Marshal` writes, an end option and padding are read back as the map, if the wire can
  -- carry it.
  pub from_bytes_check_end-to_bytes :
      (o : Options) (pads : Bytes) (check : Bool)
      → IsCarried o
      → IsPadding pads
      → from_bytes_check_end u (elements (to_bytes u o) ++ 255 ∷ pads) check empty ≡ (o, ok tt)
  from_bytes_check_end-to_bytes o pads check w p = rw (to_bytes-wire o) (
      from_bytes_check_end-Area u check empty
        (wire-Area (entries (sorted_keys o) o) pads
          (unfold sorted_keys in entries-IsCode o 0 256 w))
        p
      ∙ rw (append_all-sorted_keys o w))
