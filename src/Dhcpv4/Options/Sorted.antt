-- ===== src/Dhcpv4/Options/Sorted.antt =====
-- `Marshal` of dhcpv4/options.go: the order and the pieces of what it writes.
use dhcp.Prelude.{
  ℕ, zero, suc, ◌+◌, ◌≡◌, ◌<◌, ◌≤◌, refl, sym, ap, ◌∙◌, true, false, List, [], ◌∷◌, ◌++◌, Option,
  none, some, ltb, length, take, drop, Bytes, Slice, elements, arith, inl, inr, Bool-cases,
  length-take, take-append-drop, ==_ne, ==_iff,
}
use mathlib.Core.Path.{subst}
use native.Mathlib.Decide.{ℕ_discrete}
use dhcp.Uio.{Uio}
use dhcp.Dhcpv4.Options.{Options, get, has, keys_from, sorted_keys, to_bytes}
use dhcp.Dhcpv4.Options.Encode.{pieces, tagged, wire, entries}
use dhcp.Dhcpv4.Options.RoundTrip.{to_bytes-wire}

-- The bytes of a value, none for a code that the map has not.
abbrev pub value : Option Slice → Bytes
value none = []
value (some s) = elements s

-- A value cut into options of one code: 255 bytes each, and the rest, which is not empty.
pub data IsChunks (c : ℕ) : Bytes → List (ℕ × Bytes) → Type 0 where
  last : {d : Bytes} → 0 < length d → length d ≤ 255 → IsChunks c d ((c, d) ∷ [])
  full :
      {x d : Bytes} {es : List (ℕ × Bytes)}
      → length x ≡ 255
      → IsChunks c d es
      → IsChunks c (x ++ d) ((c, x) ∷ es)

-- The options of the codes from `k` on, in ascending order: all that have a value that is not
-- empty, but for the code 255, and each of them whole.
pub data IsWritten (o : Options) : ℕ → List (ℕ × Bytes) → Type 0 where
  done : {k : ℕ} → ((j : ℕ) → k ≤ j → j < 255 → value (o j) ≡ []) → IsWritten o k []
  code :
      {k : ℕ} (c : ℕ) {es rest : List (ℕ × Bytes)}
      → k ≤ c
      → c < 255
      → ((j : ℕ) → k ≤ j → j < c → value (o j) ≡ [])
      → IsChunks c (value (o c)) es
      → IsWritten o (suc c) rest
      → IsWritten o k (es ++ rest)

take_all : (d : Bytes) → take (length d) d ≡ d
take_all [] = refl
take_all (x ∷ d) = ap (λ t. x ∷ t) (take_all d)

drop_all : (d : Bytes) → drop (length d) d ≡ []
drop_all [] = refl
drop_all (x ∷ d) = drop_all d

length-drop : (n : ℕ) (d : Bytes) → n ≤ length d → length (drop n d) + n ≡ length d
length-drop zero d h = omega arith
length-drop (suc n) [] h = absurd (omega arith)
length-drop (suc n) (x ∷ d) h = omega (arith, length-drop n d (omega arith))

pieces_nil : (f : ℕ) → pieces f [] ≡ []
unfolding pieces
pieces_nil zero = refl
pieces_nil (suc f) = refl

pieces-IsChunks :
    (c f : ℕ) (d : Bytes) → 0 < length d → length d ≤ f → IsChunks c d (tagged c (pieces f d))
unfolding pieces
pieces-IsChunks c f [] h le = absurd (omega arith)
pieces-IsChunks c zero (x ∷ d) h le = absurd (omega arith)
pieces-IsChunks c (suc f) (x ∷ d) h le = elim (Bool-cases (ltb 255 (length (x ∷ d)))) [
  | inl long ↦
      let more : 255 < length (x ∷ d) = ground (arith, long) in
      let cut = length-drop 255 (x ∷ d) (omega arith) in
      rw long (
        subst (λ t. IsChunks c t ((c, take 255 (x ∷ d)) ∷ tagged c (pieces f (drop 255 (x ∷ d)))))
          (take-append-drop 255 (x ∷ d))
          (IsChunks.full (omega (arith, length-take 255 (x ∷ d)))
            (pieces-IsChunks c f (drop 255 (x ∷ d)) (omega arith) (omega arith))))
  | inr short ↦
      let fits : length (x ∷ d) ≤ 255 = ground (arith, short) in
      rw (short, take_all d, drop_all d, pieces_nil f) (IsChunks.last h fits)
]

below :
    (o : Options) (k c : ℕ)
    → (k < c → value (o k) ≡ [])
    → ((j : ℕ) → suc k ≤ j → j < c → value (o j) ≡ [])
    → (j : ℕ) → k ≤ j
    → j < c
    → value (o j) ≡ []
below o k c h f j le less = elim (ℕ_discrete j k) [
  | yes same ↦ ap (λ i. value (o i)) same ∙ h (omega arith)
  | no other ↦ f j (omega arith) less
]

IsWritten-weaken :
    (o : Options) (k : ℕ) (es : List (ℕ × Bytes))
    → (k < 255 → value (o k) ≡ [])
    → IsWritten o (suc k) es
    → IsWritten o k es
IsWritten-weaken o k es h (IsWritten.done f) =
    IsWritten.done (λ j le less. below o k 255 h f j le less)
IsWritten-weaken o k es h (IsWritten.code c le less f chunks rest) =
    IsWritten.code c (omega arith) less
      (λ j le' less'. below o k c (λ p. h (omega arith)) f j le' less') chunks rest

value-get : (o : Options) (k : ℕ) → elements (get k o) ≡ value (o k)
unfolding get
value-get o k = go (o k)
  where
    go : (v : Option Slice) → elements (elim v [ none ↦ none | some s ↦ s ]) ≡ value v
    go none = refl
    go (some s) = refl

-- What a code adds to the options of those behind it.
IsWritten-tagged :
    (o : Options) (k : ℕ) (d : Bytes) (rest : List (ℕ × Bytes))
    → k < 255
    → value (o k) ≡ d
    → IsWritten o (suc k) rest
    → IsWritten o k (tagged k (pieces (length d) d) ++ rest)
IsWritten-tagged o k [] rest less e w =
    subst (λ t. IsWritten o k (tagged k t ++ rest)) (sym (pieces_nil 0))
      (IsWritten-weaken o k rest (λ p. e) w)
IsWritten-tagged o k (x ∷ d) rest less e w =
    IsWritten.code k (omega arith) less (λ j le below. absurd (omega arith))
      (subst (λ t. IsChunks k t (tagged k (pieces (length (x ∷ d)) (x ∷ d)))) (sym e)
        (pieces-IsChunks k (length (x ∷ d)) (x ∷ d) (omega arith) (omega arith)))
      w

missing-value : (o : Options) (k : ℕ) → has k o ≡ false → value (o k) ≡ []
unfolding has
missing-value o k h = go (o k) h
  where
    go : (v : Option Slice) → (elim v [ none ↦ false | some s ↦ true ]) ≡ false → value v ≡ []
    go none e = refl
    go (some s) e = cc

entries-IsWritten :
    (o : Options) (n k : ℕ) → k + n ≡ 256 → IsWritten o k (entries (keys_from o k n) o)
unfolding entries keys_from
entries-IsWritten o zero k h = IsWritten.done (λ j le less. absurd (omega arith))
entries-IsWritten o (suc n) k h =
    let w = entries-IsWritten o n (suc k) (omega arith) in
    elim (Bool-cases (has k o)) [
      | inr gone ↦
          rw gone (
            IsWritten-weaken o k (entries (keys_from o (suc k) n) o) (λ p. missing-value o k gone)
              w)
      | inl there ↦ elim (ℕ_discrete k 255) [
        | yes end ↦
            rw (there, (==_iff k 255).1 end)
              (IsWritten-weaken o k (entries (keys_from o (suc k) n) o) (λ p. absurd (omega arith))
                w)
        | no more ↦
            rw (there, ==_ne k 255 more)
              (IsWritten-tagged o k (elements (get k o)) (entries (keys_from o (suc k) n) o)
                (omega arith) (sym (value-get o k)) w)
      ]
    ]

module _ (u : Uio) where
  -- What `ToBytes` writes are the options of all codes but 255 that have a value that is not empty,
  -- in ascending order of the codes, each value whole and cut into options of 255 bytes and a rest.
  pub to_bytes-IsWritten :
      (o : Options)
      → (es : List (ℕ × Bytes)) × IsWritten o 0 es × (elements (to_bytes u o) ≡ wire es)
  to_bytes-IsWritten o = (
    entries (sorted_keys o) o,
    unfold sorted_keys in entries-IsWritten o 256 0 refl,
    to_bytes-wire u o,
  )
