-- ===== src/Dhcpv6/Options.antt =====
-- dhcpv6/options.go: the sequence of options of a message. A client fills the interface `Kind`
-- with its type of options and its `OptionParser`.
pub mod Lookup
pub mod Generic
pub mod Step
pub mod RoundTrip
pub mod Termination
use dhcp.Prelude.{
  ℕ, ◌+◌, ◌≡◌, Bool, true, false, not, List, [], ◌∷◌, ◌++◌, Option, none, some, ◌==◌, if◌then◌else◌,
  length, Bytes, Slice, elements, Result, ok, err, fault, Fault, out_of_fuel, ◌>>=◌, suc,
}
use dhcp.Uio.{Uio}
use dhcp.Uio.Items.{each, write_each, finish}

-- What the container uses of an `Option`: `Code`, `ToBytes`, and the parser of the type.
pub record Kind (E Opt : Type 0) : Type 0 where
  pub code : Opt → ℕ
  pub value : Opt → Bytes
  pub parse : ℕ → Slice → Result E Opt

-- An error of the parser, or of `FinError`.
pub data Error (E : Type 0) : Type 0 where
  bad_option : E → Error E
  unread : Error E

module _ {E Opt : Type 0} (k : Kind E Opt) where
  unfoldable pub get : ℕ → List Opt → List Opt
  get code [] = []
  get code (opt ∷ o) = let rest = get code o in if k.code opt == code then opt ∷ rest else rest

  unfoldable pub get_one : ℕ → List Opt → Option Opt
  get_one code [] = none
  get_one code (opt ∷ o) =
      let rest = get_one code o in if k.code opt == code then some opt else rest

  unfoldable pub add : Opt → List Opt → List Opt
  add option o = o ++ option ∷ []

  unfoldable pub del : ℕ → List Opt → List Opt
  del code [] = []
  del code (opt ∷ o) =
      let rest = del code o in if not (k.code opt == code) then opt ∷ rest else rest

  -- The option is added if the loop ends without having replaced one.
  unfoldable pub update : Opt → List Opt → List Opt
  update option [] = option ∷ []
  update option (opt ∷ o) =
      let rest = update option o in if k.code opt == k.code option then option ∷ o else opt ∷ rest

  module _ (u : Uio) where
    open u use {Lexer}

    unfoldable pub write_option : Opt → Lexer → Lexer
    write_option opt buf =
        u.write_bytes (k.value opt) (u.write16 (length (k.value opt)) (u.write16 (k.code opt) buf))

    unfoldable pub to_bytes : List Opt → Slice
    unfolding write_option
    to_bytes o = u.contents (write_each u write_option o (u.new []))

    -- One round of the loop of `FromBytesWithParser`. `Consume` gives `nil` for a length that is
    -- longer than the rest, and the parser is called with it.
    unfoldable pub read_option : Lexer → Result (Error E) (Opt × Lexer)
    read_option buf =
        let (code, b₁) = u.read16 buf in
        let (n, b₂) = u.read16 b₁ in
        let (opt_data, b₃) = u.consume n b₂ in
        elim (k.parse code opt_data) [
          | ok opt ↦ ok (opt, b₃)
          | err e ↦ err (bad_option e)
          | fault x ↦ fault x
        ]

    -- A round takes four bytes or more, so the length of the input is fuel enough.
    unfoldable pub from_bytes_with_parser : Bytes → Result (Error E) (List Opt)
    unfolding read_option
    from_bytes_with_parser bs =
        let parsed =
          each u 4 read_option (suc (length bs)) [] (u.new bs) >>= λ r. finish u unread r.0 r.1 in
        if length bs == 0 then ok [] else parsed
