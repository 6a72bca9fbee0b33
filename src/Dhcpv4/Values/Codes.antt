-- ===== src/Dhcpv4/Values/Codes.antt =====
-- dhcpv4/option_parameter_request_list.go: a list of option codes as a set.
use dhcp.Prelude.{
  ℕ, ◌≡◌, refl, ◌∙◌, ◌||◌, List, [], ◌∷◌, ◌++◌, ◌==◌, arith, Bool-cases, inl, inr, ==_iff,
}
use dhcp.Dhcpv4.Values.{codes_has, codes_add}

pub codes_has-append :
    (c d : ℕ) (ol : List ℕ) → codes_has c (ol ++ d ∷ []) ≡ (codes_has c ol || d == c)
unfolding codes_has
codes_has-append c d [] = ground arith
codes_has-append c d (x ∷ ol) = ground (arith, codes_has-append c d ol)

-- After `Add`, the list has the codes that it had and those that were added, and no others.
pub codes_has-codes_add :
    (c : ℕ) (cs ol : List ℕ) → codes_has c (codes_add cs ol) ≡ (codes_has c ol || codes_has c cs)
unfolding codes_has codes_add
codes_has-codes_add c [] ol = ground arith
codes_has-codes_add c (d ∷ cs) ol = elim (Bool-cases (codes_has d ol)) [
  | inl old ↦ rw old (
      codes_has-codes_add c cs ol ∙ elim (Bool-cases (d == c)) [
        | inl same ↦ let e = (==_iff d c).0 same in ground (arith, rw e at old)
        | inr other ↦ rw other refl
      ])
  | inr new ↦
      rw new (codes_has-codes_add c cs (ol ++ d ∷ []) ∙ rw (codes_has-append c d ol) (ground arith))
]
