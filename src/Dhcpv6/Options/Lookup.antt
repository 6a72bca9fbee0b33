-- ===== src/Dhcpv6/Options/Lookup.antt =====
-- dhcpv6/options.go: how `Get`, `GetOne`, `Add`, `Del` and `Update` act on each other.
use dhcp.Prelude.{
  ℕ, ◌≡◌, ◌≢◌, refl, sym, ◌∙◌, List, [], ◌∷◌, ◌++◌, Option, none, some, ◌==◌, if◌then◌else◌,
  ==_refl, ==_ne, arith, Bool-cases, inl, inr, append-nil,
}
use dhcp.Dhcpv6.Options.{Kind, get, get_one, add, del, update}

abbrev head : {A : Type 0} → List A → Option A
head [] = none
head (x ∷ xs) = some x

module _ {E Opt : Type 0} (k : Kind E Opt) where
  -- `GetOne` gives the first of what `Get` gives.
  pub get_one-get : (c : ℕ) (o : List Opt) → get_one k c o ≡ head (get k c o)
  unfolding get get_one
  get_one-get c [] = refl
  get_one-get c (x ∷ o) = ground (arith, get_one-get c o)

  get-append : (c : ℕ) (o p : List Opt) → get k c (o ++ p) ≡ get k c o ++ get k c p
  unfolding get
  get-append c [] p = refl
  get-append c (x ∷ o) p = ground (arith, get-append c o p)

  get-del_same : (c : ℕ) (o : List Opt) → get k c (del k c o) ≡ []
  unfolding get del
  get-del_same c [] = refl
  get-del_same c (x ∷ o) = ground (arith, get-del_same c o)

  get-del_other : (c a : ℕ) (o : List Opt) → a ≢ c → get k a (del k c o) ≡ get k a o
  unfolding get del
  get-del_other c a [] h = refl
  get-del_other c a (x ∷ o) h = ground (arith, get-del_other c a o h)

  -- After `Del` of a code there is no option of that code, and those of any other code stay.
  pub get-del :
      (c a : ℕ) (o : List Opt)
      → a ≢ c
      → (get k c (del k c o) ≡ []) × (get k a (del k c o) ≡ get k a o)
  get-del c a o h = (get-del_same c o, get-del_other c a o h)

  pub get_one-update_same : (x : Opt) (o : List Opt) → get_one k (k.code x) (update k x o) ≡ some x
  unfolding get_one update
  get_one-update_same x [] = rw (==_refl (k.code x)) refl
  get_one-update_same x (y ∷ o) = ground (arith, get_one-update_same x o)

  get-update_other :
      (x : Opt) (a : ℕ) (o : List Opt) → a ≢ k.code x → get k a (update k x o) ≡ get k a o
  unfolding get update
  get-update_other x a [] h = rw (==_ne (k.code x) a (λ p. h (sym p))) refl
  get-update_other x a (y ∷ o) h = ground (arith, get-update_other x a o h)

  -- After `Update` the first option of that code is the new one, and those of any other code stay.
  pub get_one-update :
      (x : Opt) (a : ℕ) (o : List Opt)
      → a ≢ k.code x
      → (get_one k (k.code x) (update k x o) ≡ some x) × (get k a (update k x o) ≡ get k a o)
  get_one-update x a o h = (get_one-update_same x o, get-update_other x a o h)

  -- `Add` puts the option behind those of its code.
  pub get-add :
      (c : ℕ) (x : Opt) (o : List Opt)
      → get k c (add k x o) ≡ (if k.code x == c then get k c o ++ x ∷ [] else get k c o)
  unfolding get add
  get-add c x o = get-append c o (x ∷ []) ∙ elim (Bool-cases (k.code x == c)) [
    | inl p ↦ rw p refl
    | inr p ↦ rw p (append-nil (get k c o))
  ]
