-- ===== src/Prelude/Outcome.antt =====
-- What a Go function that may fail gives back: a value, an error, or no return at all.
use mathlib.Core.Path.{◌≡◌, refl, ap}
use mathlib.Core.Logic.{◌≢◌}
use mathlib.Core.Bool.{Bool, true, false}
use dhcp.Prelude.Tests.{if◌then◌else◌}

-- A run-time panic, or a loop whose fuel ran out before it ended.
pub data Fault : Type 0 where
  panic out_of_fuel : Fault

pub data Result {ℓ κ} (E : Type ℓ) (A : Type κ) : Type (ℓ ⊔ κ) where
  ok : A → Result E A
  err : E → Result E A
  fault : Fault → Result E A

-- What follows is run on a value alone.
infixl 5 ◌>>=◌
abbrev pub ◌>>=◌ {ℓ κ μ} :
    {Failure : Type ℓ} {Value : Type κ} {Next : Type μ}
    → Result Failure Value
    → (Value → Result Failure Next)
    → Result Failure Next
fault x >>= next = fault x
err failure >>= next = err failure
ok value >>= next = next value

-- A run that gives a value has had one in the middle.
pub >>=-eq-ok {ℓ κ μ} :
    {Failure : Type ℓ} {Value : Type κ} {Next : Type μ} (first : Result Failure Value)
    (next : Value → Result Failure Next) {last : Next}
    → (first >>= next) ≡ ok last
    → (middle : Value) × (first ≡ ok middle) × (next middle ≡ ok last)
>>=-eq-ok (fault x) next ended = cc
>>=-eq-ok (err failure) next ended = cc
>>=-eq-ok (ok middle) next ended = (middle, refl, ended)

module _ {ℓ κ} {E : Type ℓ} {A : Type κ} where
  ok_or : A → Result E A → A
  ok_or a (ok b) = b
  ok_or a (err e) = a
  ok_or a (fault x) = a

  pub ok-injective : {a b : A} → ◌≡◌ {A = Result E A} (ok a) (ok b) → a ≡ b
  unfolding ok_or
  ok-injective {a} p = ap (ok_or a) p

-- A run has no fault if neither of its parts has.
pub >>=-ne-fault {ℓ κ μ} :
    {Failure : Type ℓ} {Value : Type κ} {Next : Type μ} (first : Result Failure Value)
    (next : Value → Result Failure Next) (x : Fault)
    → ((y : Fault) → first ≢ fault y)
    → ((value : Value) → next value ≢ fault x)
    → (first >>= next) ≢ fault x
>>=-ne-fault (ok value) next x h k = k value
>>=-ne-fault (err failure) next x h k = λ p. cc
>>=-ne-fault (fault y) next x h k = absurd (h y refl)

-- The same, when what follows has to be known of the value.
pub >>=-ne-fault_known {ℓ κ μ} :
    {Failure : Type ℓ} {Value : Type κ} {Next : Type μ} (first : Result Failure Value)
    (next : Value → Result Failure Next) (x : Fault)
    → ((y : Fault) → first ≢ fault y)
    → ((value : Value) → first ≡ ok value → next value ≢ fault x)
    → (first >>= next) ≢ fault x
>>=-ne-fault_known (ok value) next x h k = k value refl
>>=-ne-fault_known (err failure) next x h k = λ p. cc
>>=-ne-fault_known (fault y) next x h k = absurd (h y refl)

fault_or {ℓ κ} : {E : Type ℓ} {A : Type κ} → Fault → Result E A → Fault
fault_or x (ok a) = x
fault_or x (err e) = x
fault_or x (fault y) = y

-- An error seen by the caller as one of its own.
abbrev pub map_err {ℓ κ μ} :
    {Inner : Type ℓ} {Outer : Type κ} {Value : Type μ}
    → (Inner → Outer)
    → Result Inner Value
    → Result Outer Value
map_err wrap (ok value) = ok value
map_err wrap (err failure) = err (wrap failure)
map_err wrap (fault x) = fault x

pub map_err-ne-fault {ℓ κ μ} :
    {Inner : Type ℓ} {Outer : Type κ} {Value : Type μ} (wrap : Inner → Outer)
    (run : Result Inner Value) (x : Fault)
    → run ≢ fault x
    → map_err wrap run ≢ fault x
unfolding fault_or
map_err-ne-fault wrap (ok value) x h = λ p. cc
map_err-ne-fault wrap (err failure) x h = λ p. cc
map_err-ne-fault wrap (fault y) x h = λ p. h (ap (λ r. fault (fault_or x r)) p)

-- A value, or an error if a test says so.
pub if-ne-fault {ℓ κ} :
    {E : Type ℓ} {A : Type κ} (c : Bool) (e : E) (r : Result E A) (x : Fault)
    → r ≢ fault x
    → (if c then err e else r) ≢ fault x
if-ne-fault true e r x h = λ p. cc
if-ne-fault false e r x h = h

pub map_err-ok {ℓ κ μ} :
    {Inner : Type ℓ} {Outer : Type κ} {Value : Type μ} (wrap : Inner → Outer)
    (run : Result Inner Value) (value : Value)
    → map_err wrap run ≡ ok value
    → run ≡ ok value
map_err-ok wrap (ok b) value h = ap ok (ok-injective h)
map_err-ok wrap (err e) value h = cc
map_err-ok wrap (fault x) value h = cc

-- A value that is there although a test could have given an error.
pub unless-ok {ℓ κ} :
    {E : Type ℓ} {A : Type κ} (c : Bool) (e : E) (r : Result E A) (a : A)
    → (if c then err e else r) ≡ ok a
    → (c ≡ false) × (r ≡ ok a)
unless-ok true e r a h = cc
unless-ok false e r a h = (refl, h)
