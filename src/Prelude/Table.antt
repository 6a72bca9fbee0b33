-- ===== src/Prelude/Table.antt =====
-- Comparing functions at every number below a bound.
use Prim.Native.Nat.{ℕ, zero, suc, ◌<◌}
use mathlib.Core.Path.{◌≡◌}
use mathlib.Core.Bool.{Bool, true, false}
use native.Mathlib.Omega.{arith}
use dhcp.Prelude.Tests.{◌==◌, if◌then◌else◌}
use native.Mathlib.Decide.{ℕ_discrete}

-- Whether two functions have one value at every number below a bound.
unfoldable pub agree : ℕ → (ℕ → ℕ) → (ℕ → ℕ) → Bool
agree zero f g = true
agree (suc n) f g = let below = agree n f g in if f n == g n then below else false

pub agree_below : (n : ℕ) (f g : ℕ → ℕ) (x : ℕ) → agree n f g ≡ true → x < n → f x ≡ g x
unfolding agree
agree_below zero f g x same small = absurd (omega arith)
agree_below (suc n) f g x same small = elim (ℕ_discrete x n) [
  | yes last ↦ let at_last : f n ≡ g n = ground (arith, same) in rw last at_last
  | no before ↦ agree_below n f g x (ground (arith, same)) (omega arith)
]
