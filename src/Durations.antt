-- ===== src/Durations.antt =====
-- Go's time.Duration, an `int64` of nanoseconds, as its residue modulo 2 ^ 64.
use dhcp.Prelude.{ℕ, zero, suc, ◌+◌, ◌*◌, ◌%◌, ◌^◌, ◌-◌, ◌≤◌, ◌<◌, ◌≡◌, refl, ap, arith}

-- `timeout *= 2` and `delay = delay * 2`.
abbrev pub double : ℕ → ℕ
double t = t * 2 % 2 ^ 64

-- A number doubled so many times, without a bound.
abbrev pub doubled : ℕ → ℕ → ℕ
doubled t zero = t
doubled t (suc i) = doubled t i * 2

-- The same with durations.
abbrev pub wrapped : ℕ → ℕ → ℕ
wrapped t zero = t
wrapped t (suc i) = double (wrapped t i)

doubled-le : (t d i k : ℕ) → i + d ≡ k → doubled t i ≤ doubled t k
doubled-le t zero i k e = let same : i ≡ k = omega arith in omega (arith, ap (doubled t) same)
doubled-le t (suc d) i k e = omega (arith, doubled-le t d (suc i) k (omega arith))

wrapped_fits : (t i : ℕ) → doubled t i < 2 ^ 64 → wrapped t i ≡ doubled t i
wrapped_fits t zero h = refl
wrapped_fits t (suc i) h = omega (arith, wrapped_fits t i (omega arith))

-- What has been doubled fewer times fits as well.
pub doubled-lt : (t k j : ℕ) → j ≤ k → doubled t k < 2 ^ 63 → doubled t j < 2 ^ 63
doubled-lt t k j le bound = omega (arith, doubled-le t (k - j) j k (omega arith))

-- A duration that 63 bits hold has not wrapped.
pub wrapped-doubled : (t k j : ℕ) → j ≤ k → doubled t k < 2 ^ 63 → wrapped t j ≡ doubled t j
wrapped-doubled t k j le bound = wrapped_fits t j (omega (arith, doubled-lt t k j le bound))
