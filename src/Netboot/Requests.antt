-- ===== src/Netboot/Requests.antt =====
-- netboot/netboot.go: `RequestNetbootv6` and `RequestNetbootv4`, which ask again while a client's
-- exchange fails. The clients are arguments; what is logged is left out.
use dhcp.Prelude.{
  ℕ, zero, suc, ◌+◌, ◌*◌, ◌^◌, All, ◌≡◌, ◌<◌, ◌≤◌, ◌⊎◌, inl, inr, refl, ap, ◌∙◌, Bool, true, false,
  List, [], ◌∷◌, ◌++◌, leb, if◌then◌else◌, Result, ok, err, fault, out_of_fuel, ◌>>=◌, arith,
  le→leb, lt→leb,
}
use dhcp.Durations.{double}
use dhcp.Dhcpv4.Values.{second}
use dhcp.Dhcpv6.Relaying.{ℤ, pos, negsuc}

-- `i <= retries`
abbrev pub is_within : ℕ → ℤ → Bool
is_within i (pos n) = leb i n
is_within i (negsuc n) = false

-- `i >= retries`
abbrev pub is_last : ℕ → ℤ → Bool
is_last i (pos n) = leb n i
is_last i (negsuc n) = true

-- `delay := 2 * time.Second`
abbrev pub first_delay : ℕ
first_delay = 2 * second

module _ {S A : Type 0} (exchange : ℕ → List A × Result S (Unit {0})) where
  -- How a round ends: with the conversation, after a failed attempt that is the last one too, or
  -- by sleeping before the next round.
  abbrev pub after_exchange :
      Bool
      → ℕ
      → List A × Result S (Unit {0})
      → Result S (List A × List ℕ)
      → Result S (List A × List ℕ)
  after_exchange last delay (conversation, ok _) later = ok (conversation, [])
  after_exchange last delay (conversation, err e) later =
      let slept = later >>= λ r. ok (r.0, delay ∷ r.1) in
      if last then ok (conversation, []) else slept
  after_exchange last delay (conversation, fault f) later = fault f

  -- The loop. `exchange i` is how attempt `i` ends, and `conversation` is what the one before has
  -- left. The result has the delays that were slept.
  unfoldable pub request_loop : ℕ → ℤ → ℕ → ℕ → List A → Result S (List A × List ℕ)
  request_loop zero retries i delay conversation = fault out_of_fuel
  request_loop (suc fuel) retries i delay conversation =
      let later = request_loop fuel retries (i + 1) (double delay) (exchange i).0 in
      if is_within i retries
      then after_exchange (is_last i retries) delay (exchange i) later
      else ok (conversation, [])

  abbrev pub rounds : ℤ → ℕ
  rounds (pos n) = suc (suc n)
  rounds (negsuc n) = 1

-- The client gets the caller's modifiers with `WithNetboot` behind them, which is `netboot` here.
unfoldable pub request_netboot :
    {S A M : Type 0}
    → (ℕ → List M → List A × Result S (Unit {0}))
    → M
    → ℤ
    → List M
    → Result S (List A × List ℕ)
unfolding request_loop
request_netboot {S} {A} exchange netboot retries modifiers =
    let attempt : ℕ → List A × Result S (Unit {0}) = λ i. exchange i (modifiers ++ netboot ∷ []) in
    request_loop attempt (rounds attempt retries) retries 0 first_delay []

-- The delays before attempt `k`, from attempt `i` on.
abbrev slept : ℕ → ℕ → List ℕ
slept delay zero = []
slept delay (suc k) = delay ∷ slept (double delay) k

-- Each is twice the one before.
abbrev pub delays : ℕ → ℕ → List ℕ
delays delay zero = []
delays delay (suc k) = delay ∷ delays (delay * 2) k

-- A delay that can be slept: a duration that is not negative.
abbrev pub AreDurations : List ℕ → Type 0
AreDurations ds = All (λ d. d < 2 ^ 63) ds

slept-delays : (delay k : ℕ) → AreDurations (delays delay k) → slept delay k ≡ delays delay k
slept-delays delay zero h = refl
slept-delays delay (suc zero) h = refl
slept-delays delay (suc (suc k)) h =
    let fits : double delay ≡ delay * 2 = omega (arith, h.1.0) in
    ap (λ ds. delay ∷ ds) (ap (λ d. slept d (suc k)) fits ∙ slept-delays (delay * 2) (suc k) h.1)

-- An attempt ends with an error, or without one.
abbrev pub IsFailed : {S A : Type 0} → List A × Result S (Unit {0}) → Type 0
IsFailed {S} r = (e : S) × (r.1 ≡ err e)

abbrev pub IsDone : {S A : Type 0} → List A × Result S (Unit {0}) → Type 0
IsDone r = r.1 ≡ ok tt

module _ {S A : Type 0} (exchange : ℕ → List A × Result S (Unit {0})) where
  after_exchange-IsDone :
      (last : Bool) (delay : ℕ) (r : List A × Result S (Unit {0}))
      (later : Result S (List A × List ℕ))
      → IsDone r
      → after_exchange exchange last delay r later ≡ ok (r.0, [])
  after_exchange-IsDone last delay (c, ok _) later h = refl
  after_exchange-IsDone last delay (c, err e) later h = cc
  after_exchange-IsDone last delay (c, fault f) later h = cc

  after_exchange-IsFailed :
      (last : Bool) (delay : ℕ) (r : List A × Result S (Unit {0}))
      (later : Result S (List A × List ℕ))
      → IsFailed r
      → after_exchange exchange last delay r later
        ≡ (if last then ok (r.0, []) else (later >>= λ x. ok (x.0, delay ∷ x.1)))
  after_exchange-IsFailed last delay (c, ok _) later (e, h) = cc
  after_exchange-IsFailed last delay (c, err e) later h = refl
  after_exchange-IsFailed last delay (c, fault f) later (e, h) = cc

  request_loop-ends :
      (m i fuel k n delay : ℕ) (before : List A)
      → i + m ≡ k
      → m < fuel
      → k ≤ n
      → ((j : ℕ) → j < k → IsFailed (exchange j))
      → IsDone (exchange k) ⊎ ((k ≡ n) × IsFailed (exchange k))
      → request_loop exchange fuel (pos n) i delay before ≡ ok ((exchange k).0, slept delay m)
  unfolding request_loop
  request_loop-ends m i zero k n delay before e f less failed ended = absurd (omega arith)
  request_loop-ends zero i (suc fuel) k n delay before e f less failed (inl done) =
      let here : i ≡ k = omega arith in
      rw (here, le→leb k n less) (after_exchange-IsDone (leb n k) delay (exchange k) _ done)
  request_loop-ends zero i (suc fuel) k n delay before e f less failed (inr (end, lost)) =
      let here : i ≡ k = omega arith in
      rw (here, le→leb k n less)
        (after_exchange-IsFailed (leb n k) delay (exchange k) _ lost
          ∙ rw (le→leb n k (omega arith)) refl)
  request_loop-ends (suc m) i (suc fuel) k n delay before e f less failed ended =
      let next : i + 1 ≡ suc i = omega arith in
      let rest =
        request_loop-ends m (suc i) fuel k n (double delay) (exchange i).0 (omega arith)
          (omega arith) less failed ended in
      rw (le→leb i n (omega arith), next)
        (after_exchange-IsFailed (leb n i) delay (exchange i) _ (failed i (omega arith))
          ∙ rw (lt→leb n i (omega arith), rest) refl)

-- If the first `k` attempts fail and the next one succeeds, or is the last one that is allowed and
-- fails too, then the request ends without an error: it gives the conversation of that attempt,
-- and it has slept once for each earlier one, two seconds at first and twice as long each time, if
-- these delays are durations that 63 bits hold.
pub request_netboot-ends :
    {S A M : Type 0} (exchange : ℕ → List M → List A × Result S (Unit {0})) (netboot : M) (k n : ℕ)
    (modifiers : List M)
    → k ≤ n
    → AreDurations (delays first_delay k)
    → ((j : ℕ) → j < k → IsFailed (exchange j (modifiers ++ netboot ∷ [])))
    → IsDone (exchange k (modifiers ++ netboot ∷ []))
      ⊎ ((k ≡ n) × IsFailed (exchange k (modifiers ++ netboot ∷ [])))
    → request_netboot exchange netboot (pos n) modifiers
      ≡ ok ((exchange k (modifiers ++ netboot ∷ [])).0, delays first_delay k)
unfolding request_netboot
request_netboot-ends exchange netboot k n modifiers less fits failed ended =
    request_loop-ends (λ i. exchange i (modifiers ++ netboot ∷ [])) k 0 (suc (suc n)) k n
      first_delay [] (omega arith) (omega arith) less failed ended
    ∙ ap (λ ds. ok ((exchange k (modifiers ++ netboot ∷ [])).0, ds))
        (slept-delays first_delay k fits)
