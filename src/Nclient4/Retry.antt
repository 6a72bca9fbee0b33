-- ===== src/Nclient4/Retry.antt =====
-- dhcpv4/nclient4/client.go: an attempt of `SendAndRead` to get an answer, and its retries.
use dhcp.Prelude.{
  ◌⊎◌, ℕ, zero, suc, ◌+◌, ◌≡◌, ◌≢◌, ◌<◌, ◌^◌, refl, sym, ap, ◌∙◌, Bool, true, false, List, [], ◌∷◌,
  Option, none, some, ltb, ◌==◌, ◌||◌, if◌then◌else◌, Result, ok, err, fault, panic, out_of_fuel,
  arith, lt→ltb, le→ltb, Bool-cases, inl, inr,
}
use dhcp.Durations.{double, doubled, wrapped, wrapped-doubled}
use dhcp.Uio.{Uio}
use dhcp.Dhcpv4.Codes.{message_type_none}
use dhcp.Dhcpv4.Packet.{Dhcpv4}
use dhcp.Dhcpv4.Getters.{message_type}

-- What ends an attempt without an answer: the client is closed, the time is over, the caller's
-- context is done, or `send` has failed.
pub data Error : Type 0 where
  no_response deadline_exceeded context_done send_failed : Error

-- What the `select` of an attempt sees next. A channel that has been closed gives `nil` packets.
pub data Event : Type 0 where
  client_closed timed_out context_over : Event
  received : Option Dhcpv4 → Event

-- `IsMessageType`
unfoldable pub is_message_type : Uio → ℕ → Dhcpv4 → Bool
is_message_type u t p = message_type u p == t || t == message_type_none

-- `match == nil || match(packet)`. A matcher reads the packet, which panics on `nil`.
abbrev pub matches : Option (Dhcpv4 → Bool) → Option Dhcpv4 → Result Error Bool
matches none packet = ok true
matches (some match) none = fault panic
matches (some match) (some packet) = ok (match packet)

-- The loop of an attempt over what happens; it waits when nothing does.
unfoldable pub attempt : Option (Dhcpv4 → Bool) → List Event → Option (Result Error (Option Dhcpv4))
attempt match [] = none
attempt match (client_closed ∷ events) = some (err no_response)
attempt match (timed_out ∷ events) = some (err deadline_exceeded)
attempt match (context_over ∷ events) = some (err context_done)
attempt match (received packet ∷ events) =
    let later = attempt match events in
    elim (matches match packet) [
      | ok true ↦ some (ok packet)
      | ok false ↦ later
      | err e ↦ some (err e)
      | fault x ↦ some (fault x)
    ]

-- `c.retry`: a negative number is no limit.
pub data Limit : Type 0 where
  limit : ℕ → Limit
  unlimited : Limit

abbrev pub may_try : ℕ → Limit → Bool
may_try i (limit n) = ltb i n
may_try i unlimited = true

module _ {A : Type 0} (fn : ℕ → ℕ → Result Error A) where
  -- What `retryFn` does with the result of an attempt.
  abbrev pub after_attempt : Result Error A → Result Error A → Result Error A
  after_attempt (err deadline_exceeded) later = later
  after_attempt r later = r

  -- The loop of `retryFn`. `fn i t` is how attempt `i` ends with the timeout `t`.
  unfoldable pub retry_fn : ℕ → Limit → ℕ → ℕ → Result Error A
  retry_fn zero retry i timeout = fault out_of_fuel
  retry_fn (suc fuel) retry i timeout =
      let later = retry_fn fuel retry (i + 1) (double timeout) in
      if may_try i retry then after_attempt (fn i timeout) later else err deadline_exceeded

  -- The error that the callers of `SendAndRead` see.
  abbrev pub visible : Result Error A → Result Error A
  visible (err deadline_exceeded) = err no_response
  visible r = r

  unfoldable pub send_and_read : ℕ → Limit → ℕ → Result Error A
  unfolding retry_fn
  send_and_read fuel retry timeout = visible (retry_fn fuel retry 0 timeout)

after_answer :
    {A : Type 0} (fn : ℕ → ℕ → Result Error A) (r later : Result Error A)
    → r ≢ err deadline_exceeded
    → after_attempt fn r later ≡ r
after_answer fn (ok a) later h = refl
after_answer fn (err no_response) later h = refl
after_answer fn (err deadline_exceeded) later h = absurd (h refl)
after_answer fn (err context_done) later h = refl
after_answer fn (err send_failed) later h = refl
after_answer fn (fault x) later h = refl

visible_answer :
    {A : Type 0} (fn : ℕ → ℕ → Result Error A) (r : Result Error A)
    → r ≢ err deadline_exceeded
    → visible fn r ≡ r
visible_answer fn (ok a) h = refl
visible_answer fn (err no_response) h = refl
visible_answer fn (err deadline_exceeded) h = absurd (h refl)
visible_answer fn (err context_done) h = refl
visible_answer fn (err send_failed) h = refl
visible_answer fn (fault x) h = refl

module _ {A : Type 0} (fn : ℕ → ℕ → Result Error A) (t : ℕ) where
  -- An attempt that times out is followed by the next one.
  retry_fn-next :
      (fuel i n : ℕ)
      → i < n
      → fn i (wrapped t i) ≡ err deadline_exceeded
      → retry_fn fn (suc fuel) (limit n) i (wrapped t i)
        ≡ retry_fn fn fuel (limit n) (suc i) (wrapped t (suc i))
  unfolding retry_fn
  retry_fn-next fuel i n less over =
      let one : i + 1 ≡ suc i = omega arith in
      rw (lt→ltb i n less, over) (ap (λ j. retry_fn fn fuel (limit n) j (wrapped t (suc i))) one)

  -- An attempt that ends in another way is the last.
  retry_fn-last :
      (fuel i n : ℕ)
      → i < n
      → fn i (wrapped t i) ≢ err deadline_exceeded
      → retry_fn fn (suc fuel) (limit n) i (wrapped t i) ≡ fn i (wrapped t i)
  unfolding retry_fn
  retry_fn-last fuel i n less answer =
      rw (lt→ltb i n less) (after_answer fn (fn i (wrapped t i)) _ answer)

  retry_fn-answer :
      (d i fuel k n : ℕ)
      → i + d ≡ k
      → d < fuel
      → k < n
      → ((j : ℕ) → j < k → fn j (wrapped t j) ≡ err deadline_exceeded)
      → fn k (wrapped t k) ≢ err deadline_exceeded
      → retry_fn fn fuel (limit n) i (wrapped t i) ≡ fn k (wrapped t k)
  retry_fn-answer d i zero k n e f less over answer = absurd (omega arith)
  retry_fn-answer zero i (suc fuel) k n e f less over answer =
      let here : k ≡ i = omega arith in
      rw here
        (retry_fn-last fuel i n (omega arith) (λ p. answer (ap (λ j. fn j (wrapped t j)) here ∙ p)))
  retry_fn-answer (suc d) i (suc fuel) k n e f less over answer =
      retry_fn-next fuel i n (omega arith) (over i (omega arith))
      ∙ retry_fn-answer d (suc i) fuel k n (omega arith) (omega arith) less over answer

  retry_fn-over :
      (d i fuel n : ℕ)
      → i + d ≡ n
      → d < fuel
      → ((j : ℕ) → j < n → fn j (wrapped t j) ≡ err deadline_exceeded)
      → retry_fn fn fuel (limit n) i (wrapped t i) ≡ err deadline_exceeded
  unfolding retry_fn
  retry_fn-over d i zero n e f over = absurd (omega arith)
  retry_fn-over zero i (suc fuel) n e f over = rw (le→ltb i n (omega arith)) refl
  retry_fn-over (suc d) i (suc fuel) n e f over =
      retry_fn-next fuel i n (omega arith) (over i (omega arith))
      ∙ retry_fn-over d (suc i) fuel n (omega arith) (omega arith) over

  -- With a limit of `n` attempts, of which the first `k` time out: if there is another one and it
  -- ends in another way, that is the result, and if there is none, the result is that there was no
  -- response, whatever a further attempt would give. Attempt `j` has the first timeout doubled `j`
  -- times, if that of attempt `k` would be a duration that 63 bits hold.
  pub send_and_read-attempts :
      (k n : ℕ) (r : Result Error A)
      → doubled t k < 2 ^ 63
      → ((j : ℕ) → j < k → fn j (doubled t j) ≡ err deadline_exceeded)
      → ((k < n) × (fn k (doubled t k) ≢ err deadline_exceeded) × (r ≡ fn k (doubled t k)))
        ⊎ ((k ≡ n) × (r ≡ err no_response))
      → send_and_read fn (suc n) (limit n) t ≡ r
  unfolding send_and_read
  send_and_read-attempts k n r bound over (inl (less, answer, same)) =
      let last = ap (fn k) (wrapped-doubled t k k (omega arith) bound) in
      ap (visible fn) (
        retry_fn-answer k 0 (suc n) k n (omega arith) (omega arith) less
          (λ j below. ap (fn j) (wrapped-doubled t k j (omega arith) bound) ∙ over j below)
          (λ p. answer (sym last ∙ p))
        ∙ last)
      ∙ visible_answer fn (fn k (doubled t k)) answer
      ∙ sym same
  send_and_read-attempts k n r bound over (inr (end, same)) =
      ap (visible fn) (
        retry_fn-over n 0 (suc n) n (omega arith) (omega arith)
          (λ j below. ap (fn j) (wrapped-doubled t k j (omega arith) bound) ∙ over j (omega arith)))
      ∙ sym same

-- A response that an attempt gives back is a packet that came and that the matcher accepts; what
-- came before it and was not accepted is passed over.
pub attempt_sound :
    (match : Dhcpv4 → Bool) (events : List Event) (packet : Option Dhcpv4)
    → attempt (some match) events ≡ some (ok packet)
    → (p : Dhcpv4) × (packet ≡ some p) × (match p ≡ true)
unfolding attempt
attempt_sound match [] packet h = cc
attempt_sound match (client_closed ∷ events) packet h = cc
attempt_sound match (timed_out ∷ events) packet h = cc
attempt_sound match (context_over ∷ events) packet h = cc
attempt_sound match (received none ∷ events) packet h = cc
attempt_sound match (received (some p) ∷ events) packet h = elim (Bool-cases (match p)) [
  | inl m ↦ (p, cc (rw m at h), m)
  | inr m ↦ attempt_sound match events packet (rw m at h)
]
