-- ===== src/Nclient4/Request/Sound.antt =====
-- dhcpv4/nclient4/client.go: where what `Request` gives back comes from.
use dhcp.Prelude.{
  ℕ, zero, suc, ◌+◌, ◌≡◌, refl, sym, ap, ◌∙◌, Bool, true, false, ◌==◌, List, [], ◌∷◌, Option, none,
  some, Result, ok, err, fault, map_err, map_err-ok, >>=-eq-ok, ok-injective, Bool-cases, inl, inr,
  ==_iff, ◌⊎◌,
}
use mathlib.Core.Path.{subst}
use mathlib.Core.Option.{some-injective}
use dhcp.Durations.{double}
use dhcp.Uio.{Uio}
use dhcp.Dhcpv4.Codes.{message_type_offer}
use dhcp.Dhcpv4.Packet.{Dhcpv4}
use dhcp.Dhcpv4.Getters.{message_type}
use dhcp.Dhcpv4.Modifiers.{Modifier}
use dhcp.Dhcpv4.New.{new_discovery, new_request_from_offer}
use dhcp.Nclient4.Retry
use dhcp.Nclient4.Retry.{
  Event, received, client_closed, timed_out, context_over, Limit, attempt, matches, is_message_type,
  retry_fn, send_and_read, limit, after_attempt, visible, may_try, no_response, deadline_exceeded,
  context_done, send_failed,
}
use dhcp.Nclient4.Request.{
  Host, not_made, not_answered, timed, dereference, try_once, rounds, ask, with_size,
  discover_offer, request,
}

-- A packet is among the events.
pub data IsMet (packet : Option Dhcpv4) : List Event → Type 0 where
  first : {events : List Event} → IsMet packet (received packet ∷ events)
  behind : {e : Event} {events : List Event} → IsMet packet events → IsMet packet (e ∷ events)

module _ {A : Type 0} (fn : ℕ → ℕ → Result Retry.Error A) where
  after_attempt-ok :
      (r later : Result Retry.Error A) (a : A)
      → after_attempt fn r later ≡ ok a
      → (r ≡ ok a) ⊎ (later ≡ ok a)
  after_attempt-ok (ok b) later a h = inl h
  after_attempt-ok (err no_response) later a h = cc
  after_attempt-ok (err deadline_exceeded) later a h = inr h
  after_attempt-ok (err context_done) later a h = cc
  after_attempt-ok (err send_failed) later a h = cc
  after_attempt-ok (fault x) later a h = cc

  -- A value that the retries give is that of an attempt.
  retry_fn-ok :
      (fuel : ℕ) (retry : Limit) (i t : ℕ) (a : A)
      → retry_fn fn fuel retry i t ≡ ok a
      → (j s : ℕ) × (fn j s ≡ ok a)
  unfolding retry_fn
  retry_fn-ok zero retry i t a h = cc
  retry_fn-ok (suc fuel) retry i t a h = elim (Bool-cases (may_try i retry)) [
    | inl p ↦
        elim (after_attempt-ok (fn i t) (retry_fn fn fuel retry (i + 1) (double t)) a (rw p at h)) [
          | inl q ↦ (i, t, q)
          | inr q ↦ retry_fn-ok fuel retry (i + 1) (double t) a q
        ]
    | inr p ↦ cc (rw p at h)
  ]

  visible-ok : (r : Result Retry.Error A) (a : A) → visible fn r ≡ ok a → r ≡ ok a
  visible-ok (ok b) a h = h
  visible-ok (err no_response) a h = cc
  visible-ok (err deadline_exceeded) a h = cc
  visible-ok (err context_done) a h = cc
  visible-ok (err send_failed) a h = cc
  visible-ok (fault x) a h = cc

after_match :
    Option Dhcpv4
    → Option (Result Retry.Error (Option Dhcpv4))
    → Result Retry.Error Bool
    → Option (Result Retry.Error (Option Dhcpv4))
after_match packet later r = elim r [
  | ok true ↦ some (ok packet)
  | ok false ↦ later
  | err e ↦ some (err e)
  | fault x ↦ some (fault x)
]

IsMet-after_match :
    (match : Option (Dhcpv4 → Bool)) (packet r : Option Dhcpv4) (events : List Event)
    (later : Option (Result Retry.Error (Option Dhcpv4)))
    → (later ≡ some (ok r) → IsMet r events × (matches match r ≡ ok true))
    → (m : Result Retry.Error Bool) → matches match packet ≡ m
    → after_match packet later m ≡ some (ok r)
    → IsMet r (received packet ∷ events) × (matches match r ≡ ok true)
unfolding after_match
IsMet-after_match match packet r events later k (ok true) at h =
    let same : packet ≡ r = ok-injective (some-injective _ _ h) in
    subst (λ x. IsMet x (received packet ∷ events) × (matches match x ≡ ok true)) same
      (IsMet.first, at)
IsMet-after_match match packet r events later k (ok false) at h =
    let (met, matched) = k h in (IsMet.behind met, matched)
IsMet-after_match match packet r events later k (err e) at h = cc
IsMet-after_match match packet r events later k (fault x) at h = cc

attempt-ok :
    (match : Option (Dhcpv4 → Bool)) (events : List Event) (r : Option Dhcpv4)
    → attempt match events ≡ some (ok r)
    → IsMet r events × (matches match r ≡ ok true)
unfolding attempt after_match
attempt-ok match [] r h = cc
attempt-ok match (client_closed ∷ events) r h = cc
attempt-ok match (timed_out ∷ events) r h = cc
attempt-ok match (context_over ∷ events) r h = cc
attempt-ok match (received packet ∷ events) r h =
    IsMet-after_match match packet r events (attempt match events) (attempt-ok match events r)
      (matches match packet) refl h

timed-ok :
    (x : Option (Result Retry.Error (Option Dhcpv4))) (r : Option Dhcpv4)
    → timed x ≡ ok r
    → x ≡ some (ok r)
timed-ok none r h = cc
timed-ok (some y) r h = ap some h

dereference-ok : (x : Option Dhcpv4) (d : Dhcpv4) → dereference x ≡ ok d → x ≡ some d
dereference-ok none d h = cc
dereference-ok (some y) d h = ap some (ok-injective h)

module _ (u : Uio) (h : Host) where
  -- While the packet waited for an answer, that one came, and it was accepted.
  abbrev pub IsAnswered : Option (Dhcpv4 → Bool) → Dhcpv4 → Option Dhcpv4 → Type 0
  IsAnswered match p r =
      (i t : ℕ) × (events : List Event) × (h.meets p i t ≡ ok events)
      × IsMet r events
      × (matches match r ≡ ok true)

  ask-ok :
      (match : Option (Dhcpv4 → Bool)) (p : Dhcpv4) (r : Option Dhcpv4)
      → ask u h match p ≡ ok r
      → IsAnswered match p r
  unfolding ask send_and_read
  ask-ok match p r e =
      let run = try_once u h match p in
      let answered = visible-ok run _ r (map_err-ok not_answered _ r e) in
      let (i, t, found) =
        retry_fn-ok run (rounds h.rounds h.retries) h.retries 0 h.timeout r answered in
      let (events, met, ended) = >>=-eq-ok (h.meets p i t) _ found in
      let (among, matched) = attempt-ok match events r (timed-ok _ r ended) in
      (i, t, events, met, among, matched)

  -- How the packets of a request are made and answered.
  abbrev pub IsRequested : List Modifier → Dhcpv4 → Option Dhcpv4 → Type 0
  IsRequested modifiers offer ack =
      (discover req : Dhcpv4) × (new_discovery u h.discover_random h.iface_hw_addr
          (with_size u h modifiers)
        ≡ ok discover)
      × IsAnswered (some (is_message_type u message_type_offer)) discover (some offer)
      × (message_type u offer ≡ message_type_offer)
      × (new_request_from_offer u h.request_random offer (with_size u h modifiers) ≡ ok req)
      × IsAnswered none req ack

  is_offer : (d : Dhcpv4) → is_message_type u message_type_offer d ≡ true → message_type u d ≡ 2
  unfolding is_message_type
  is_offer d e = elim (Bool-cases (message_type u d == 2)) [
    | inl p ↦ (==_iff (message_type u d) 2).0 p
    | inr p ↦ cc (rw p at e)
  ]

  -- The offer that Request gives back has come while a discovery waited, and is of the type Offer;
  -- the acknowledgement has come while a request waited that was made from that offer.
  pub request_sound :
      (modifiers : List Modifier) (offer : Dhcpv4) (ack : Option Dhcpv4)
      → request u h modifiers ≡ ok (offer, ack)
      → IsRequested modifiers offer ack
  unfolding request discover_offer
  request_sound modifiers offer ack e =
      let (found, at_found, e₁) = >>=-eq-ok (discover_offer u h modifiers) _ e in
      let (offer₂, at_offer, e₂) = >>=-eq-ok (dereference found) _ e₁ in
      let (req, at_req, e₃) =
        >>=-eq-ok
          (map_err not_made
            (new_request_from_offer u h.request_random offer₂ (with_size u h modifiers)))
          _ e₂ in
      let (ack₂, at_ack, e₄) = >>=-eq-ok (ask u h none req) _ e₃ in
      let (discover, at_discover, asked) =
        >>=-eq-ok
          (map_err not_made
            (new_discovery u h.discover_random h.iface_hw_addr (with_size u h modifiers)))
          _ at_found in
      let made = ok-injective e₄ in
      let answered = ask-ok (some (is_message_type u message_type_offer)) discover found asked in
      let is_found = dereference-ok found offer₂ at_offer ∙ (λ j. some (made j).0) in
      let offered =
        subst (IsAnswered (some (is_message_type u message_type_offer)) discover) is_found
          answered in
      (
        discover,
        req,
        map_err-ok not_made _ discover at_discover,
        offered,
        is_offer offer (ok-injective offered.5),
        map_err-ok not_made _ req (
            ap
              (λ (d : Dhcpv4).
                map_err not_made
                  (new_request_from_offer u h.request_random d (with_size u h modifiers)))
              (sym (ap (λ r. r.0) made))
            ∙ at_req),
        subst (IsAnswered none req) (ap (λ r. r.1) made) (ask-ok none req ack₂ at_ack),
      )
