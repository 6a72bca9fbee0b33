-- ===== src/Nclient4/Request.antt =====
-- dhcpv4/nclient4/client.go: `DiscoverOffer` and `Request`, over the attempts of `SendAndRead`.
pub mod Sound
use dhcp.Prelude.{
  ℕ, suc, ◌≡◌, refl, sym, ap, ◌∙◌, Bool, true, false, ◌||◌, ◌==◌, List, [], ◌∷◌, Option, none, some,
  Bytes, Result, ok, err, fault, panic, ◌>>=◌, map_err, map_err-ok, >>=-eq-ok, ok-injective, ==_iff,
  arith,
}
use dhcp.Uio.{Uio}
use dhcp.Dhcpv4.Codes.{message_type_offer}
use dhcp.Dhcpv4.Packet.{Dhcpv4}
use dhcp.Dhcpv4.Getters.{message_type}
use dhcp.Dhcpv4.Modifiers.{Modifier, prepend_modifiers, with_option, opt_max_message_size}
use dhcp.Dhcpv4.New
use dhcp.Dhcpv4.New.{RandomRead, new_discovery, new_request_from_offer}
use dhcp.Nclient4.Retry
use dhcp.Nclient4.Retry.{
  Event, attempt, is_message_type, retry_fn, send_and_read, Limit, limit, unlimited,
  deadline_exceeded, attempt_sound, after_attempt, visible, may_try,
}

-- The client's retries, timeout and address, how many rounds an unlimited loop is followed, random
-- bytes for either packet, and what an attempt to send a packet meets: a failure, or events until
-- its timer runs out.
pub record Host : Type 0 where
  pub retries : Limit
  pub rounds : ℕ
  pub timeout : ℕ
  pub iface_hw_addr : Bytes
  pub discover_random : RandomRead
  pub request_random : RandomRead
  pub meets : Dhcpv4 → ℕ → ℕ → Result Retry.Error (List Event)

pub data Error : Type 0 where
  not_made : New.Error → Error
  not_answered : Retry.Error → Error

abbrev pub max_message_size : ℕ
max_message_size = 1500

-- The timer runs out when nothing has ended the attempt.
abbrev pub timed : Option (Result Retry.Error (Option Dhcpv4)) → Result Retry.Error (Option Dhcpv4)
timed none = err deadline_exceeded
timed (some r) = r

-- `NewRequestFromOffer` reads the offer, which panics on `nil`.
abbrev pub dereference : Option Dhcpv4 → Result Error Dhcpv4
dereference none = fault panic
dereference (some d) = ok d

-- Enough for a limit.
abbrev pub rounds : ℕ → Limit → ℕ
rounds fuel (limit n) = suc n
rounds fuel unlimited = fuel

module _ (u : Uio) (h : Host) where
  abbrev pub try_once : Option (Dhcpv4 → Bool) → Dhcpv4 → ℕ → ℕ → Result Retry.Error (Option Dhcpv4)
  try_once match p i t = h.meets p i t >>= λ events. timed (attempt match events)

  unfoldable pub ask : Option (Dhcpv4 → Bool) → Dhcpv4 → Result Error (Option Dhcpv4)
  unfolding send_and_read attempt
  ask match p =
      map_err not_answered
        (send_and_read (try_once match p) (rounds h.rounds h.retries) h.retries h.timeout)

  abbrev pub with_size : List Modifier → List Modifier
  with_size modifiers =
      prepend_modifiers modifiers (with_option (opt_max_message_size u max_message_size) ∷ [])

  unfoldable pub discover_offer : List Modifier → Result Error (Option Dhcpv4)
  unfolding ask
  discover_offer modifiers = do
    discover ←
        map_err not_made (new_discovery u h.discover_random h.iface_hw_addr (with_size modifiers))
    ask (some (is_message_type u message_type_offer)) discover

  unfoldable pub request : List Modifier → Result Error (Dhcpv4 × Option Dhcpv4)
  unfolding ask discover_offer
  request modifiers = do
    found ← discover_offer modifiers
    offer ← dereference found
    req ← map_err not_made (new_request_from_offer u h.request_random offer (with_size modifiers))
    ack ← ask none req
    ok (offer, ack)
