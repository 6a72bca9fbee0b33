-- ===== src/Tests/Nclient.antt =====
-- dhcpv4/nclient4/client.go at a concrete client, message and run of attempts.
use dhcp.Prelude.{
  ℕ, zero, suc, ◌≡◌, ◌<◌, inl, refl, true, [], ◌∷◌, none, some, Result, ok, err, arith,
}
use dhcp.Dhcpv4.Packet.{Dhcpv4}
use dhcp.Dhcpv4.New.{new_packet}
use dhcp.Nclient4.{
  Client, Reach, Step, start, later, sends, new_client, registered, send, accepts, waiting,
}
use dhcp.Nclient4.Invariant.{Invariant, reach-Invariant}
use dhcp.Nclient4.Stolen.{cancel_steals}
use dhcp.Nclient4.Retry.{Error, deadline_exceeded, send_and_read, limit, send_and_read-attempts}

abbrev an_offer : Dhcpv4
an_offer = record (new_packet (1 ∷ 2 ∷ 3 ∷ 4 ∷ [])) { op_code = 2; client_hw_addr = 6 ∷ 5 ∷ [] }

abbrev a_client : Client
a_client = new_client (some (6 ∷ 5 ∷ [])) 5

-- The client after a call of `send`.
a_client-sends : Step a_client (registered an_offer.transaction_id a_client)
unfolding send new_client
a_client-sends = sends an_offer.transaction_id 0 refl

reach-Invariant_example : Invariant (registered an_offer.transaction_id a_client)
reach-Invariant_example =
    reach-Invariant (some (6 ∷ 5 ∷ [])) 5 (registered an_offer.transaction_id a_client)
      (later start a_client-sends)

offer_accepted : accepts a_client.iface_hw_addr an_offer ≡ true
unfolding accepts new_client
offer_accepted = refl

offer_free : a_client.pending an_offer.transaction_id ≡ none
unfolding new_client
offer_free = refl

cancel_steals_example :
    (d : Client) × Reach a_client d
    × ((d.channels (suc a_client.next)).xid ≡ an_offer.transaction_id)
    × ((d.channels (suc a_client.next)).phase ≡ waiting)
    × ((d.channels (suc a_client.next)).closes ≡ 1)
    × (d.pending an_offer.transaction_id ≡ none)
cancel_steals_example = cancel_steals a_client an_offer offer_accepted offer_free

-- The first two attempts time out, the third is answered if its timeout is 20.
abbrev third : ℕ → ℕ → Result Error ℕ
third zero t = err deadline_exceeded
third (suc zero) t = err deadline_exceeded
third (suc (suc i)) t = ok t

third_over : (j t : ℕ) → j < 2 → third j t ≡ err deadline_exceeded
third_over zero t h = refl
third_over (suc zero) t h = refl
third_over (suc (suc j)) t h = absurd (omega arith)

send_and_read-attempts_example : send_and_read third 4 (limit 3) 5 ≡ ok 20
send_and_read-attempts_example =
    send_and_read-attempts third 5 2 3 (ok 20) (omega arith) (λ j h. third_over j _ h)
      (inl (omega arith, (λ p. cc), refl))
