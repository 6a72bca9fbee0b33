-- ===== src/Nclient4/Stolen.antt =====
-- dhcpv4/nclient4/client.go: `cancel` takes what is pending for its transaction, which may be the
-- channel of a later call of `send`.
use dhcp.Prelude.{suc, ◌≡◌, refl, true, false, none, ◌==◌, equal, arith, ==_refl, ==_ne, equal_iff}
use dhcp.Dhcpv4.Packet.{Dhcpv4}
use dhcp.Nclient4.{
  Client, waiting, cancelling, close_pending, change_channel, accepts, select, receive, registered,
  send, close_done, remove, Step, receives, sends, starts_cancel, ends_cancel, Reach, start, later,
}

module _ (c : Client) (msg : Dhcpv4) where
  -- A call of `send`; the first half of its `cancel`; a message for it, at which the receive loop
  -- takes it away; a second call of `send` for the same transaction.
  abbrev first_sent : Client
  first_sent = registered msg.transaction_id c

  abbrev done_closed : Client
  done_closed = change_channel c.next (λ ch. record ch { phase = cancelling }) first_sent

  abbrev taken_away : Client
  taken_away = close_pending msg.transaction_id c.next done_closed

  abbrev second_sent : Client
  second_sent = registered msg.transaction_id taken_away

  same : equal msg.transaction_id msg.transaction_id ≡ true
  same = (equal_iff msg.transaction_id msg.transaction_id).1 refl

  reaches-second_sent :
      accepts c.iface_hw_addr msg ≡ true → c.pending msg.transaction_id ≡ none → Reach c second_sent
  unfolding send close_done receive select
  reaches-second_sent a free =
      let n = c.next in
      let s₁ : Step c first_sent = sends msg.transaction_id n (rw free refl) in
      let s₂ : Step first_sent done_closed = starts_cancel n (omega arith) (rw (==_refl n) refl) in
      let s₃ : Step done_closed taken_away = receives true msg (rw (a, same, ==_refl n) refl) in
      let s₄ : Step taken_away second_sent = sends msg.transaction_id (suc n) (rw same refl) in
      later (later (later (later start s₁) s₂) s₃) s₄

  -- From any client in which a transaction is free, calls of `send` and a message come in an order
  -- in which the `cancel` of the first call closes the channel of the second call, of the same
  -- transaction, which still waits, and takes its transaction away.
  pub cancel_steals :
      accepts c.iface_hw_addr msg ≡ true
      → c.pending msg.transaction_id ≡ none
      → (d : Client) × Reach c d
        × ((d.channels (suc c.next)).xid ≡ msg.transaction_id)
        × ((d.channels (suc c.next)).phase ≡ waiting)
        × ((d.channels (suc c.next)).closes ≡ 1)
        × (d.pending msg.transaction_id ≡ none)
  unfolding remove
  cancel_steals a free =
      let n = c.next in
      let other : (suc n == n) ≡ false = ==_ne (suc n) n (λ p. omega arith) in
      let other' : (n == suc n) ≡ false = ==_ne n (suc n) (λ p. omega arith) in
      let cancelling_first : (second_sent.channels n).phase ≡ cancelling =
        rw (other, ==_refl n) refl in
      let last : Step second_sent (remove n second_sent) =
        ends_cancel n (omega arith) cancelling_first in
      (
        remove n second_sent,
        later (reaches-second_sent a free) last,
        rw (other, ==_refl n, same, ==_refl (suc n), other') refl,
        rw (other, ==_refl n, same, ==_refl (suc n), other') refl,
        rw (other, ==_refl n, same, ==_refl (suc n), other') refl,
        rw (other, ==_refl n, same) (rw same refl),
      )
