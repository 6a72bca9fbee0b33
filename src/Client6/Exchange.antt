-- ===== src/Client6/Exchange.antt =====
-- dhcpv6/client6/client.go: the four messages of an exchange that ends without an error.
use dhcp.Prelude.{
  ℕ, ◌≡◌, ◌≢◌, refl, sym, ap, ◌∙◌, false, List, [], ◌∷◌, ◌++◌, some, Bytes, Result, ok, err, fault,
  ◌>>=◌, >>=-eq-ok, inl, inr, ok-injective, map_err, map_err-ok,
}
use mathlib.Core.Path.{subst}
use dhcp.Uio.{Uio}
use dhcp.Dhcpv6.Message.{Message}
use dhcp.Dhcpv6.Message.Exchange.{new_request_from_advertise-ok}
use dhcp.Dhcpv6.Values.{elapsed_time, requested_option, client_id}
use dhcp.Dhcpv6.Relay.{is_relay_type}
use dhcp.Dhcpv6.Packet.{Packet, Opt, Opts, message, plain, to_list, of_list}
use dhcp.Dhcpv6.Packet.Parse.{kind}
use dhcp.Dhcpv6.Packet.Types.{packet_from_bytes-message}
use dhcp.Dhcpv6.Relaying.{packet_type, message_packet, add_option}
use dhcp.Dhcpv6.New
use dhcp.Dhcpv6.New.{
  never, new_message, generate_transaction_id, link_layer_time_duid, new_solicit_with_cid,
  default_iana,
}
use dhcp.Client6.{
  Client, Host, Interface, Error, expected_type, send_receive, sent_and_read, returning, exchange,
  solicit, request, new_solicit_for_interface, modified, local_udp_addr, remote_udp_addr, relayed,
  ensure_ready, appended, inner, host_failed, bad_solicit, bad_advertise, request_for,
}
use dhcp.Client6.Received.{IsRead, receive_sound}

-- Without a simulated relay, the answer has been read after the packet itself was sent.
abbrev IsAnswered : Uio → Packet → Packet → Type 0
IsAnswered u packet d =
    (datagrams : List Bytes) × IsRead u packet (expected_type (packet_type packet) 0) datagrams d

-- A message of that type and transaction.
abbrev IsOf : ℕ → Bytes → Packet → Type 0
IsOf t tid p = (o : Opts) × (p ≡ message t tid o)

add_option-IsOf :
    (u : Uio) (x : Opt) (t : ℕ) (tid : Bytes) (p : Packet)
    → IsOf t tid p
    → IsOf t tid (add_option u x p)
unfolding add_option
add_option-IsOf u x t tid p (o, e) = (_, ap (add_option u x) e)

-- The answer to a message, if a type is waited for, is a message of its transaction.
IsRead-IsOf :
    (u : Uio) (t want : ℕ) (tid : Bytes) (o : Opts) (datagrams : List Bytes) (d : Packet)
    → IsRead u (message t tid o) want datagrams d
    → want ≢ 0
    → is_relay_type want ≡ false
    → IsOf want tid d
IsRead-IsOf u t want tid o datagrams d r n c =
    let is_want : packet_type d ≡ want = elim r.accepted.typed [
      | inl e ↦ absurd (n e)
      | inr e ↦ e
    ] in
    let (tid₂, o₂, form) =
      packet_from_bytes-message u r.datagram d r.parsed (ap is_relay_type is_want ∙ c) in
    let tids = r.accepted.transaction t (packet_type d) tid tid₂ o o₂ refl form in
    (o₂, form ∙ (λ i. message (is_want i) (sym tids i) o₂))

IsAnswered-IsOf :
    (u : Uio) (t want : ℕ) (tid : Bytes) (packet d : Packet)
    → IsOf t tid packet
    → expected_type t 0 ≡ want
    → want ≢ 0
    → is_relay_type want ≡ false
    → IsAnswered u packet d
    → IsOf want tid d
IsAnswered-IsOf u t want tid packet d (o, e) w n c (datagrams, r) =
    let sent = subst (λ p. IsRead u p (expected_type (packet_type p) 0) datagrams d) e r in
    IsRead-IsOf u t want tid o datagrams d
      (subst (λ x. IsRead u (message t tid o) x datagrams d) w sent) n c

-- The four messages of one transaction.
abbrev pub IsConversation : Bytes → List Packet → Type 0
IsConversation tid conversation =
    (sol adv req rep : Opts) × (conversation
      ≡ message 1 tid sol ∷ message 2 tid adv ∷ message 3 tid req ∷ message 7 tid rep ∷ [])

module _ (u : Uio) {S : Type 0} where
  returning-ok :
      {A : Type 0} (conversation end : List Packet) (r : Result (Error S) A)
      (next : A → List Packet × Result (Error S) (Unit {0}))
      → returning u conversation r next ≡ (end, ok tt)
      → (a : A) × (r ≡ ok a) × (next a ≡ (end, ok tt))
  returning-ok conversation end (ok a) next h = (a, refl, h)
  returning-ok conversation end (err e) next h = cc (ap (λ p. p.1) h)
  returning-ok conversation end (fault f) next h = cc (ap (λ p. p.1) h)

  send_receive-ok :
      (c : Client) (h : Host S) (ifname : Bytes) (packet d : Packet)
      → c.simulate_relay ≡ false
      → send_receive u c h ifname (some packet) 0 ≡ ok d
      → IsAnswered u packet d
  unfolding send_receive
  send_receive-ok c h ifname packet d direct e =
      let (laddr, at_laddr, e₁) = >>=-eq-ok (local_udp_addr h ifname c.local_addr) _ e in
      let (sent, at_sent, e₂) = >>=-eq-ok (relayed u c.simulate_relay laddr.ip packet) _ e₁ in
      let (raddr, at_raddr, e₃) = >>=-eq-ok (remote_udp_addr c.remote_addr) _ e₂ in
      let (opened, at_opened, e₄) = >>=-eq-ok (map_err host_failed (h.listen laddr)) _ e₃ in
      let (ready, at_ready, e₅) = >>=-eq-ok (ensure_ready h.is_ready) _ e₄ in
      let (read, at_read, e₆) =
        >>=-eq-ok
          (map_err host_failed (h.write laddr raddr (dhcp.Dhcpv6.Packet.packet_bytes u sent))) _
          e₅ in
      let same : packet ≡ sent = ok-injective (rw direct at at_sent) in
      subst (λ p. IsAnswered u p d) (sym same)
        (read.0, receive_sound u sent (expected_type (packet_type sent) 0) read.0 read.1 d e₆)

  -- What was sent, and what answers it.
  sent_and_read-ok :
      (c : Client) (h : Host S) (ifname : Bytes) (made : Result (Error S) Packet) (d : Packet)
      → c.simulate_relay ≡ false
      → (sent_and_read u c h ifname made).1 ≡ ok d
      → (p : Packet) × (made ≡ ok p)
        × ((sent_and_read u c h ifname made).0 ≡ some p)
        × IsAnswered u p d
  sent_and_read-ok c h ifname (ok p) d direct e =
      (p, refl, refl, send_receive-ok c h ifname p d direct e)
  sent_and_read-ok c h ifname (err x) d direct e = cc
  sent_and_read-ok c h ifname (fault f) d direct e = cc

  new_solicit_for_interface-ok :
      (i : Interface S) (p : Packet)
      → (new_solicit_for_interface u i [] >>= modified u []) ≡ ok p
      → (tid : Bytes) × (o : Opts) × (p ≡ message 1 tid o)
  unfolding new_solicit_for_interface new_solicit_with_cid new_message New.apply_modifiers
      add_option
  new_solicit_for_interface-ok i p e =
      let (q, at_q, e₁) = >>=-eq-ok (new_solicit_for_interface u i []) _ e in
      let (hwaddr, at_hwaddr, e₂) = >>=-eq-ok (map_err host_failed i.hardware_addr) _ at_q in
      let e₃ =
        map_err-ok bad_solicit
          (new_solicit_with_cid u i.random (link_layer_time_duid i.now hwaddr) []) q e₂ in
      let (m, at_m, e₄) = >>=-eq-ok (new_message i.random []) _ e₃ in
      let (tid, at_tid, e₅) = >>=-eq-ok (generate_transaction_id i.random) _ at_m in
      let begun : IsOf 1 tid m = (_, sym (ok-injective e₅)) in
      let x₁ =
        add_option-IsOf u (plain (client_id (link_layer_time_duid i.now hwaddr))) 1 tid m begun in
      let x₂ = add_option-IsOf u (plain (requested_option (23 ∷ 24 ∷ []))) 1 tid _ x₁ in
      let x₃ = add_option-IsOf u (plain (elapsed_time 0)) 1 tid _ x₂ in
      let (o, x₄) = add_option-IsOf u default_iana 1 tid _ x₃ in
      (tid, o, sym (ok-injective e₁) ∙ sym (ok-injective e₄) ∙ x₄)

  request-ok :
      (adv : Message Opt) (p : Packet)
      → (request_for {S = S} u adv >>= λ m. modified u [] (message_packet m)) ≡ ok p
      → IsOf 3 adv.transaction_id p
  unfolding New.apply_modifiers
  request-ok adv p e =
      let (m, at_m, e₁) = >>=-eq-ok (request_for u adv) _ e in
      let (typed, same) =
        new_request_from_advertise-ok (kind u 0) _ _ adv m (map_err-ok bad_advertise _ m at_m) in
      (
        of_list m.options,
        sym (ok-injective e₁) ∙ (λ i. message (typed i) (same i) (of_list m.options)),
      )

  inner-IsOf :
      (tid : Bytes) (d : Packet) (m : Message Opt)
      → IsOf 2 tid d
      → inner {S = S} u d ≡ ok m
      → m.transaction_id ≡ tid
  inner-IsOf tid d m (o, e) h =
      let known : inner {S = S} u (message 2 tid o) ≡ ok m = sym (ap (inner u) e) ∙ h in
      sym (ap (λ (x : Message Opt). x.transaction_id) (ok-injective known))

  -- An exchange without a simulated relay and without modifiers that ends without an error has the
  -- four messages SOLICIT, ADVERTISE, REQUEST and REPLY, all of one transaction.
  pub exchange_sound :
      (c : Client) (h : Host S) (i : Interface S) (conversation : List Packet)
      → c.simulate_relay ≡ false
      → exchange u c h i [] ≡ (conversation, ok tt)
      → (tid : Bytes) × IsConversation tid conversation
  unfolding exchange solicit request expected_type is_relay_type
  exchange_sound c h i conversation direct e =
      let (adv, at_adv, e₁) = returning-ok _ conversation (solicit u c h i []).1 _ e in
      let (sol, at_sol, sent_sol, answered) =
        sent_and_read-ok c h i.name (new_solicit_for_interface u i [] >>= modified u []) adv direct
          at_adv in
      let (m, at_m, e₂) = returning-ok _ conversation (inner u adv) _ e₁ in
      let (rep, at_rep, e₃) = returning-ok _ conversation (request u c h i.name m []).1 _ e₂ in
      let (req, at_req, sent_req, replied) =
        sent_and_read-ok c h i.name (request_for u m >>= λ r. modified u [] (message_packet r)) rep
          direct at_rep in
      let (tid, o, is_sol) = new_solicit_for_interface-ok i sol at_sol in
      let is_adv = IsAnswered-IsOf u 1 2 tid sol adv (o, is_sol) refl (λ p. cc) refl answered in
      let is_req = request-ok m req at_req in
      let is_rep =
        IsAnswered-IsOf u 3 7 m.transaction_id req rep is_req refl (λ p. cc) refl replied in
      let same = inner-IsOf tid adv m is_adv at_m in
      let sent : conversation ≡ sol ∷ adv ∷ req ∷ rep ∷ [] =
        sym (ap (λ p. p.0) e₃)
        ∙ (λ i. appended (appended [] (sent_sol i) ++ adv ∷ []) (sent_req i) ++ rep ∷ []) in
      (
        tid,
        (
          o,
          is_adv.0,
          is_req.0,
          is_rep.0,
          sent ∙ (λ i. is_sol i ∷ is_adv.1 i ∷ is_req.1 i ∷ is_rep.1 i ∷ []) ∙ (λ i.
              message 1 tid o
              ∷ message 2 tid is_adv.0
              ∷ message 3 (same i) is_req.0
              ∷ message 7 (same i) is_rep.0
              ∷ []),
        ),
      )
