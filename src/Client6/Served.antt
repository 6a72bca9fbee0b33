-- ===== src/Client6/Served.antt =====
-- dhcpv6/client6/client.go: an exchange with a server that answers.
use dhcp.Prelude.{
  Slice, ℕ, ◌≡◌, refl, sym, ap, ◌∙◌, false, true, List, [], ◌∷◌, ◌++◌, Bytes, Result, ok, inr,
  ◌>>=◌, map_err, All, equal, equal_iff, ==_iff, ◌==◌, arith,
}
use dhcp.Uio.{Uio}
use dhcp.Dhcpv6.Options.{add}
use dhcp.Dhcpv6.Message.{Message}
use dhcp.Dhcpv6.Message.Exchange.{IsNamed, new_request_from_advertise_lem}
use dhcp.Dhcpv6.Values.{client_id, elapsed_time, requested_option, value_code}
use dhcp.Dhcpv6.Packet.{
  Packet, Opt, Opts, message, relay, plain, cons, nil, packet_bytes, to_list, of_list, option_code,
}
use dhcp.Dhcpv6.Packet.Parse.{kind, packet_from_bytes}
use dhcp.Dhcpv6.Relaying.{add_option, message_packet}
use dhcp.Dhcpv6.New
use dhcp.Dhcpv6.New.{
  link_layer_time_duid, default_iana, new_message, generate_transaction_id, new_solicit_with_cid,
}
use dhcp.Client6.{
  Client, Host, Interface, UdpAddr, expected_type, send_receive, exchange, solicit, request,
  request_for, new_solicit_for_interface, modified, local_udp_addr, remote_udp_addr, bad_advertise,
}
use dhcp.Client6.Received.{IsReplyTo, IsSkipped, receive-skipped}

type_2 : expected_type 1 0 ≡ 2
unfolding expected_type
type_2 = refl

type_7 : expected_type 3 0 ≡ 7
unfolding expected_type
type_7 = refl

message_tid : Packet → Bytes
message_tid (message t tid o) = tid
message_tid (relay t hops link peer o) = []

pub message-IsReplyTo :
    (t₁ t₂ : ℕ) (tid : Bytes) (o₁ o₂ : Opts) → IsReplyTo (message t₁ tid o₁) t₂ (message t₂ tid o₂)
unfolding message_tid
message-IsReplyTo t₁ t₂ tid o₁ o₂ = record {
  transaction = λ t t' tid₁ tid₂ o o' p q. sym (ap message_tid p) ∙ ap message_tid q;
  typed = inr refl;
}

module _ (u : Uio) {S : Type 0} where
  -- What a write of that packet brings is, behind datagrams that are skipped, the answer.
  pub record Answers (h : Host S) (laddr raddr : UdpAddr) (packet : Packet) (expected : ℕ)
      (d : Packet) : Type 0 where
    pub before : List Bytes
    pub datagram : Bytes
    pub after : List Bytes
    pub failure : S
    pub written :
        h.write laddr raddr (packet_bytes u packet) ≡ ok (before ++ datagram ∷ after, failure)
    pub skipped : All (IsSkipped u packet expected) before
    pub parsed : packet_from_bytes u datagram ≡ ok d

  -- No relay is simulated, the sockets work, and every solicitation and every request of the transaction is answered; the
  -- advertisement names a client, a server and an identity association.
  pub record Setting (c : Client) (h : Host S) (i : Interface S) (laddr raddr : UdpAddr)
      (hwaddr : Slice) (offered replied : Opts) (cid sid ia : Opt) : Type 0 where
    pub direct : c.simulate_relay ≡ false
    pub local : local_udp_addr h i.name c.local_addr ≡ ok laddr
    pub remote : remote_udp_addr {S = S} c.remote_addr ≡ ok raddr
    pub listens : h.listen laddr ≡ ok tt
    pub ready : h.is_ready ≡ true
    pub hardware : i.hardware_addr ≡ ok hwaddr
    pub random : (i.random.failed ≡ false) × (i.random.n ≡ 3)
    pub named :
        IsNamed
          (kind u 0)
          (record { message_type = 2; transaction_id = i.random.xid; options = to_list offered })
          cid
          sid
          ia
    pub advertises :
        (o : Opts)
        → Answers h laddr raddr (message 1 i.random.xid o) 2 (message 2 i.random.xid offered)
    pub replies :
        (o : Opts)
        → Answers h laddr raddr (message 3 i.random.xid o) 7 (message 7 i.random.xid replied)

  module _ {c : Client} {h : Host S} {i : Interface S} {laddr raddr : UdpAddr} {hwaddr : Slice}
      {offered replied : Opts} {cid sid ia : Opt}
      (s : Setting c h i laddr raddr hwaddr offered replied cid sid ia) where
    send_receive-Answers :
        (packet d : Packet) (t : ℕ)
        → Answers h laddr raddr packet t d
        → expected_type (dhcp.Dhcpv6.Relaying.packet_type packet) 0 ≡ t
        → IsReplyTo packet t d
        → send_receive u c h i.name (dhcp.Prelude.some packet) 0 ≡ ok d
    unfolding send_receive
    send_receive-Answers packet d t a e r =
        let read =
          receive-skipped u packet t a.before a.datagram a.after a.failure d a.skipped a.parsed r in
        simp (s.local, s.direct, s.remote, s.listens, s.ready, a.written, e, read)

    solicit_options : Opts
    solicit_options = cons (plain (client_id (link_layer_time_duid i.now hwaddr))) (
        cons (plain (requested_option (23 ∷ 24 ∷ [])))
          (cons (plain (elapsed_time 0)) (cons default_iana nil)))

    solicit_made :
        (new_solicit_for_interface u i [] >>= modified {S = S} u [])
        ≡ ok (message 1 i.random.xid solicit_options)
    unfolding new_solicit_for_interface new_solicit_with_cid new_message New.apply_modifiers
        generate_transaction_id add_option add solicit_options
    solicit_made = rw (s.hardware, s.random.0, s.random.1) refl

    request_made :
        (r : Message Opt) × ((request_for {S = S} u (record {
          message_type = 2;
          transaction_id = i.random.xid;
          options = to_list offered;
        })
            >>= λ m. modified u [] (message_packet m))
          ≡ ok (message 3 i.random.xid (of_list r.options)))
        × IsNamed (kind u 0) r cid sid ia
    unfolding New.apply_modifiers option_code value_code dhcp.Dhcpv6.Message.apply_modifiers
    request_made =
        let (r, made, typed, same, names) =
          new_request_from_advertise_lem (kind u 0) (plain (elapsed_time 0))
            (λ codes. plain (requested_option codes)) _ cid sid ia [] refl refl s.named in
        (
          r,
          ap (λ x. map_err bad_advertise x >>= λ m. modified u [] (message_packet m)) made
              ∙ (λ j. ok (message (typed j) (same j) (of_list r.options))),
          names,
        )

  -- An exchange without a simulated relay and without modifiers: if the sockets work, and each
  -- solicitation and request of the client's transaction is answered, be it behind datagrams that
  -- are skipped, by an advertisement that names a client, a server and an identity association and
  -- by a reply, then it ends without an error, with the four messages, and the request names the
  -- client, the server and the association of the advertisement.
  pub exchange-Setting :
      {c : Client} {h : Host S} {i : Interface S} {laddr raddr : UdpAddr} {hwaddr : Slice}
      {offered replied : Opts} {cid sid ia : Opt}
      → Setting c h i laddr raddr hwaddr offered replied cid sid ia
      → (sol : Opts) × (r : Message Opt) × IsNamed (kind u 0) r cid sid ia
        × (exchange u c h i [] ≡ (
          message 1 i.random.xid sol
              ∷ message 2 i.random.xid offered
              ∷ message 3 i.random.xid (of_list r.options)
              ∷ message 7 i.random.xid replied
              ∷ [],
          ok tt,
        ))
  unfolding exchange solicit request
  exchange-Setting {c} {h} {i} {laddr} {raddr} {hwaddr} {offered} {replied} s =
      let (r, asks, names) = request_made s in
      let sol = solicit_options s in
      let first =
        send_receive-Answers s (message 1 i.random.xid sol) (message 2 i.random.xid offered) 2
          (s.advertises sol) type_2 (message-IsReplyTo 1 2 i.random.xid sol offered) in
      let second =
        send_receive-Answers s (message 3 i.random.xid (of_list r.options))
          (message 7 i.random.xid replied) 7 (s.replies (of_list r.options)) type_7
          (message-IsReplyTo 3 7 i.random.xid (of_list r.options) replied) in
      (sol, r, names, simp (solicit_made s, first, asks, second))
