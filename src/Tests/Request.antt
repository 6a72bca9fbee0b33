-- ===== src/Tests/Request.antt =====
-- dhcpv4/nclient4/client.go: DiscoverOffer and Request at a concrete host.
use dhcp.Prelude.{ℕ, ◌≡◌, refl, false, List, [], ◌∷◌, none, some, Result, ok, ◌==◌, if◌then◌else◌}
use dhcp.Uio.Listed.{listed}
use dhcp.Dhcpv4.Packet.{Dhcpv4}
use dhcp.Dhcpv4.Options.{update}
use dhcp.Dhcpv4.New.{RandomRead, new_packet}
use dhcp.Nclient4.Retry
use dhcp.Nclient4.Retry.{Event, received, limit}
use dhcp.Nclient4.Request.{Host, request}
use dhcp.Nclient4.Request.Sound.{IsRequested, request_sound}

abbrev an_offer : Dhcpv4
an_offer = record (new_packet (1 ∷ 2 ∷ 3 ∷ 4 ∷ [])) {
  op_code = 2;
  your_ip_addr = some (10 ∷ 0 ∷ 0 ∷ 7 ∷ []);
  options = update 53 (some (2 ∷ [])) (update 54 (some (10 ∷ 0 ∷ 0 ∷ 1 ∷ [])) (λ c. none));
}

abbrev a_nak : Dhcpv4
a_nak = record (new_packet (1 ∷ 2 ∷ 3 ∷ 4 ∷ [])) {
  op_code = 2;
  options = update 53 (some (6 ∷ [])) (λ c. none);
}

-- The first attempt meets a refusal and times out, the second one an offer.
abbrev meets : Dhcpv4 → ℕ → ℕ → Result Retry.Error (List Event)
meets p i t =
    if i == 0
    then ok (received (some a_nak) ∷ [])
    else ok (received (some a_nak) ∷ received (some an_offer) ∷ [])

abbrev a_random : RandomRead
a_random = record { xid = 1 ∷ 2 ∷ 3 ∷ 4 ∷ []; n = 4; failed = false }

abbrev a_host : Host
a_host = record {
  retries = limit 3;
  rounds = 0;
  timeout = 5;
  iface_hw_addr = 6 ∷ 5 ∷ [];
  discover_random = a_random;
  request_random = a_random;
  meets = meets;
}

-- No type is asked of the answer to a request.
requested : request listed a_host [] ≡ ok (an_offer, some a_nak)
unfolding update request dhcp.Dhcpv4.New.new_discovery Retry.is_message_type
    dhcp.Dhcpv4.Getters.message_type dhcp.Dhcpv4.Options.get
    dhcp.Dhcpv4.Values.message_type_from_bytes dhcp.Dhcpv4.New.new_request_from_offer
    dhcp.Dhcpv4.Getters.server_identifier dhcp.Dhcpv4.Getters.get_ip
    dhcp.Dhcpv4.Values.ip_from_bytes
requested = refl

request_sound_example : IsRequested listed a_host [] an_offer (some a_nak)
request_sound_example = request_sound listed a_host [] an_offer (some a_nak) requested
