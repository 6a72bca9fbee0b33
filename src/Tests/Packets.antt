-- ===== src/Tests/Packets.antt =====
-- dhcpv4/dhcpv4.go and dhcpv4/options.go at concrete packets.
use dhcp.Prelude.{
  ◌≡◌, ◌≢◌, refl, true, false, [], ◌∷◌, ◌++◌, some, none, ◌==◌, if◌then◌else◌, Bytes, Slice,
  elements, ok, fault, panic, replicate, arith, Bool-cases, inl, inr, ◌⊎◌, ap, List, ℕ,
}
use dhcp.Uio.Listed.{listed}
use dhcp.Dhcpv4.Options
use dhcp.Dhcpv4.Options.{empty, from_bytes_check_end, get}
use dhcp.Dhcpv4.Options.Encode.{wire}
use dhcp.Dhcpv4.Options.Grammar.{Area, end, option}
use dhcp.Dhcpv4.Options.Decode.{from_bytes_check_end-Area, from_bytes_check_end_sound, Decoded}
use dhcp.Dhcpv4.Options.RoundTrip.{IsCarried, missing, present, from_bytes_check_end-to_bytes}
use dhcp.Dhcpv4.Options.Sorted.{IsWritten, to_bytes-IsWritten}
use dhcp.Dhcpv4.Packet
use dhcp.Dhcpv4.Packet.{Dhcpv4}
use dhcp.Dhcpv4.Packet.Layout.{IsWire}
use dhcp.Dhcpv4.Packet.RoundTrip.{from_bytes-to_bytes}
use dhcp.Dhcpv4.Packet.Safety.{from_bytes-ne-fault, to_bytes_long_text}
use dhcp.Dhcpv4.New.{RandomRead, new_request_from_offer, new_reply_from_request, offer_server_ip}
use dhcp.Dhcpv4.New.Exchange.{new_request_from_offer_lem, new_reply_from_request_lem}
use dhcp.Dhcpv4.Getters.{message_type, server_identifier, get_ip}
use dhcp.Dhcpv4.Modifiers.{apply_modifiers, with_transaction_id}
use dhcp.Dhcpv4.Values.{ip_to_bytes, ip_from_bytes}

-- A map with the message type and a server identifier.
abbrev an_options : Options.Options
an_options k =
    if k == 53
    then some (some (2 ∷ []))
    else if k == 54
    then some (some (10 ∷ 0 ∷ 0 ∷ 1 ∷ []))
    else none

an_options-IsCarried : IsCarried an_options
an_options-IsCarried k = elim (Bool-cases (k == 53)) [
  | inl p ↦ rw p (present 2 [] (ground (arith, p)) (ground (arith, p)))
  | inr p ↦ elim (Bool-cases (k == 54)) [
    | inl q ↦ rw (p, q) (present 10 (0 ∷ 0 ∷ 1 ∷ []) (ground (arith, q)) (ground (arith, q)))
    | inr q ↦ rw (p, q) missing
  ]
]

abbrev an_ip : Slice
an_ip = some (10 ∷ 0 ∷ 0 ∷ 7 ∷ [])

abbrev an_offer : Dhcpv4
an_offer = record {
  op_code = 2;
  hw_type = 1;
  hop_count = 0;
  transaction_id = 1 ∷ 2 ∷ 3 ∷ 4 ∷ [];
  num_seconds = 0;
  flags = 0x8000;
  client_ip_addr = an_ip;
  your_ip_addr = an_ip;
  server_ip_addr = an_ip;
  gateway_ip_addr = an_ip;
  client_hw_addr = 6 ∷ 5 ∷ 4 ∷ 3 ∷ 2 ∷ 1 ∷ [];
  server_host_name = 100 ∷ 104 ∷ 99 ∷ 112 ∷ [];
  boot_file_name = [];
  options = an_options;
}

an_offer-IsWire : IsWire an_offer
an_offer-IsWire = record {
  op_code_byte = omega arith;
  hw_type_byte = omega arith;
  hop_count_byte = omega arith;
  xid_length = refl;
  num_seconds_word = omega arith;
  flags_word = omega arith;
  client_ip = refl;
  your_ip = refl;
  server_ip = refl;
  gateway_ip = refl;
  hw_addr_fits = omega arith;
  hw_addr_set = λ h. omega arith;
  host_name = (omega arith, ground arith);
  boot_name = (omega arith, tt);
  carried = an_options-IsCarried;
}

from_bytes-to_bytes_example :
    (s : Slice) × (Packet.to_bytes listed an_offer ≡ ok s)
    × (Packet.from_bytes listed (elements s) ≡ ok an_offer)
from_bytes-to_bytes_example = from_bytes-to_bytes listed an_offer an_offer-IsWire

from_bytes-ne-fault_example : Packet.from_bytes listed (1 ∷ 1 ∷ 6 ∷ []) ≢ fault panic
from_bytes-ne-fault_example = from_bytes-ne-fault listed (1 ∷ 1 ∷ 6 ∷ []) panic

abbrev long_host : Dhcpv4
long_host = record an_offer { server_host_name = replicate 64 97 }

to_bytes_long_text_example : Packet.to_bytes listed long_host ≡ fault panic
to_bytes_long_text_example =
    to_bytes_long_text listed long_host (inl refl) (inl refl) (inl refl) (inl refl)
      (inl (omega arith))

-- The area of one option, an end byte and one byte of padding.
abbrev an_area : Bytes
an_area = 53 ∷ 1 ∷ 2 ∷ 255 ∷ 0 ∷ []

an_area-Area : Area an_area ((53, 2 ∷ []) ∷ []) (0 ∷ [])
an_area-Area = option 53 (2 ∷ []) (λ p. ground arith) (λ p. ground arith) refl (end refl)

from_bytes_check_end_sound_example :
    (an_area ≡ []) ⊎ Decoded listed empty (from_bytes_check_end listed an_area true empty).0 an_area
from_bytes_check_end_sound_example =
    from_bytes_check_end_sound listed an_area empty
      (ap (λ r. r.1) (from_bytes_check_end-Area listed true empty an_area-Area (refl, tt)))

to_bytes-IsWritten_example :
    (es : List (ℕ × Bytes)) × IsWritten an_options 0 es
    × (elements (Options.to_bytes listed an_options) ≡ wire es)
to_bytes-IsWritten_example = to_bytes-IsWritten listed an_options

from_bytes_check_end-to_bytes_example :
    from_bytes_check_end listed
      (elements (Options.to_bytes listed an_options) ++ 255 ∷ 0 ∷ [])
      true
      empty
    ≡ (an_options, ok tt)
from_bytes_check_end-to_bytes_example =
    from_bytes_check_end-to_bytes listed an_options (0 ∷ []) true an_options-IsCarried (refl, tt)

abbrev four_bytes : RandomRead
four_bytes = record { xid = 9 ∷ 9 ∷ 9 ∷ 9 ∷ []; n = 4; failed = false }

server_known :
    offer_server_ip (server_identifier listed an_offer) an_offer.server_ip_addr
    ≡ ok (some (10 ∷ 0 ∷ 0 ∷ 1 ∷ []))
unfolding offer_server_ip server_identifier get_ip get ip_from_bytes
server_known = refl

new_request_from_offer_lem_example :
    (d : Dhcpv4) × (new_request_from_offer listed four_bytes an_offer
        (with_transaction_id (7 ∷ 7 ∷ 7 ∷ 7 ∷ []) ∷ [])
      ≡ ok (apply_modifiers (with_transaction_id (7 ∷ 7 ∷ 7 ∷ 7 ∷ []) ∷ []) d))
    × (d.transaction_id ≡ an_offer.transaction_id)
    × (d.client_hw_addr ≡ an_offer.client_hw_addr)
    × (d.server_ip_addr ≡ some (10 ∷ 0 ∷ 0 ∷ 1 ∷ []))
    × (message_type listed d ≡ 3)
    × (get 50 d.options ≡ ip_to_bytes listed an_offer.your_ip_addr)
    × (get 54 d.options ≡ ip_to_bytes listed (some (10 ∷ 0 ∷ 0 ∷ 1 ∷ [])))
new_request_from_offer_lem_example =
    new_request_from_offer_lem listed four_bytes (refl, refl) an_offer (some (10 ∷ 0 ∷ 0 ∷ 1 ∷ []))
      (with_transaction_id (7 ∷ 7 ∷ 7 ∷ 7 ∷ []) ∷ []) server_known

new_reply_from_request_lem_example :
    (d : Dhcpv4) × (new_reply_from_request listed four_bytes an_offer []
      ≡ ok (apply_modifiers [] d))
    × (d.transaction_id ≡ an_offer.transaction_id)
    × (d.hw_type ≡ an_offer.hw_type)
    × (d.client_hw_addr ≡ an_offer.client_hw_addr)
    × (d.flags ≡ an_offer.flags)
    × (d.gateway_ip_addr ≡ an_offer.gateway_ip_addr)
    × (d.op_code ≢ an_offer.op_code)
new_reply_from_request_lem_example =
    new_reply_from_request_lem listed four_bytes (refl, refl) an_offer []
