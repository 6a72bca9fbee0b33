-- ===== src/Tests/Modifiers.antt =====
-- dhcpv6/modifiers.go at a concrete message and concrete addresses.
use dhcp.Prelude.{◌≡◌, refl, [], ◌∷◌, none, some, ok, replicate}
use dhcp.Uio.Listed.{listed}
use dhcp.Dhcpv6.Options.{get_one, update}
use dhcp.Dhcpv6.Message.{Message}
use dhcp.Dhcpv6.Values.{requested_option, status_code, value_code}
use dhcp.Dhcpv6.Packet.{Packet, Opt, message, plain, ia_na, nil, cons, of_list, option_code}
use dhcp.Dhcpv6.Relaying.{message_packet, get_one_option}
use dhcp.Dhcpv6.Modifiers.{
  IaAddress, address_option, with_requested_options, with_netboot, with_iana, update_option,
  add_requested_options, pointers, added,
}
use dhcp.Dhcpv6.Modifiers.Addresses.{get_one_option-with_iana}

-- It requests name servers, and has another option.
abbrev a_message : Message Opt
a_message = record {
  message_type = 1;
  transaction_id = 1 ∷ 2 ∷ 3 ∷ [];
  options = plain (status_code 0 []) ∷ plain (requested_option (23 ∷ [])) ∷ [];
}

abbrev requesting : Packet
requesting =
    message 1 (1 ∷ 2 ∷ 3 ∷ [])
      (cons (plain (status_code 0 [])) (cons (plain (requested_option (23 ∷ 24 ∷ 31 ∷ []))) nil))

requesting_made :
    with_requested_options listed (24 ∷ 31 ∷ []) (message_packet a_message) ≡ ok requesting
unfolding with_requested_options get_one_option get_one option_code value_code update_option update
    add_requested_options
requesting_made = refl

abbrev booting : Packet
booting =
    message 1 (1 ∷ 2 ∷ 3 ∷ [])
      (cons (plain (status_code 0 [])) (cons (plain (requested_option (23 ∷ 59 ∷ 60 ∷ []))) nil))

booting_made : with_netboot listed (message_packet a_message) ≡ ok booting
unfolding with_netboot get_one_option get_one option_code value_code update_option update
booting_made = refl

abbrev an_address : IaAddress
an_address = record {
  ip = some (replicate 16 1);
  preferred_lifetime = 10;
  valid_lifetime = 20;
  options = nil;
}

abbrev another_address : IaAddress
another_address = record an_address { ip = some (replicate 16 2) }

-- Both addresses of the association are the second one.
abbrev leased : Packet
leased = message 1 (1 ∷ 2 ∷ 3 ∷ []) (
    cons (plain (status_code 0 [])) (
      cons (plain (requested_option (23 ∷ []))) (
        cons
          (ia_na (replicate 4 0) 0 0
            (cons (address_option another_address) (cons (address_option another_address) nil)))
          nil)))

no_association : get_one_option listed 3 (message_packet a_message) ≡ none
unfolding get_one_option get_one option_code value_code
no_association = refl

leased_made :
    with_iana listed (an_address ∷ another_address ∷ []) (message_packet a_message) ≡ ok leased
unfolding with_iana added pointers get_one_option get_one option_code value_code update_option
    update
leased_made = refl

get_one_option-with_iana_example :
    get_one_option listed 3 leased
    ≡ some (
        ia_na
          (replicate 4 0)
          0
          0
          (of_list (address_option another_address ∷ address_option another_address ∷ [])))
get_one_option-with_iana_example =
    get_one_option-with_iana listed another_address (an_address ∷ []) (message_packet a_message)
      leased no_association leased_made
