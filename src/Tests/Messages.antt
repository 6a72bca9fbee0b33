-- ===== src/Tests/Messages.antt =====
-- dhcpv6/dhcpv6message.go and dhcpv4/option_domain_search.go at concrete messages.
use dhcp.Prelude.{ℕ, ◌≡◌, refl, [], ◌∷◌, some, Bytes, ok, arith, List, All, replicate, true}
use dhcp.Rfc1035label.{split_dots}
use dhcp.Rfc1035label.RoundTrip.{IsLabel}
use dhcp.Dhcpv6.Options.{get_one}
use dhcp.Dhcpv6.Options.Generic.{OptionGeneric, generic, generic-IsCodec}
use dhcp.Dhcpv6.Message.{
  Message, get_one_option, is_answered, new_request_from_advertise, apply_modifiers, add_option,
}
use dhcp.Dhcpv6.Message.RoundTrip.{IsMessage}
use dhcp.Dhcpv6.Message.Exchange.{IsNamed, new_request_from_advertise_lem}

abbrev client : OptionGeneric
client = record { option_code = 1; option_data = 0 ∷ 3 ∷ 0 ∷ 1 ∷ 7 ∷ [] }

abbrev server : OptionGeneric
server = record { option_code = 2; option_data = 0 ∷ 3 ∷ 0 ∷ 1 ∷ 9 ∷ [] }

abbrev identity : OptionGeneric
identity = record { option_code = 3; option_data = replicate 12 0 }

abbrev elapsed : OptionGeneric
elapsed = record { option_code = 8; option_data = 0 ∷ 0 ∷ [] }

abbrev requested : List ℕ → OptionGeneric
requested codes = record { option_code = 6; option_data = 0 ∷ 23 ∷ 0 ∷ 24 ∷ [] }

abbrev requested_domains : OptionGeneric
requested_domains = record { option_code = 6; option_data = 0 ∷ 24 ∷ [] }

abbrev a_message : ℕ → Message OptionGeneric
a_message t = record {
  message_type = t;
  transaction_id = 1 ∷ 2 ∷ 3 ∷ [];
  options = client ∷ server ∷ identity ∷ [];
}

a_message-IsMessage : IsMessage generic generic-IsCodec (a_message 2)
unfolding generic-IsCodec
a_message-IsMessage = record {
  type_byte = omega arith;
  not_forward = λ p. ground arith;
  not_reply = λ p. ground arith;
  id_length = refl;
  options_valid =
      ((omega arith, omega arith), ((omega arith, omega arith), ((omega arith, omega arith), tt)));
}

client_named : (t : ℕ) → get_one_option generic 1 (a_message t) ≡ some client
unfolding get_one_option get_one generic
client_named t = refl

a_message-IsNamed : IsNamed generic (a_message 2) client server identity
unfolding get_one_option get_one generic
a_message-IsNamed = record { client = refl; server = refl; identity = refl }

request_allowed : is_answered generic 3 ≡ true
unfolding is_answered
request_allowed = refl

elapsed_code : generic.code elapsed ≡ 8
unfolding generic
elapsed_code = refl

new_request_from_advertise_lem_example :
    (d : Message OptionGeneric) × (new_request_from_advertise generic elapsed requested
        (some (a_message 2))
        (add_option generic requested_domains ∷ [])
      ≡ ok (apply_modifiers generic (add_option generic requested_domains ∷ []) d))
    × (d.message_type ≡ 3)
    × (d.transaction_id ≡ 1 ∷ 2 ∷ 3 ∷ [])
    × IsNamed generic d client server identity
new_request_from_advertise_lem_example =
    new_request_from_advertise_lem generic elapsed requested (a_message 2) client server identity
      (add_option generic requested_domains ∷ []) refl elapsed_code a_message-IsNamed

-- "a.b"
abbrev a_name : Bytes
a_name = 97 ∷ 46 ∷ 98 ∷ []

a_name-IsLabel : All IsLabel (a_name ∷ [])
unfolding split_dots
a_name-IsLabel = (((omega arith, omega arith), ((omega arith, omega arith), tt)), tt)
