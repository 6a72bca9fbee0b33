-- ===== src/Dhcpv6/New.antt =====
-- dhcpv6/dhcpv6.go and dhcpv6/dhcpv6message.go: messages made from nothing, `NewMessage` and the
-- solicitations. Random bytes, the clock and the interface's address are arguments.
use dhcp.Prelude.{
  ℕ, ◌/◌, ◌%◌, ◌^◌, List, [], ◌∷◌, ◌==◌, if◌then◌else◌, not, Bytes, Slice, Result, ok, err, ◌>>=◌,
  map_err,
}
use dhcp.Uio.{Uio}
use dhcp.Dhcpv4.New.{RandomRead}
use dhcp.Dhcpv4.Values.{second}
use dhcp.Dhcpv6.Duid.{Duid}
use dhcp.Dhcpv6.Message.{type_solicit, option_dns_recursive_name_server, option_domain_search_list}
use dhcp.Dhcpv6.Values.{client_id, requested_option, elapsed_time}
use dhcp.Dhcpv6.Packet.{Packet, Opt, message, plain, ia_na, nil}
use dhcp.Dhcpv6.Relaying.{add_option}
use dhcp.Dhcpv6.Modifiers.{Modifier, NoError}

pub data Error : Type 0 where
  random_failed short_random : Error

-- Modifiers have no errors of their own.
abbrev pub never : {E : Type 0} → NoError → E
never e = elim e [ ]

-- `for _, mod := range modifiers { mod(msg) }`
unfoldable pub apply_modifiers : List Modifier → Modifier
apply_modifiers [] d = ok d
apply_modifiers (modifier ∷ modifiers) d = modifier d >>= apply_modifiers modifiers

unfoldable pub generate_transaction_id : RandomRead → Result Error Bytes
generate_transaction_id r =
    if r.failed then err random_failed else if not (r.n == 3) then err short_random else ok r.xid

unfoldable pub new_message : RandomRead → List Modifier → Result Error Packet
unfolding generate_transaction_id apply_modifiers
new_message r modifiers = do
  tid ← generate_transaction_id r
  map_err never (apply_modifiers modifiers (message type_solicit tid nil))

-- The seconds since 2000, of which `now` are the nanoseconds. The modulus is `0xffffffff`.
unfoldable pub get_time : ℕ → ℕ
get_time now = (now / second) % 4294967295 % 2 ^ 32

-- `&OptIANA{IaId: {0xfa, 0xce, 0xb0, 0x0c}, T1: 0xe10, T2: 0x1518}`
abbrev pub default_iana : Opt
default_iana = ia_na (250 ∷ 206 ∷ 176 ∷ 12 ∷ []) 3600 5400 nil

-- A DUID of type LLT on Ethernet.
abbrev pub link_layer_time_duid : ℕ → Slice → Duid
link_layer_time_duid now hwaddr = record {
  duid_type = 1;
  hw_type = 1;
  time = get_time now;
  link_layer_addr = hwaddr;
  enterprise_number = 0;
  enterprise_identifier = [];
  uuid = [];
  opaque = [];
}

module _ (u : Uio) where
  unfoldable pub new_solicit_with_cid : RandomRead → Duid → List Modifier → Result Error Packet
  unfolding new_message apply_modifiers
  new_solicit_with_cid r duid modifiers = do
    m ← new_message r []
    let oro =
        plain (requested_option (option_dns_recursive_name_server ∷ option_domain_search_list ∷ []))
    let named = add_option u (plain (client_id duid)) m
    let asking = add_option u (plain (elapsed_time 0)) (add_option u oro named)
    map_err never (apply_modifiers modifiers (add_option u default_iana asking))
