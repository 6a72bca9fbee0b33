-- ===== src/Dhcpv6/Modifiers.antt =====
-- dhcpv6/modifiers.go, and what dhcpv6/dhcpv6message.go says of the options that a message requests.
-- A modifier has no errors, but a type assertion in it may panic.
pub mod Requested
pub mod Addresses
use dhcp.Prelude.{
  ℕ, zero, suc, Bool, true, false, List, [], ◌∷◌, ◌++◌, Option, none, some, if◌then◌else◌,
  replicate, Bytes, Slice, Result, ok, fault, panic, ◌>>=◌,
}
use dhcp.Uio.{Uio}
use dhcp.Rfc1035label.{Labels}
use dhcp.Dhcpv4.Values.{codes_has}
use dhcp.Dhcpv6.Duid.{Duid}
use dhcp.Dhcpv6.Options.{get, get_one, update}
use dhcp.Dhcpv6.Message.{Message, option_ia_na}
use dhcp.Dhcpv6.Values
use dhcp.Dhcpv6.Packet.{
  Packet, Opt, Opts, message, relay, plain, ia_na, ia_address, nil, to_list, of_list,
}
use dhcp.Dhcpv6.Packet.Parse.{kind}
use dhcp.Dhcpv6.Relaying.{get_one_option, add_option}

pub data NoError : Type 0 where

abbrev pub Modifier : Type 0
Modifier = Packet → Result NoError Packet

abbrev pub option_oro : ℕ
option_oro = 6

abbrev pub option_bootfile_url : ℕ
option_bootfile_url = 59

abbrev pub option_bootfile_param : ℕ
option_bootfile_param = 60

-- `OptIAAddress`
pub record IaAddress : Type 0 where
  pub ip : Slice
  pub preferred_lifetime : ℕ
  pub valid_lifetime : ℕ
  pub options : Opts

abbrev pub address_option : IaAddress → Opt
address_option a = ia_address a.ip a.preferred_lifetime a.valid_lifetime a.options

abbrev pub zero_address : IaAddress
zero_address = record { ip = none; preferred_lifetime = 0; valid_lifetime = 0; options = nil }

-- `AddRequestedOption`, and the loop over it.
abbrev pub add_requested_option : ℕ → List ℕ → List ℕ
add_requested_option c ol = ol ++ c ∷ []

unfoldable pub add_requested_options : List ℕ → List ℕ → List ℕ
add_requested_options [] ol = ol
add_requested_options (c ∷ cs) ol = add_requested_options cs (add_requested_option c ol)

-- `if opt == nil { opt = &OptRequestedOption{} }` and `opt.(*OptRequestedOption)`
abbrev pub as_requested : Option Opt → Result NoError (List ℕ)
as_requested none = ok []
as_requested (some (plain (Values.Value.requested_option ol))) = ok ol
as_requested (some x) = fault panic

-- The loop of `WithIANA`: its variable, and how many pointers to it have been added.
unfoldable pub pointers : ℕ → IaAddress → List IaAddress → ℕ × IaAddress
pointers n addr [] = (n, addr)
pointers n addr (a ∷ addrs) = pointers (suc n) a addrs

-- The options that are added. All pointers point to the variable.
unfoldable pub added : List IaAddress → List Opt
unfolding pointers
added addrs = let (n, addr) = pointers 0 zero_address addrs in replicate n (address_option addr)

-- `if opt == nil { opt = &OptIANA{} }`, `opt.(*OptIANA)`, and options behind those that it has.
abbrev pub with_added : List Opt → Option Opt → Result NoError Opt
with_added xs none = ok (ia_na (replicate 4 0) 0 0 (of_list xs))
with_added xs (some (ia_na i t₁ t₂ o)) = ok (ia_na i t₁ t₂ (of_list (to_list o ++ xs)))
with_added xs (some x) = fault panic

-- `optbf != nil`
abbrev pub is_set : Option Opt → Bool
is_set none = false
is_set (some x) = true

-- The loops of `IsOptionRequested`.
unfoldable pub requested_in : ℕ → List Opt → Result NoError Bool
requested_in c [] = ok false
requested_in c (plain (Values.Value.requested_option ol) ∷ o) =
    let rest = requested_in c o in if codes_has c ol then ok true else rest
requested_in c (x ∷ o) = fault panic

module _ (u : Uio) where
  unfoldable pub update_option : Opt → Packet → Packet
  update_option x (message t tid o) = message t tid (of_list (update (kind u 0) x (to_list o)))
  update_option x (relay t hops link peer o) =
      relay t hops link peer (of_list (update (kind u 0) x (to_list o)))

  unfoldable pub with_client_id : Duid → Modifier
  with_client_id duid d = ok (update_option (plain (Values.Value.client_id duid)) d)

  unfoldable pub with_server_id : Duid → Modifier
  with_server_id duid d = ok (update_option (plain (Values.Value.server_id duid)) d)

  unfoldable pub with_user_class : Bytes → Modifier
  with_user_class uc d = ok (add_option u (plain (Values.Value.user_class (uc ∷ []))) d)

  unfoldable pub with_arch_type : ℕ → Modifier
  with_arch_type arch d = ok (add_option u (plain (Values.Value.client_arch (arch ∷ []))) d)

  unfoldable pub with_dns : List Slice → Modifier
  with_dns dnses d = ok (update_option (plain (Values.Value.dns_servers dnses)) d)

  unfoldable pub with_domain_search_list : List Bytes → Modifier
  with_domain_search_list search_list d =
      let l : Labels = record { original = none; labels = search_list } in
      ok (update_option (plain (Values.Value.domain_search l)) d)

  unfoldable pub with_requested_options : List ℕ → Modifier
  with_requested_options cs d = as_requested (get_one_option u option_oro d) >>= λ ol.
      ok (update_option (plain (Values.Value.requested_option (add_requested_options cs ol))) d)

  unfoldable pub with_netboot : Modifier
  with_netboot (relay t hops link peer o) = ok (relay t hops link peer o)
  with_netboot (message t tid o) =
      as_requested (get_one_option u option_oro (message t tid o)) >>= λ ol.
      let asked = add_requested_option option_bootfile_url ol in
      let oro = add_requested_option option_bootfile_param asked in
      ok (update_option (plain (Values.Value.requested_option oro)) (message t tid o))

  unfoldable pub with_iana : List IaAddress → Modifier
  with_iana addrs d =
      with_added (added addrs) (get_one_option u option_ia_na d) >>= λ ia. ok (update_option ia d)

  unfoldable pub is_option_requested : ℕ → Message Opt → Result NoError Bool
  is_option_requested c m = requested_in c (get (kind u 0) option_oro m.options)

  unfoldable pub is_netboot : Message Opt → Result NoError Bool
  unfolding is_option_requested
  is_netboot m = is_option_requested option_bootfile_url m >>= λ asked.
      if asked then ok true else ok (is_set (get_one (kind u 0) option_bootfile_url m.options))
