-- ===== src/Netboot.antt =====
-- netboot/netconf.go: the network configuration that a reply gives.
pub mod Configured
pub mod Requests
pub mod Conversations
use dhcp.Prelude.{
  ℕ, ◌+◌, ◌/◌, ◌≡◌, Bool, true, false, ◌||◌, ◌&&◌, List, [], ◌∷◌, ◌++◌, Option, none, some, ◌==◌,
  if◌then◌else◌, length, replicate, Bytes, Slice, elements, equal, Result, ok, err, fault, panic,
  ◌>>=◌, map,
}
use dhcp.Uio.{Uio}
use dhcp.Net.{v4_prefix}
use dhcp.Rfc1035label.{Labels}
use dhcp.Dhcpv4.Packet.{Dhcpv4}
use dhcp.Dhcpv4.Values.{second}
use dhcp.Dhcpv4.Getters.{subnet_mask, ip_address_lease_time, dns, router}
use dhcp.Dhcpv4.DomainSearch.{domain_search}
use dhcp.Dhcpv6.Options.{get_one}
use dhcp.Dhcpv6.Message.{Message}
use dhcp.Dhcpv6.Values
use dhcp.Dhcpv6.Values.{dns_servers}
use dhcp.Dhcpv6.Packet.{Opt, Opts, plain, ia_na, ia_address, nil, cons, option_code}
use dhcp.Dhcpv6.Packet.Parse.{kind}

-- `AddrConf`, its `IPNet` in two fields.
pub record AddrConf : Type 0 where
  pub ip : Slice
  pub mask : Slice
  pub preferred_lifetime : ℕ
  pub valid_lifetime : ℕ

pub record NetConf : Type 0 where
  pub addresses : List AddrConf
  pub dns_servers : List Slice
  pub dns_search_list : List Bytes
  pub routers : List Slice

pub data Error : Type 0 where
  no_ia_na no_dns_servers null_address no_netmask null_netmask empty_search_list no_routers : Error

-- `ip == nil || ip.Equal(net.IPv4zero)`
unfoldable pub is_null : Slice → Bool
is_null none = true
is_null (some ip) = equal ip (replicate 4 0) || equal ip (v4_prefix ++ replicate 4 0)

-- The leading ones of a byte that has no ones behind them.
abbrev pub byte_ones : ℕ → Option ℕ
byte_ones v =
    if v == 0
    then some 0
    else if v == 128
    then some 1
    else if v == 192
    then some 2
    else if v == 224
    then some 3
    else if v == 240
    then some 4
    else if v == 248
    then some 5
    else if v == 252
    then some 6
    else if v == 254
    then some 7
    else none

abbrev pub plus_byte : Option ℕ → ℕ
plus_byte none = 0
plus_byte (some n) = n

-- The ones of `net.IPMask.Size`: none for a mask that is not ones followed by zeros.
unfoldable pub mask_ones : Bytes → Option ℕ
mask_ones [] = some 0
mask_ones (v ∷ mask) =
    let rest = mask_ones mask in
    let last = if equal mask (replicate (length mask) 0) then byte_ones v else none in
    if v == 255 then (elim rest [ none ↦ none | some n ↦ some (8 + n) ]) else last

-- `ones, _ := netmask.Size()`
abbrev pub size_ones : Slice → ℕ
size_ones mask = plus_byte (mask_ones (elements mask))

-- `if netmask == nil`
abbrev pub required_mask : Slice → Result Error Slice
required_mask none = err no_netmask
required_mask (some mask) = ok (some mask)

-- `if len(x) == 0`
abbrev pub required : Error → List Slice → Result Error (List Slice)
required e [] = err e
required e (x ∷ xs) = ok (x ∷ xs)

-- `if dnsSearchList != nil`
abbrev pub search_list : Option Labels → Result Error (List Bytes)
search_list none = ok []
search_list (some l) = if length l.labels == 0 then err empty_search_list else ok l.labels

-- `ffff:ffff:ffff:ffff::`
abbrev pub netmask_v6 : Slice
netmask_v6 = some (replicate 8 255 ++ replicate 8 0)

-- The addresses of an identity association; `o.(*dhcpv6.OptIAAddress)` panics on an option of
-- that code that has another type.
unfoldable pub ia_addresses : Opts → Result Error (List AddrConf)
ia_addresses nil = ok []
ia_addresses (cons (ia_address ip p v o) rest) = ia_addresses rest >>= λ as'.
    ok (record { ip = ip; mask = netmask_v6; preferred_lifetime = p; valid_lifetime = v } ∷ as')
ia_addresses (cons x rest) =
    let others = ia_addresses rest in if option_code x == 5 then fault panic else others

abbrev pub as_ia_na : Option Opt → Result Error (List AddrConf)
as_ia_na none = err no_ia_na
as_ia_na (some (ia_na i t₁ t₂ o)) = ia_addresses o
as_ia_na (some x) = fault panic

abbrev pub as_dns_servers : Option Opt → Result Error (List Slice)
as_dns_servers none = err no_dns_servers
as_dns_servers (some (plain (Values.Value.dns_servers ns))) = ok ns
as_dns_servers (some x) = fault panic

abbrev pub as_search_list : Option Opt → Result Error (List Bytes)
as_search_list none = ok []
as_search_list (some (plain (Values.Value.domain_search l))) = ok l.labels
as_search_list (some x) = fault panic

module _ (u : Uio) where
  unfoldable pub get_net_conf_from_packet_v4 : Dhcpv4 → Result Error NetConf
  get_net_conf_from_packet_v4 d = do
    ip ← (if is_null d.your_ip_addr then err null_address else ok d.your_ip_addr)
    some_mask ← required_mask (subnet_mask u d)
    mask ← (if size_ones some_mask == 0 then err null_netmask else ok some_mask)
    let address : AddrConf = record {
      ip = ip;
      mask = mask;
      preferred_lifetime = 0;
      valid_lifetime = ip_address_lease_time u 0 d / second;
    }
    servers ← required no_dns_servers (dns u d)
    search ← search_list (domain_search d)
    routers ← required no_routers (router u d)
    ok (record {
      addresses = address ∷ [];
      dns_servers = servers;
      dns_search_list = search;
      routers = routers;
    })

  unfoldable pub get_net_conf_from_packet_v6 : Message Opt → Result Error NetConf
  unfolding ia_addresses
  get_net_conf_from_packet_v6 d = do
    addresses ← as_ia_na (get_one (kind u 0) 3 d.options)
    servers ← as_dns_servers (get_one (kind u 0) 23 d.options)
    search ← as_search_list (get_one (kind u 0) 24 d.options)
    ok (record {
      addresses = addresses;
      dns_servers = servers;
      dns_search_list = search;
      routers = [];
    })
