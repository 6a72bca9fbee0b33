-- ===== src/Dhcpv6/Iputils.antt =====
-- dhcpv6/iputils.go: the hardware address of a client, from an IP address or from its identifier.
pub mod Address
use dhcp.Prelude.{
  ℕ, zero, suc, ◌+◌, ◌-◌, ◌/◌, ◌%◌, Bool, true, false, ◌||◌, List, [], ◌∷◌, ◌++◌, Option, none,
  some, ◌==◌, if◌then◌else◌, take, drop, Bytes, Slice, elements, Result, ok, err, fault, panic,
  ◌>>=◌, map_err,
}
use dhcp.Uio.{Uio}
use dhcp.Net.{to16}
use dhcp.Dhcpv6.Duid.{Duid, duid_llt, duid_ll}
use dhcp.Dhcpv6.Message.{option_client_id}
use dhcp.Dhcpv6.Values
use dhcp.Dhcpv6.Packet.{Packet, Opt, message, relay, plain}
use dhcp.Dhcpv6.Relaying
use dhcp.Dhcpv6.Relaying.{
  negsuc, is_relay, get_one_option, decapsulate_relay_index, get_inner_message, message_packet,
}

pub data Error : Type 0 where
  short_ip no_eui48 no_client_id no_mac : Error
  bad_relay : Relaying.Error → Error

-- `bs[i]`
abbrev pub byte_at : Bytes → ℕ → Result Error ℕ
byte_at [] i = fault panic
byte_at (v ∷ bs) zero = ok v
byte_at (v ∷ bs) (suc i) = byte_at bs i

-- `v ^ 0x02`
abbrev pub flip_local : ℕ → ℕ
flip_local v = if v / 2 % 2 == 0 then v + 2 else v - 2

-- `mac[0] ^= 0x02`
abbrev pub flip_first : Bytes → Bytes
flip_first [] = []
flip_first (v ∷ mac) = flip_local v ∷ mac

-- `if ip.To16() == nil`
abbrev pub if_ip : Slice → Result Error Bytes → Result Error Bytes
if_ip none mac = err short_ip
if_ip (some ip) mac = mac

unfoldable pub embedded_mac : Bytes → Result Error Bytes
embedded_mac ip = byte_at ip 11 >>= λ a.
    let second = byte_at ip 12 in
    let mac = flip_first (take 3 (drop 8 ip)) ++ take 3 (drop 13 ip) in
    if a == 255 then (second >>= λ b. if b == 254 then ok mac else err no_eui48) else err no_eui48

unfoldable pub get_mac_address_from_eui64 : Slice → Result Error Bytes
get_mac_address_from_eui64 ip = if_ip (to16 ip) (embedded_mac (elements ip))

-- `if mac, err := ...; err == nil { return mac, nil }`, and what is done else.
abbrev pub or_else : Result Error Bytes → Result Error Bytes → Result Error Bytes
or_else (ok mac) other = ok mac
or_else (err e) other = other
or_else (fault f) other = fault f

-- `inner.(*RelayMessage).PeerAddr`
abbrev pub peer_of : Packet → Result Error Slice
peer_of (message t tid o) = fault panic
peer_of (relay t hops link peer o) = ok peer

-- `if duid.LinkLayerAddr == nil`, and what is returned else.
abbrev pub link_layer : Slice → Result Error Bytes
link_layer none = err no_mac
link_layer (some addr) = ok addr

abbrev pub client_mac : Option Opt → Result Error Bytes
client_mac none = err no_client_id
client_mac (some (plain (Values.Value.client_id d))) = link_layer d.link_layer_addr
client_mac (some x) = fault panic

module _ (u : Uio) where
  unfoldable pub extract_mac : Packet → Result Error Bytes
  unfolding get_mac_address_from_eui64
  extract_mac packet =
      let of_relay = do
        inner ← map_err bad_relay (decapsulate_relay_index u packet (negsuc zero))
        ip ← peer_of inner
        or_else (get_mac_address_from_eui64 ip) (
            map_err bad_relay (get_inner_message u packet) >>= λ msg.
            client_mac (get_one_option u option_client_id (message_packet msg)))
      in if is_relay packet then of_relay else client_mac (get_one_option u option_client_id packet)
