-- ===== src/Dhcpv6/Relaying.antt =====
-- dhcpv6/dhcpv6.go and dhcpv6/dhcpv6relay.go: relay messages around a message, how they are taken
-- off, put on, and mirrored in an answer.
pub mod Layers
pub mod Mirror
pub mod Termination
use dhcp.Prelude.{
  ℕ, zero, suc, ◌+◌, ◌%◌, Bool, true, false, List, [], ◌∷◌, Option, none, some, ◌==◌, if◌then◌else◌,
  not, Bytes, Slice, Result, ok, err, fault, panic, out_of_fuel, ◌>>=◌,
}
use dhcp.Uio.{Uio}
use dhcp.Dhcpv6.Options.{Kind, get_one, add}
use dhcp.Dhcpv6.Message.{Message, type_relay_forward, type_relay_reply}
use dhcp.Dhcpv6.Relay.{RelayMessage, is_relay_type}
use dhcp.Dhcpv6.Packet.{Packet, Opt, Opts, message, relay, relay_msg, nil, cons, to_list, of_list}
use dhcp.Dhcpv6.Packet.Parse.{kind}
use dhcp.Dhcpv6.Packet.Depth.{depth_packet}

-- Go's `int`.
pub data ℤ : Type 0 where
  pos : ℕ → ℤ
  negsuc : ℕ → ℤ

pub data Error : Type 0 where
  no_relay_msg invalid_index not_a_relay_type nil_relay nil_message not_forward : Error

abbrev pub option_relay_msg : ℕ
option_relay_msg = 9

abbrev pub option_interface_id : ℕ
option_interface_id = 18

abbrev pub option_remote_id : ℕ
option_remote_id = 37

abbrev pub options : Packet → Opts
options (message t tid o) = o
options (relay t hops link peer o) = o

-- `Type`
abbrev pub packet_type : Packet → ℕ
packet_type (message t tid o) = t
packet_type (relay t hops link peer o) = t

-- `IsRelay`
unfoldable pub is_relay : Packet → Bool
is_relay (message t tid o) = false
is_relay (relay t hops link peer o) = true

abbrev pub link_addr : Packet → Slice
link_addr (message t tid o) = none
link_addr (relay t hops link peer o) = link

abbrev pub peer_addr : Packet → Slice
peer_addr (message t tid o) = none
peer_addr (relay t hops link peer o) = peer

-- What a layer of relays says of the client's place, as `NewRelayReplFromRelayForw` collects it.
pub record Layer : Type 0 where
  pub link : Slice
  pub peer : Slice
  pub interface_id : Option Opt
  pub remote_id : Option Opt

-- `opt.(*OptRelayMsg)` panics on an option of that code that has another type.
abbrev pub relayed : Option Opt → Result Error Packet
relayed none = err no_relay_msg
relayed (some (relay_msg d)) = ok d
relayed (some x) = fault panic

-- `if m, ok := p.(*Message); ok { return m, nil }`, and what is done else.
abbrev pub message_or : Packet → Result Error (Message Opt) → Result Error (Message Opt)
message_or (message t tid o) deeper =
    ok (record { message_type = t; transaction_id = tid; options = to_list o })
message_or (relay t hops link peer o) deeper = deeper

abbrev pub next_hop : Packet → ℕ
next_hop (message t tid o) = 0
next_hop (relay t hops link peer o) = (hops + 1) % 256

-- A message of either type as a value of the `DHCPv6` interface.
abbrev pub message_packet : Message Opt → Packet
message_packet m = message m.message_type m.transaction_id (of_list m.options)

abbrev pub relay_packet : RelayMessage Opt → Packet
relay_packet r = relay r.message_type r.hop_count r.link_addr r.peer_addr (of_list r.options)

module _ (u : Uio) where
  -- `GetOneOption` and `AddOption` use the codes of the options alone.
  unfoldable pub get_one_option : ℕ → Packet → Option Opt
  get_one_option code d = get_one (kind u 0) code (to_list (options d))

  unfoldable pub add_option : Opt → Packet → Packet
  add_option x (message t tid o) = message t tid (of_list (add (kind u 0) x (to_list o)))
  add_option x (relay t hops link peer o) =
      relay t hops link peer (of_list (add (kind u 0) x (to_list o)))

  abbrev pub add_if_set : Option Opt → Packet → Packet
  add_if_set none d = d
  add_if_set (some x) d = add_option x d

  unfoldable pub decapsulate_relay : Packet → Result Error Packet
  unfolding is_relay get_one_option
  decapsulate_relay d =
      if not (is_relay d) then ok d else relayed (get_one_option option_relay_msg d)

  -- The loop of `DecapsulateRelayIndex` for -1. A packet has no more layers than it is deep.
  unfoldable pub last_relay : ℕ → Packet → Result Error Packet
  last_relay zero l = fault out_of_fuel
  last_relay (suc fuel) l = decapsulate_relay l >>= λ d.
      let deeper = last_relay fuel d in if not (is_relay d) then ok l else deeper

  -- Its loop for an index, of which `n` rounds are left.
  unfoldable pub decapsulate_times : ℕ → Packet → Result Error Packet
  decapsulate_times zero l = ok l
  decapsulate_times (suc n) l = decapsulate_relay l >>= λ d. decapsulate_times n d

  abbrev pub decapsulate_at : ℤ → Packet → Result Error Packet
  decapsulate_at (negsuc zero) l = last_relay (suc (depth_packet l)) l
  decapsulate_at (negsuc (suc n)) l = err invalid_index
  decapsulate_at (pos n) l = decapsulate_times (suc n) l

  unfoldable pub decapsulate_relay_index : Packet → ℤ → Result Error Packet
  decapsulate_relay_index l index = if not (is_relay l) then ok l else decapsulate_at index l

  unfoldable pub encapsulate_relay : Packet → ℕ → Slice → Slice → Result Error Packet
  unfolding is_relay_type add_option
  encapsulate_relay d t link peer =
      let outer = relay t (next_hop d) link peer nil in
      if not (is_relay_type t) then err not_a_relay_type else ok (add_option (relay_msg d) outer)

  -- The loop of `GetInnerMessage`.
  unfoldable pub inner_message : ℕ → Packet → Result Error (Message Opt)
  inner_message zero p = fault out_of_fuel
  inner_message (suc fuel) p = decapsulate_relay p >>= λ d. message_or d (inner_message fuel d)

  unfoldable pub get_inner_message : Packet → Result Error (Message Opt)
  unfolding inner_message
  get_inner_message r = inner_message (suc (depth_packet r)) r

  -- `GetTransactionID`
  unfoldable pub get_transaction_id : Packet → Result Error Bytes
  unfolding get_inner_message
  get_transaction_id (message t tid o) = ok tid
  get_transaction_id (relay t hops link peer o) =
      get_inner_message (relay t hops link peer o) >>= λ m. ok m.transaction_id

  abbrev pub layer : Packet → Layer
  layer d = record {
    link = link_addr d;
    peer = peer_addr d;
    interface_id = get_one_option option_interface_id d;
    remote_id = get_one_option option_remote_id d;
  }

  -- The first loop of `NewRelayReplFromRelayForw`, from the outermost layer inwards.
  unfoldable pub collect : ℕ → Packet → Result Error (List Layer)
  collect zero d = fault out_of_fuel
  collect (suc fuel) d = decapsulate_relay d >>= λ decap.
      let deeper = collect fuel decap in
      if is_relay decap then (deeper >>= λ ls. ok (layer d ∷ ls)) else ok (layer d ∷ [])

  unfoldable pub layers : Packet → Result Error (List Layer)
  unfolding collect
  layers d = collect (suc (depth_packet d)) d

  -- Its second loop, from the innermost layer outwards.
  unfoldable pub wrap : List Layer → Packet → Result Error Packet
  wrap [] m = ok m
  wrap (l ∷ ls) m = wrap ls m >>= λ d. encapsulate_relay d type_relay_reply l.link l.peer >>= λ e.
      ok (add_if_set l.remote_id (add_if_set l.interface_id e))

  unfoldable pub new_relay_repl_from_relay_forw :
      Option (RelayMessage Opt) → Option (Message Opt) → Result Error Packet
  new_relay_repl_from_relay_forw none msg = err nil_relay
  new_relay_repl_from_relay_forw (some r) none =
      if not (r.message_type == type_relay_forward) then err not_forward else err nil_message
  new_relay_repl_from_relay_forw (some r) (some m) =
      let wrapped = layers (relay_packet r) >>= λ ls. wrap ls (message_packet m) in
      if not (r.message_type == type_relay_forward) then err not_forward else wrapped
