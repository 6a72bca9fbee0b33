-- ===== src/Netboot/Conversations.antt =====
-- netboot/netboot.go: `ConversationToNetconf` and `ConversationToNetconfv4`, which find a boot file
-- and a network configuration among the packets of an exchange.
pub mod Sound
use dhcp.Prelude.{
  ℕ, Bool, ◌&&◌, List, [], ◌∷◌, Option, none, some, ◌==◌, if◌then◌else◌, Bytes, Result, ok, err,
  fault, panic, ◌>>=◌, map_err,
}
use dhcp.Uio.{Uio}
use dhcp.Dhcpv4.Codes.{message_type_offer, opcode_boot_reply}
use dhcp.Dhcpv4.Packet.{Dhcpv4}
use dhcp.Dhcpv4.Getters.{message_type}
use dhcp.Dhcpv6.Message.{Message, type_advertise, type_reply}
use dhcp.Dhcpv6.Values
use dhcp.Dhcpv6.Packet.{Packet, Opt, message, relay, plain, to_list, option_code}
use dhcp.Dhcpv6.Relaying.{packet_type, get_one_option}
use dhcp.Dhcpv6.Modifiers.{option_bootfile_url}
use dhcp.Netboot
use dhcp.Netboot.{NetConf, get_net_conf_from_packet_v4, get_net_conf_from_packet_v6}

pub data Error : Type 0 where
  no_reply no_advertise no_boot_file no_offer : Error
  bad_packet : Netboot.Error → Error

-- A loop over the conversation that stops at the first packet that passes a test.
unfoldable pub look_for : {A : Type 0} → (A → Bool) → List A → Option A
look_for test [] = none
look_for test (m ∷ conversation) =
    let later = look_for test conversation in if test m then some m else later

abbrev pub has_type : ℕ → Packet → Bool
has_type t m = packet_type m == t

-- `if m == nil { return nil, "", err }`
abbrev pub or_error : {A : Type 0} → Error → Option A → Result Error A
or_error e none = err e
or_error e (some a) = ok a

-- `reply.(*dhcpv6.Message)` panics on a relay message.
abbrev pub as_message : Packet → Result Error (Message Opt)
as_message (message t tid o) =
    ok (record { message_type = t; transaction_id = tid; options = to_list o })
as_message (relay t hops link peer o) = fault panic

-- `opt.(*dhcpv6.OptBootFileURL)` panics on an option of that code that has another type.
abbrev pub as_boot_file : Opt → Result Error Bytes
as_boot_file (plain (Values.Value.boot_file_url b)) = ok b
as_boot_file x = fault panic

module _ (u : Uio) where
  -- The option of the reply, or else of the first ADVERTISE.
  abbrev pub boot_file_option : List Packet → Option Opt → Result Error Opt
  boot_file_option conversation (some opt) = ok opt
  boot_file_option conversation none = do
    advertise ← or_error no_advertise (look_for (has_type type_advertise) conversation)
    or_error no_boot_file (get_one_option u option_bootfile_url advertise)

  unfoldable pub conversation_to_netconf : List Packet → Result Error (NetConf × Bytes)
  unfolding look_for
  conversation_to_netconf conversation = do
    reply ← or_error no_reply (look_for (has_type type_reply) conversation)
    m ← as_message reply
    netconf ← map_err bad_packet (get_net_conf_from_packet_v6 u m)
    opt ← boot_file_option conversation (get_one_option u option_bootfile_url reply)
    boot_file ← as_boot_file opt
    ok (netconf, boot_file)

  -- `m.OpCode == dhcpv4.OpcodeBootReply && m.MessageType() == dhcpv4.MessageTypeOffer`
  abbrev pub is_offer : Dhcpv4 → Bool
  is_offer m = m.op_code == opcode_boot_reply && message_type u m == message_type_offer

  unfoldable pub conversation_to_netconf_v4 : List Dhcpv4 → Result Error (NetConf × Bytes)
  unfolding look_for
  conversation_to_netconf_v4 conversation = do
    reply ← or_error no_offer (look_for is_offer conversation)
    netconf ← map_err bad_packet (get_net_conf_from_packet_v4 u reply)
    ok (netconf, reply.boot_file_name)
