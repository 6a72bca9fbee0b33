-- ===== src/Dhcpv4/New/Exchange.antt =====
-- dhcpv4/dhcpv4.go: the packets of an exchange, made from those that they answer.
use dhcp.Prelude.{ℕ, ◌≡◌, ◌≢◌, refl, false, List, [], ◌∷◌, arith, Slice, ok}
use dhcp.Uio.{Uio}
use dhcp.Dhcpv4.Packet.{Dhcpv4}
use dhcp.Dhcpv4.Options.{get, update}
use dhcp.Dhcpv4.Values.{ip_to_bytes, message_type_from_bytes, or_default}
use dhcp.Dhcpv4.Getters.{message_type, update_option, server_identifier}
use dhcp.Dhcpv4.Modifiers.{
  Modifier, apply_modifiers, prepend_modifiers, with_message_type, with_server_ip, with_client_ip,
  with_reply,
}
use dhcp.Dhcpv4.New.{
  RandomRead, new, new_packet, generate_transaction_id, new_request_from_offer,
  new_reply_from_request, request_modifiers, offer_server_ip,
}
use dhcp.Dhcpv4.Codes.{
  message_type_none, option_server_identifier, option_requested_ip_address, message_type_request,
}

message_type_byte :
    (u : Uio) (m : ℕ) → or_default message_type_none (message_type_from_bytes u (m ∷ [])) ≡ m
unfolding message_type_from_bytes
message_type_byte u m =
    rw (u.new_law (m ∷ []), u.read8_cons m [] false, u.fin_failed_law [] false) refl

module _ (u : Uio) (r : RandomRead) (read : (r.failed ≡ false) × (r.n ≡ 4)) where
  pub new_lem :
      (modifiers : List Modifier)
      → new r modifiers ≡ ok (apply_modifiers modifiers (new_packet r.xid))
  unfolding new generate_transaction_id
  new_lem modifiers = rw (read.0, read.1) refl

  -- If four random bytes were read and the offer names a server, the request is the caller's
  -- modifiers applied to a packet that has the offer's transaction and client, the message type
  -- `Request`, the server's address, and the options for the requested address and the server.
  pub new_request_from_offer_lem :
      (offer : Dhcpv4) (ip : Slice) (modifiers : List Modifier)
      → offer_server_ip (server_identifier u offer) offer.server_ip_addr ≡ ok ip
      → (d : Dhcpv4) × (new_request_from_offer u r offer modifiers
          ≡ ok (apply_modifiers modifiers d))
        × (d.transaction_id ≡ offer.transaction_id)
        × (d.client_hw_addr ≡ offer.client_hw_addr)
        × (d.server_ip_addr ≡ ip)
        × (message_type u d ≡ message_type_request)
        × (get option_requested_ip_address d.options ≡ ip_to_bytes u offer.your_ip_addr)
        × (get option_server_identifier d.options ≡ ip_to_bytes u ip)
  unfolding new_request_from_offer apply_modifiers with_reply with_message_type with_server_ip
      with_client_ip update_option update get message_type
  new_request_from_offer_lem offer ip modifiers known = (
    apply_modifiers (request_modifiers u r offer ip) (new_packet r.xid),
    rw known (new_lem (prepend_modifiers modifiers (request_modifiers u r offer ip))),
    refl,
    refl,
    refl,
    message_type_byte u message_type_request,
    refl,
    refl,
  )

  -- If four random bytes were read, the reply is the caller's modifiers applied to a packet that has
  -- the request's transaction, client, flags and relay address, and another op code.
  pub new_reply_from_request_lem :
      (request : Dhcpv4) (modifiers : List Modifier)
      → (d : Dhcpv4) × (new_reply_from_request u r request modifiers
          ≡ ok (apply_modifiers modifiers d))
        × (d.transaction_id ≡ request.transaction_id)
        × (d.hw_type ≡ request.hw_type)
        × (d.client_hw_addr ≡ request.client_hw_addr)
        × (d.flags ≡ request.flags)
        × (d.gateway_ip_addr ≡ request.gateway_ip_addr)
        × (d.op_code ≢ request.op_code)
  unfolding new_reply_from_request apply_modifiers with_reply
  new_reply_from_request_lem request modifiers = (
    with_reply request (new_packet r.xid),
    new_lem (with_reply request ∷ modifiers),
    refl,
    refl,
    refl,
    refl,
    refl,
    ground arith,
  )
