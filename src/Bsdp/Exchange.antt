-- ===== src/Bsdp/Exchange.antt =====
-- dhcpv4/bsdp/client.go, and NewInformListForInterface of bsdp.go: the four messages of an exchange.
-- What the operating system and the sockets of dhcpv4/client4 give is an argument.
pub mod Served
use dhcp.Prelude.{ℕ, List, [], ◌∷◌, Bytes, Slice, Result, ok, err, fault, ◌>>=◌, map_err}
use dhcp.Uio.{Uio}
use dhcp.Dhcpv4.Packet.{Dhcpv4}
use dhcp.Dhcpv4.Codes.{message_type_ack}
use dhcp.Dhcpv4.New.{RandomRead}
use dhcp.Dhcpv4.Addresses.{Addr, get_external_ipv4_addrs}
use dhcp.Bsdp.{BootImage}
use dhcp.Bsdp.Messages
use dhcp.Bsdp.Messages.{
  client_port, no_local_ip, new_inform_list, parse_boot_image_list_from_ack, inform_select_for_ack,
}

-- The calls that leave the package: the sockets, the hardware address and the addresses of the
-- interface, random bytes for either message, and `SendReceive` with the type that is waited for.
pub record Host (S : Type 0) : Type 0 where
  pub send_socket : Result S (Unit {0})
  pub receive_socket : Result S (Unit {0})
  pub interface : Result S (Bytes × List Addr)
  pub list_random : RandomRead
  pub select_random : RandomRead
  pub send_receive : Dhcpv4 → ℕ → Result S Dhcpv4

pub data Error (S : Type 0) : Type 0 where
  host_failed : S → Error S
  bad_message : Messages.Error → Error S
  no_boot_images : Error S

-- `localIPs[0]`
abbrev pub first_ip : {S : Type 0} → List Slice → Result (Error S) Slice
first_ip [] = err (bad_message no_local_ip)
first_ip (ip ∷ ips) = ok ip

-- `if len(bootImages) == 0`, and `bootImages[0]`
abbrev pub first_image : {S : Type 0} → List BootImage → Result (Error S) BootImage
first_image [] = err no_boot_images
first_image (image ∷ images) = ok image

-- `if err != nil { return conversation, err }`
abbrev pub returning :
    {S A : Type 0}
    → List Dhcpv4
    → Result (Error S) A
    → (A → List Dhcpv4 × Result (Error S) (Unit {0}))
    → List Dhcpv4 × Result (Error S) (Unit {0})
returning conversation (ok a) next = next a
returning conversation (err e) next = (conversation, err e)
returning conversation (fault f) next = (conversation, fault f)

module _ (u : Uio) {S : Type 0} where
  unfoldable pub new_inform_list_for_interface :
      RandomRead → Result S (Bytes × List Addr) → ℕ → Result (Error S) Dhcpv4
  new_inform_list_for_interface r interface port = map_err host_failed interface >>= λ i.
      first_ip (get_external_ipv4_addrs i.1) >>= λ ip.
      map_err bad_message (new_inform_list u r i.0 ip port [])

  unfoldable pub exchange : Host S → List Dhcpv4 × Result (Error S) (Unit {0})
  unfolding new_inform_list_for_interface
  exchange h = returning [] (map_err host_failed h.send_socket) λ _.
      returning [] (map_err host_failed h.receive_socket) λ _.
        returning [] (new_inform_list_for_interface h.list_random h.interface client_port) λ list.
          let listed = list ∷ [] in
          returning listed (map_err host_failed (h.send_receive list message_type_ack)) λ ack.
            let acked = list ∷ ack ∷ [] in
            returning acked (map_err bad_message (parse_boot_image_list_from_ack u ack)) λ images.
              returning acked (first_image images) λ image.
                returning acked
                  (map_err bad_message
                    (inform_select_for_ack u h.select_random ack client_port image))
                  λ select.
                    let selected = list ∷ ack ∷ select ∷ [] in
                    returning selected
                      (map_err host_failed (h.send_receive select message_type_ack))
                      λ last. (list ∷ ack ∷ select ∷ last ∷ [], ok tt)
