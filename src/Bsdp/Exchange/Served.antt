-- ===== src/Bsdp/Exchange/Served.antt =====
-- dhcpv4/bsdp: a client and a server that both use the package.
use dhcp.Prelude.{
  ℕ, ◌≡◌, refl, ap, ◌∙◌, false, List, [], ◌∷◌, some, ◌==◌, if◌then◌else◌, length, Bytes, Slice,
  Result, ok, arith,
}
use dhcp.Net.{to4}
use dhcp.Uio.{Uio}
use dhcp.Uio.Reads.{copy_n_take}
use dhcp.Dhcpv4.Packet.{Dhcpv4}
use dhcp.Dhcpv4.Options.{Options, get}
use dhcp.Dhcpv4.Codes.{message_type_ack, option_server_identifier}
use dhcp.Dhcpv4.Values.{ip_from_bytes}
use dhcp.Dhcpv4.Getters.{server_identifier, get_ip}
use dhcp.Dhcpv4.New.{RandomRead}
use dhcp.Dhcpv4.Addresses.{Addr, get_external_ipv4_addrs, to4_again}
use dhcp.Bsdp.{BootImage, message_type_list, get_vendor_options, selected_boot_image_id}
use dhcp.Bsdp.Images.{IsId}
use dhcp.Bsdp.Messages
use dhcp.Bsdp.Messages.{
  ReplyConfig, message_type_from_packet, new_reply_for_inform_list, new_reply_for_inform_select,
  client_port,
}
use dhcp.Bsdp.Replies.{IsConfig, new_reply_for_inform_list_lem, new_reply_for_inform_select_lem}
use dhcp.Bsdp.Informs.{new_inform_list_lem, inform_select_for_ack_lem}
use dhcp.Bsdp.Exchange.{Host, exchange, new_inform_list_for_interface}

abbrev pub IsRead : RandomRead → Type 0
IsRead r = (r.failed ≡ false) × (r.n ≡ 4)

module _ (u : Uio) where
  -- A server that answers an INFORM by its type.
  abbrev pub serve : RandomRead → ReplyConfig → Dhcpv4 → Result Messages.Error Dhcpv4
  serve r config d =
      if message_type_from_packet u d == message_type_list
      then new_reply_for_inform_list u r d config
      else new_reply_for_inform_select u r d config

  server_identifier-four :
      (d : Dhcpv4) (ip : Bytes)
      → length ip ≡ 4
      → get option_server_identifier d.options ≡ some ip
      → server_identifier u d ≡ some ip
  unfolding server_identifier get_ip ip_from_bytes
  server_identifier-four o (a ∷ b ∷ c ∷ d ∷ []) four h =
      let ip = a ∷ b ∷ c ∷ d ∷ [] in
      rw (h, u.new_law ip, copy_n_take u 4 ip false (omega arith), u.fin_failed_law [] false) refl
  server_identifier-four o _ four h = absurd (omega arith)

  -- What the client has to start with, and what the server is set up with.
  pub record Setting (h : Host Messages.Error) (r : RandomRead) (config : ReplyConfig)
      (hwaddr : Bytes) (addrs : List Addr) (local_ip : Slice) (ips : List Slice)
      (default image chosen : BootImage) (images : List BootImage) (x : ℕ) (server : Bytes)
      : Type 0 where
    pub send_socket : h.send_socket ≡ ok tt
    pub receive_socket : h.receive_socket ≡ ok tt
    pub interface : h.interface ≡ ok (hwaddr, addrs)
    pub local : get_external_ipv4_addrs addrs ≡ local_ip ∷ ips
    pub list_random : IsRead h.list_random
    pub select_random : IsRead h.select_random
    pub server_random : IsRead r
    pub configured : IsConfig config default image images
    pub has_selected : config.selected_image ≡ some chosen
    pub selected_valid : IsId chosen.id
    pub has_server : config.server_ip ≡ some (x ∷ server)
    pub server_four : length (x ∷ server) ≡ 4
    pub answers : (d : Dhcpv4) → h.send_receive d message_type_ack ≡ serve r config d

  -- A client whose messages reach such a server ends its exchange without an error, with the four
  -- messages, and selects the first of the server's images.
  pub exchange-serve :
      {h : Host Messages.Error} {r : RandomRead} {config : ReplyConfig} {hwaddr : Bytes}
      {addrs : List Addr} {local_ip : Slice} {ips : List Slice} {default image chosen : BootImage}
      {images : List BootImage} {x : ℕ} {server : Bytes}
      → Setting h r config hwaddr addrs local_ip ips default image chosen images x server
      → (list ack select last : Dhcpv4) × (exchange u h ≡ (list ∷ ack ∷ select ∷ last ∷ [], ok tt))
        × (message_type_from_packet u list ≡ message_type_list)
        × ((v : Options) × (get_vendor_options u select.options ≡ some v)
            × (selected_boot_image_id u v ≡ some image.id))
  unfolding exchange new_inform_list_for_interface
  exchange-serve {h} {r} {config} {hwaddr} {addrs} {local_ip} {ips} {default} {image} {chosen}
        {images} {x} {server} s =
      let (list, made_list, typed, _, _) =
        new_inform_list_lem u h.list_random s.list_random hwaddr local_ip client_port refl in
      let (ack, made_ack, parsed, _, _, named) =
        new_reply_for_inform_list_lem u r s.server_random list config default image images
          s.configured (rw s.has_selected s.selected_valid) in
      let acked : h.send_receive list message_type_ack ≡ ok ack =
        s.answers list ∙ rw typed made_ack in
      let server_bytes : to4 config.server_ip ≡ some (x ∷ server) =
        ap to4 s.has_server ∙ to4_again (x ∷ server) s.server_four in
      let known : to4 (server_identifier u ack) ≡ some (x ∷ server) =
        ap to4 (server_identifier-four ack (x ∷ server) s.server_four (named ∙ server_bytes))
        ∙ to4_again (x ∷ server) s.server_four in
      let (select, made_select, typed₂, wanted, _, _) =
        inform_select_for_ack_lem u h.select_random s.select_random ack client_port image x server
          refl known s.configured.images_valid.0.0 in
      let (last, made_last, _, _, _) =
        new_reply_for_inform_select_lem u r s.server_random select config chosen image images
          s.has_selected s.configured.has_images s.selected_valid in
      let ended : h.send_receive select message_type_ack ≡ ok last =
        s.answers select ∙ rw typed₂ made_last in
      (
        list,
        ack,
        select,
        last,
        simp (
          s.send_socket, s.receive_socket, s.interface, s.local, made_list, acked, parsed,
          made_select, ended,
        ),
        typed,
        wanted,
      )
