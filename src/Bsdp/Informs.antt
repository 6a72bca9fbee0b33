-- ===== src/Bsdp/Informs.antt =====
-- dhcpv4/bsdp/bsdp.go: what the receiver of an INFORM reads in it.
use dhcp.Prelude.{
  ℕ, ◌≡◌, refl, Bool, true, false, List, [], ◌∷◌, ◌++◌, none, some, Bytes, Slice, All, ok, arith,
  if◌then◌else◌,
}
use dhcp.Net.{to4}
use dhcp.Uio.{Uio}
use dhcp.Dhcpv4.Packet.{Dhcpv4}
use dhcp.Dhcpv4.Options.{Options, empty, get, update, options_from_list}
use dhcp.Dhcpv4.Options.Unended.{IsCarried-empty}
use dhcp.Dhcpv4.Getters
use dhcp.Dhcpv4.Getters.{update_option}
use dhcp.Dhcpv4.Modifiers.{
  with_reply, apply_modifiers, with_requested_options, with_message_type, with_option, with_hw_addr,
  with_client_ip, opt_class_identifier, opt_max_message_size,
}
use dhcp.Dhcpv4.Codes.{
  message_type_inform, option_subnet_mask, option_router, option_bootfile_name,
  option_class_identifier,
}
use dhcp.Dhcpv4.New.{RandomRead, new_packet, new_inform}
use dhcp.Dhcpv4.New.Exchange.{new_lem}
use dhcp.Bsdp.{
  BootImage, id_to_bytes, message_type_list, message_type_select,
  option_vendor_specific_information, get_vendor_options, message_type, selected_boot_image_id,
  get_boot_image_id, opt_message_type, opt_version, opt_selected_boot_image_id,
  opt_server_identifier, opt_reply_port, opt_vendor_options, version1_1,
}
use dhcp.Bsdp.Images.{IsId}
use dhcp.Bsdp.Vendor.{
  IsOption, HasBytes, options_from_list-IsCarried, uint16-HasBytes, id-HasBytes,
  get_vendor_options-update, message_type_from_bytes-byte, selected-id, get-of,
}
use dhcp.Bsdp.Messages.{
  message_type_from_packet, new_inform_list, inform_select_for_ack, inform_list_options,
  inform_select_options, needs_reply_port, privileged, four_bytes, max_dhcp_message_size,
  default_macos_vendor_class_identifier,
}

four_bytes-some : (ip s : Slice) {x : Bytes} → s ≡ some x → four_bytes ip s ≡ ok ip
four_bytes-some ip none h = cc
four_bytes-some ip (some x) h = refl

module _ (u : Uio) where
  -- The options of both messages but for the port, which is there or not.
  abbrev ports : Bool → ℕ → List (ℕ × Slice)
  ports b port = if b then opt_reply_port u port ∷ [] else []

  list_options-IsOption :
      (b : Bool) (port : ℕ)
      → All IsOption (opt_message_type message_type_list ∷ opt_version version1_1 ∷ ports b port)
  list_options-IsOption true port = (
    (omega arith, omega arith, (1, [], refl)),
    (
      (omega arith, omega arith, (1, 1 ∷ [], refl)),
      ((omega arith, omega arith, uint16-HasBytes u port), tt),
    ),
  )
  list_options-IsOption false port = (
    (omega arith, omega arith, (1, [], refl)),
    ((omega arith, omega arith, (1, 1 ∷ [], refl)), tt),
  )

  abbrev select_options : Bool → ℕ → BootImage → Slice → List (ℕ × Slice)
  select_options b port image ip =
      opt_message_type message_type_select
      ∷ opt_version version1_1
      ∷ opt_selected_boot_image_id u image.id
      ∷ (ports b port ++ opt_server_identifier u ip ∷ [])

  select_options-IsOption :
      (b : Bool) (port : ℕ) (image : BootImage) (ip : Slice)
      → IsId image.id
      → HasBytes (to4 ip)
      → All IsOption (select_options b port image ip)
  select_options-IsOption true port image ip h k = (
    (omega arith, omega arith, (2, [], refl)),
    (
      (omega arith, omega arith, (1, 1 ∷ [], refl)),
      (
        (omega arith, omega arith, id-HasBytes u image.id h),
        ((omega arith, omega arith, uint16-HasBytes u port), ((omega arith, omega arith, k), tt)),
      ),
    ),
  )
  select_options-IsOption false port image ip h k = (
    (omega arith, omega arith, (2, [], refl)),
    (
      (omega arith, omega arith, (1, 1 ∷ [], refl)),
      ((omega arith, omega arith, id-HasBytes u image.id h), ((omega arith, omega arith, k), tt)),
    ),
  )

  get-list_options :
      (b : Bool) (port : ℕ)
      → options_from_list
          (opt_message_type message_type_list ∷ opt_version version1_1 ∷ ports b port)
          empty
          1
        ≡ some (some (1 ∷ []))
  unfolding options_from_list update
  get-list_options true port = refl
  get-list_options false port = refl

  get-select_options :
      (b : Bool) (port : ℕ) (image : BootImage) (ip : Slice)
      → (options_from_list (select_options b port image ip) empty 1 ≡ some (some (2 ∷ [])))
        × (get 8 (options_from_list (select_options b port image ip) empty)
            ≡ id_to_bytes u image.id)
        × (get 3 (options_from_list (select_options b port image ip) empty) ≡ to4 ip)
  unfolding options_from_list update get
  get-select_options true port image ip = (refl, refl, refl)
  get-select_options false port image ip = (refl, refl, refl)

  module _ (r : RandomRead) (read : (r.failed ≡ false) × (r.n ≡ 4)) where
    -- If four random bytes were read and the reply port is privileged or the default, the
    -- INFORM[LIST] is made; its receiver reads the message type LIST, and it has the host's addresses.
    pub new_inform_list_lem :
        (hwaddr : Bytes) (local_ip : Slice) (port : ℕ)
        → privileged port ≡ ok tt
        → (d : Dhcpv4) × (new_inform_list u r hwaddr local_ip port [] ≡ ok d)
          × (message_type_from_packet u d ≡ message_type_list)
          × (d.client_hw_addr ≡ hwaddr)
          × (d.client_ip_addr ≡ local_ip)
    unfolding new_inform_list new_inform message_type_from_packet message_type update_option
        apply_modifiers with_hw_addr with_message_type with_client_ip with_requested_options
    new_inform_list_lem hwaddr local_ip port allowed =
        let modifiers =
          with_hw_addr hwaddr
          ∷ with_message_type message_type_inform
          ∷ with_client_ip local_ip
          ∷ with_requested_options u
              (option_vendor_specific_information ∷ option_class_identifier ∷ [])
          ∷ with_option (opt_max_message_size u max_dhcp_message_size)
          ∷ with_option (opt_class_identifier default_macos_vendor_class_identifier)
          ∷ with_option (opt_vendor_options u (inform_list_options u port))
          ∷ [] in
        let d = apply_modifiers modifiers (new_packet r.xid) in
        let sent = options_from_list (inform_list_options u port) empty in
        let typed = get-list_options (needs_reply_port port) port in
        let carried =
          options_from_list-IsCarried (inform_list_options u port) empty
            (list_options-IsOption (needs_reply_port port) port) IsCarried-empty in
        let vendor : get_vendor_options u d.options ≡ some sent =
          get_vendor_options-update u sent 1 (some (1 ∷ [])) _ carried typed in
        (
          d,
          rw (allowed, new_lem u r read modifiers) refl,
          rw (vendor, get-of 1 sent (some (1 ∷ [])) typed) (message_type_from_bytes-byte u 1),
          refl,
          refl,
        )

    -- If four random bytes were read, the reply port is privileged or the default, and the ACK names
    -- a server with an IPv4 address, the INFORM[SELECT] is made; its receiver reads the message type
    -- SELECT and the identifier of the image in it, if the wire can carry that, and it has the
    -- transaction and the client of the ACK.
    pub inform_select_for_ack_lem :
        (ack : Dhcpv4) (port : ℕ) (image : BootImage) (x : ℕ) (ip : Bytes)
        → privileged port ≡ ok tt
        → to4 (Getters.server_identifier u ack) ≡ some (x ∷ ip)
        → IsId image.id
        → (d : Dhcpv4) × (inform_select_for_ack u r ack port image ≡ ok d)
          × (message_type_from_packet u d ≡ message_type_select)
          × ((v : Options) × (get_vendor_options u d.options ≡ some v)
              × (selected_boot_image_id u v ≡ some image.id))
          × (d.transaction_id ≡ ack.transaction_id)
          × (d.client_hw_addr ≡ ack.client_hw_addr)
    unfolding inform_select_for_ack message_type_from_packet message_type update_option
        apply_modifiers with_reply with_message_type with_requested_options selected_boot_image_id
        get_boot_image_id
    inform_select_for_ack_lem ack port image x ip allowed known h =
        let server = Getters.server_identifier u ack in
        let modifiers =
          with_reply ack
          ∷ with_option (opt_class_identifier default_macos_vendor_class_identifier)
          ∷ with_requested_options u (
              option_subnet_mask ∷ option_router ∷ option_bootfile_name
              ∷ option_vendor_specific_information ∷ option_class_identifier ∷ [])
          ∷ with_message_type message_type_inform
          ∷ with_option (opt_vendor_options u (inform_select_options u port image server))
          ∷ [] in
        let d = apply_modifiers modifiers (new_packet r.xid) in
        let sent = options_from_list (inform_select_options u port image server) empty in
        let (typed, chosen, _) = get-select_options (needs_reply_port port) port image server in
        let carried =
          options_from_list-IsCarried (inform_select_options u port image server) empty
            (select_options-IsOption (needs_reply_port port) port image server h (x, ip, known))
            IsCarried-empty in
        let vendor : get_vendor_options u d.options ≡ some sent =
          get_vendor_options-update u sent 1 (some (2 ∷ [])) _ carried typed in
        (
          d,
          rw (allowed, four_bytes-some server (to4 server) known, new_lem u r read modifiers) refl,
          rw (vendor, get-of 1 sent (some (2 ∷ [])) typed) (message_type_from_bytes-byte u 2),
          (sent, vendor, selected-id u (get 8 sent) image.id h chosen),
          refl,
          refl,
        )
