-- ===== src/Bsdp/Replies.antt =====
-- dhcpv4/bsdp/bsdp.go: what the receiver of a message reads in it.
use dhcp.Prelude.{◌≡◌, refl, ap, false, List, [], ◌∷◌, Option, none, some, All, ok, arith}
use dhcp.Net.{to4}
use dhcp.Uio.{Uio}
use dhcp.Dhcpv4.Packet.{Dhcpv4}
use dhcp.Dhcpv4.Options.{Options, empty, get, update, options_from_list}
use dhcp.Dhcpv4.Options.Unended.{IsCarried-empty}
use dhcp.Dhcpv4.Codes.{option_server_identifier}
use dhcp.Dhcpv4.Getters.{update_option}
use dhcp.Dhcpv4.Modifiers.{with_reply, apply_modifiers}
use dhcp.Dhcpv4.New.{RandomRead, new_packet, new_reply_from_request}
use dhcp.Dhcpv4.New.Exchange.{new_lem}
use dhcp.Bsdp.{
  BootImage, images_to_bytes, opt_vendor_options, message_type_list, message_type_select,
  get_vendor_options, message_type, selected_boot_image_id, get_boot_image_id, opt_message_type,
  opt_selected_boot_image_id,
}
use dhcp.Bsdp.Images.{IsId, IsImage}
use dhcp.Bsdp.Vendor.{
  IsOption, HasBytes, options_from_list-IsCarried, uint16-HasBytes, id-HasBytes, images-HasBytes,
  get_vendor_options-update, message_type_from_bytes-byte, boot_image_list-images, selected-id,
  get-of,
}
use dhcp.Bsdp.Messages.{
  ReplyConfig, parse_boot_image_list_from_ack, message_type_from_packet, new_reply_for_inform_list,
  reply_list_options, selected_options, acknowledged, new_reply_for_inform_select,
}

-- A configuration of images that the wire can carry.
pub record IsConfig (config : ReplyConfig) (default image : BootImage) (images : List BootImage)
    : Type 0 where
  pub has_default : config.default_image ≡ some default
  pub default_valid : IsId default.id
  pub has_images : config.images ≡ image ∷ images
  pub images_valid : All IsImage (image ∷ images)

abbrev pub IsSelected : Option BootImage → Type 0
IsSelected none = Unit
IsSelected (some image) = IsId image.id

module _ (u : Uio) where
  reply_list_options-IsOption :
      (config : ReplyConfig) (default image : BootImage) (images : List BootImage)
      → IsConfig config default image images
      → IsSelected config.selected_image
      → All IsOption (reply_list_options u default config)
  reply_list_options-IsOption config default image images v s =
      let has_images : HasBytes (images_to_bytes u config.images) =
        rw v.has_images (images-HasBytes u image images v.images_valid) in
      (
        (omega arith, omega arith, (1, [], refl)),
        (
          (omega arith, omega arith, uint16-HasBytes u config.server_priority),
          (
            (omega arith, omega arith, id-HasBytes u default.id v.default_valid),
            ((omega arith, omega arith, has_images), go config.selected_image s),
          ),
        ),
      )
    where
      go : (o : Option BootImage) → IsSelected o → All IsOption (selected_options u o)
      go none h = tt
      go (some i) h = ((omega arith, omega arith, id-HasBytes u i.id h), tt)

  -- The map of the options of a list reply.
  abbrev list_map : BootImage → ReplyConfig → Options
  list_map default config = options_from_list (reply_list_options u default config) empty

  get-list_map :
      (default : BootImage) (config : ReplyConfig)
      → (get 9 (list_map default config) ≡ images_to_bytes u config.images)
        × (get 1 (list_map default config) ≡ some (1 ∷ []))
        × (list_map default config 1 ≡ some (some (1 ∷ [])))
  unfolding get options_from_list update
  get-list_map default config = go config.selected_image
    where
      go :
          (o : Option BootImage)
          → (get 9 (
                options_from_list
                  (reply_list_options u default (record config { selected_image = o }))
                  empty)
              ≡ images_to_bytes u config.images)
            × (get 1 (
                  options_from_list
                    (reply_list_options u default (record config { selected_image = o }))
                    empty)
                ≡ some (1 ∷ []))
            × (options_from_list
                  (reply_list_options u default (record config { selected_image = o }))
                  empty
                  1
                ≡ some (some (1 ∷ [])))
      go none = (refl, refl, refl)
      go (some i) = (refl, refl, refl)

  module _ (r : RandomRead) (read : (r.failed ≡ false) × (r.n ≡ 4)) where
    -- If four random bytes were read and the images fit, the reply to an INFORM[LIST] is made, and its
    -- receiver reads the message type LIST and the configured images in it; it has the transaction of
    -- the message, and the configured server as its server identifier.
    pub new_reply_for_inform_list_lem :
        (inform : Dhcpv4) (config : ReplyConfig) (default image : BootImage)
        (images : List BootImage)
        → IsConfig config default image images
        → IsSelected config.selected_image
        → (ack : Dhcpv4) × (new_reply_for_inform_list u r inform config ≡ ok ack)
          × (parse_boot_image_list_from_ack u ack ≡ ok (image ∷ images))
          × (message_type_from_packet u ack ≡ message_type_list)
          × (ack.transaction_id ≡ inform.transaction_id)
          × (get option_server_identifier ack.options ≡ to4 config.server_ip)
    unfolding new_reply_for_inform_list parse_boot_image_list_from_ack message_type_from_packet
        message_type update_option new_reply_from_request apply_modifiers with_reply
    new_reply_for_inform_list_lem inform config default image images v s =
        let base = with_reply inform (new_packet r.xid) in
        let ack =
          update_option (opt_vendor_options u (reply_list_options u default config))
            (acknowledged u inform config base) in
        let carried =
          options_from_list-IsCarried (reply_list_options u default config) empty
            (reply_list_options-IsOption config default image images v s) IsCarried-empty in
        let found = get-list_map default config in
        let vendor : get_vendor_options u ack.options ≡ some (list_map default config) =
          get_vendor_options-update u (list_map default config) 1 (some (1 ∷ []))
            (acknowledged u inform config base).options carried found.2 in
        (
          ack,
          simp (v.has_default, v.has_images, new_lem u r read (with_reply inform ∷ [])),
          rw vendor (
              ap ok (
                boot_image_list-images u (list_map default config) image images v.images_valid
                  (rw (← v.has_images) found.0))),
          rw (vendor, found.1) (message_type_from_bytes-byte u 1),
          refl,
          unfold get update in refl,
        )

    -- The same for the reply to an INFORM[SELECT], in which the receiver reads the message type
    -- SELECT and the selected image.
    pub new_reply_for_inform_select_lem :
        (inform : Dhcpv4) (config : ReplyConfig) (chosen image : BootImage)
        (images : List BootImage)
        → config.selected_image ≡ some chosen
        → config.images ≡ image ∷ images
        → IsId chosen.id
        → (ack : Dhcpv4) × (new_reply_for_inform_select u r inform config ≡ ok ack)
          × (message_type_from_packet u ack ≡ message_type_select)
          × ((v : Options) × (get_vendor_options u ack.options ≡ some v)
              × (selected_boot_image_id u v ≡ some chosen.id))
          × (ack.transaction_id ≡ inform.transaction_id)
    unfolding new_reply_for_inform_select message_type_from_packet message_type update_option
        new_reply_from_request apply_modifiers with_reply selected_boot_image_id get_boot_image_id
    new_reply_for_inform_select_lem inform config chosen image images set some_image h =
        let base = record (with_reply inform (new_packet r.xid)) {
          boot_file_name = config.boot_file_name;
        } in
        let opts =
          opt_message_type message_type_select ∷ opt_selected_boot_image_id u chosen.id ∷ [] in
        let sent = options_from_list opts empty in
        let acked = acknowledged u inform config base in
        let carried =
          options_from_list-IsCarried opts empty
            (
              (omega arith, omega arith, (2, [], refl)),
              ((omega arith, omega arith, id-HasBytes u chosen.id h), tt),
            )
            IsCarried-empty in
        let vendor : get_vendor_options u (update_option (opt_vendor_options u opts) acked).options
            ≡ some sent =
          get_vendor_options-update u sent 1 (some (2 ∷ [])) acked.options carried
            (unfold options_from_list update in refl) in
        (
          update_option (opt_vendor_options u opts) acked,
          simp (set, some_image, new_lem u r read (with_reply inform ∷ [])),
          rw (vendor, get-of 1 sent (some (2 ∷ [])) (unfold options_from_list update in refl))
              (message_type_from_bytes-byte u 2),
          (
            sent,
            vendor,
            selected-id u (get 8 sent) chosen.id h (unfold options_from_list update get in refl),
          ),
          refl,
        )
