-- ===== src/Bsdp/Messages.antt =====
-- dhcpv4/bsdp/bsdp.go: the messages of an exchange. A vendor class identifier is that of a host that
-- runs no macOS; on macOS it asks the operating system. Random bytes are an argument.
use dhcp.Prelude.{
  ℕ, Bool, not, ◌&&◌, List, [], ◌∷◌, ◌++◌, Option, none, some, ◌==◌, leb, if◌then◌else◌, Bytes,
  Slice, Result, ok, err, ◌>>=◌, map_err,
}
use dhcp.Net.{to4}
use dhcp.Uio.{Uio}
use dhcp.Dhcpv4.Options.{Options}
use dhcp.Dhcpv4.Packet.{Dhcpv4}
use dhcp.Dhcpv4.Codes.{
  message_type_ack, message_type_inform, option_subnet_mask, option_router, option_bootfile_name,
  option_class_identifier,
}
use dhcp.Dhcpv4.Getters
use dhcp.Dhcpv4.Getters.{update_option}
use dhcp.Dhcpv4.Modifiers.{
  Modifier, prepend_modifiers, with_reply, with_option, with_requested_options, with_message_type,
  opt_max_message_size, opt_class_identifier,
}
use dhcp.Dhcpv4.Modifiers
use dhcp.Dhcpv4.New
use dhcp.Dhcpv4.New.{RandomRead, new, new_inform, new_reply_from_request}
use dhcp.Bsdp.{
  BootImage, message_type_none, message_type_list, message_type_select, version1_1,
  option_vendor_specific_information, opt_message_type, opt_version, opt_reply_port,
  opt_server_priority, opt_server_identifier, opt_default_boot_image_id, opt_selected_boot_image_id,
  opt_boot_image_list, opt_vendor_options, boot_image_list, message_type, get_vendor_options,
}

abbrev pub max_dhcp_message_size : ℕ
max_dhcp_message_size = 1500

-- `dhcpv4.ClientPort`
abbrev pub client_port : ℕ
client_port = 68

-- "AAPLBSDPC"
abbrev pub apple_vendor_id : Bytes
apple_vendor_id = b'A' ∷ b'A' ∷ b'P' ∷ b'L' ∷ b'B' ∷ b'S' ∷ b'D' ∷ b'P' ∷ b'C' ∷ []

-- `DefaultMacOSVendorClassIdentifier`: the vendor and "/i386/MacMini6,1".
abbrev pub default_macos_vendor_class_identifier : Bytes
default_macos_vendor_class_identifier =
    apple_vendor_id
    ++ b'/' ∷ b'i' ∷ b'3' ∷ b'8' ∷ b'6' ∷ b'/' ∷ b'M' ∷ b'a' ∷ b'c' ∷ b'M' ∷ b'i' ∷ b'n' ∷ b'i'
      ∷ b'6' ∷ b',' ∷ b'1' ∷ []

pub record ReplyConfig : Type 0 where
  pub server_ip : Slice
  pub server_hostname : Bytes
  pub boot_file_name : Bytes
  pub server_priority : ℕ
  pub images : List BootImage
  pub default_image : Option BootImage
  pub selected_image : Option BootImage

pub data Error : Type 0 where
  unprivileged_port no_server_identifier no_default_image no_selected_image no_images
        no_vendor_options no_local_ip :
      Error
  not_made : New.Error → Error

abbrev pub make_vendor_class_identifier : Result Error Bytes
make_vendor_class_identifier = ok default_macos_vendor_class_identifier

abbrev pub needs_reply_port : ℕ → Bool
needs_reply_port port = not (port == 0) && not (port == client_port)

-- `if needsReplyPort(replyPort) && replyPort >= 1024`
abbrev pub privileged : ℕ → Result Error (Unit {0})
privileged port = if needs_reply_port port && leb 1024 port then err unprivileged_port else ok tt

-- `if vendorOpts == nil`
abbrev pub or_no_options : {A : Type 0} → Option A → Result Error A
or_no_options none = err no_vendor_options
or_no_options (some v) = ok v

abbrev pub selected : Option BootImage → Result Error BootImage
selected none = err no_selected_image
selected (some image) = ok image

abbrev pub defaulted : Option BootImage → Result Error BootImage
defaulted none = err no_default_image
defaulted (some image) = ok image

-- `if config.Images == nil || len(config.Images) == 0`
abbrev pub some_images : List BootImage → Result Error (Unit {0})
some_images [] = err no_images
some_images (image ∷ images) = ok tt

-- `serverIP.To4() == nil`
abbrev pub four_bytes : Slice → Slice → Result Error Slice
four_bytes ip none = err no_server_identifier
four_bytes ip (some _) = ok ip

module _ (u : Uio) where
  unfoldable pub parse_boot_image_list_from_ack : Dhcpv4 → Result Error (List BootImage)
  parse_boot_image_list_from_ack ack =
      or_no_options (get_vendor_options u ack.options) >>= λ v. ok (boot_image_list u v)

  abbrev pub type_of : Option Options → ℕ
  type_of none = message_type_none
  type_of (some v) = message_type u v

  unfoldable pub message_type_from_packet : Dhcpv4 → ℕ
  message_type_from_packet d = type_of (get_vendor_options u d.options)

  abbrev pub reply_port_options : ℕ → List (ℕ × Slice)
  reply_port_options port = if needs_reply_port port then opt_reply_port u port ∷ [] else []

  abbrev pub inform_list_options : ℕ → List (ℕ × Slice)
  inform_list_options port =
      opt_message_type message_type_list ∷ opt_version version1_1 ∷ reply_port_options port

  unfoldable pub new_inform_list :
      RandomRead → Bytes → Slice → ℕ → List Modifier → Result Error Dhcpv4
  new_inform_list r hwaddr local_ip port modifiers = do
    _ ← privileged port
    vendor_class_id ← make_vendor_class_identifier
    map_err not_made (
        new_inform u r hwaddr local_ip (
          prepend_modifiers modifiers (
            with_requested_options u
              (option_vendor_specific_information ∷ option_class_identifier ∷ [])
            ∷ with_option (opt_max_message_size u max_dhcp_message_size)
            ∷ with_option (opt_class_identifier vendor_class_id)
            ∷ with_option (opt_vendor_options u (inform_list_options port))
            ∷ [])))

  abbrev pub inform_select_options : ℕ → BootImage → Slice → List (ℕ × Slice)
  inform_select_options port image server_ip =
      opt_message_type message_type_select
      ∷ opt_version version1_1
      ∷ opt_selected_boot_image_id u image.id
      ∷ (reply_port_options port ++ opt_server_identifier u server_ip ∷ [])

  unfoldable pub inform_select_for_ack : RandomRead → Dhcpv4 → ℕ → BootImage → Result Error Dhcpv4
  inform_select_for_ack r ack port image = do
    _ ← privileged port
    server_ip ←
        (four_bytes (Getters.server_identifier u ack) (to4 (Getters.server_identifier u ack)))
    vendor_class_id ← make_vendor_class_identifier
    map_err not_made (
        new r (
          with_reply ack
          ∷ with_option (opt_class_identifier vendor_class_id)
          ∷ with_requested_options u (
              option_subnet_mask ∷ option_router ∷ option_bootfile_name
              ∷ option_vendor_specific_information ∷ option_class_identifier ∷ [])
          ∷ with_message_type message_type_inform
          ∷ with_option (opt_vendor_options u (inform_select_options port image server_ip))
          ∷ []))

  -- What both replies set before their vendor options.
  abbrev pub acknowledged : Dhcpv4 → ReplyConfig → Dhcpv4 → Dhcpv4
  acknowledged inform config reply = update_option (opt_class_identifier apple_vendor_id) (
      update_option (Modifiers.opt_server_identifier u config.server_ip) (
        update_option (Modifiers.opt_message_type message_type_ack) (record reply {
          client_ip_addr = inform.client_ip_addr;
          gateway_ip_addr = inform.gateway_ip_addr;
          server_ip_addr = config.server_ip;
          server_host_name = config.server_hostname;
        })))

  -- `if config.SelectedImage != nil`
  abbrev pub selected_options : Option BootImage → List (ℕ × Slice)
  selected_options none = []
  selected_options (some image) = opt_selected_boot_image_id u image.id ∷ []

  abbrev pub reply_list_options : BootImage → ReplyConfig → List (ℕ × Slice)
  reply_list_options default config =
      opt_message_type message_type_list
      ∷ opt_server_priority u config.server_priority
      ∷ opt_default_boot_image_id u default.id
      ∷ opt_boot_image_list u config.images
      ∷ selected_options config.selected_image

  unfoldable pub new_reply_for_inform_list : RandomRead → Dhcpv4 → ReplyConfig → Result Error Dhcpv4
  new_reply_for_inform_list r inform config = do
    default ← defaulted config.default_image
    _ ← some_images config.images
    reply ← map_err not_made (new_reply_from_request u r inform [])
    ok (
        update_option (opt_vendor_options u (reply_list_options default config))
          (acknowledged inform config reply))

  unfoldable pub new_reply_for_inform_select :
      RandomRead → Dhcpv4 → ReplyConfig → Result Error Dhcpv4
  new_reply_for_inform_select r inform config = do
    image ← selected config.selected_image
    _ ← some_images config.images
    reply ← map_err not_made (new_reply_from_request u r inform [])
    ok (
        update_option
          (opt_vendor_options u
            (opt_message_type message_type_select ∷ opt_selected_boot_image_id u image.id ∷ []))
          (acknowledged inform config (record reply { boot_file_name = config.boot_file_name })))
