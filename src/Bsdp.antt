-- ===== src/Bsdp.antt =====
-- dhcpv4/bsdp: Apple's boot service discovery, whose options are inside the vendor-specific option of
-- a DHCPv4 packet. A `Packet` of it is a DHCPv4 packet that is printed in another way.
pub mod Images
pub mod Vendor
pub mod Replies
pub mod Informs
pub mod Messages
pub mod Exchange
use Prim.Native.Nat.{bit_and, bit_or}
use dhcp.Prelude.{
  ℕ, zero, suc, ◌≡◌, Bool, true, false, not, List, [], ◌∷◌, Option, none, some, ◌==◌, if◌then◌else◌,
  length, Bytes, Slice, elements, Result, ok, err, fault, ◌>>=◌,
}
use dhcp.Uio.{Uio}
use dhcp.Uio.Items.{each, write_each, finish}
use dhcp.Dhcpv4.Options
use dhcp.Dhcpv4.Options.{Options, empty, get, options_from_list}
use dhcp.Dhcpv4.Values
use dhcp.Dhcpv4.Values.{ip_to_bytes, uint16_to_bytes}
use dhcp.Dhcpv4.Getters.{get_string, get_ip, get_uint16}

abbrev pub message_type_none : ℕ
message_type_none = 0

abbrev pub message_type_list : ℕ
message_type_list = 1

abbrev pub message_type_select : ℕ
message_type_select = 2

abbrev pub option_message_type : ℕ
option_message_type = 1

abbrev pub option_version : ℕ
option_version = 2

abbrev pub option_server_identifier : ℕ
option_server_identifier = 3

abbrev pub option_server_priority : ℕ
option_server_priority = 4

abbrev pub option_reply_port : ℕ
option_reply_port = 5

abbrev pub option_default_boot_image_id : ℕ
option_default_boot_image_id = 7

abbrev pub option_selected_boot_image_id : ℕ
option_selected_boot_image_id = 8

abbrev pub option_boot_image_list : ℕ
option_boot_image_list = 9

abbrev pub option_machine_name : ℕ
option_machine_name = 130

-- `dhcpv4.OptionVendorSpecificInformation`
abbrev pub option_vendor_specific_information : ℕ
option_vendor_specific_information = 43

-- `Version1_1`
abbrev pub version1_1 : Bytes
version1_1 = 1 ∷ 1 ∷ []

pub record BootImageId : Type 0 where
  pub is_install : Bool
  pub image_type : ℕ
  pub index : ℕ

pub record BootImage : Type 0 where
  pub id : BootImageId
  pub name : Bytes

-- `unread`: a read has failed or bytes are left. `absent`: there is no such option.
pub data Error : Type 0 where
  unread absent : Error

-- The first byte of an identifier.
abbrev pub byte0 : BootImageId → ℕ
byte0 b = bit_or (if b.is_install then bit_or 0 0x80 else 0) b.image_type

module _ (u : Uio) where
  open u use {Lexer}

  -- `BootImageID.Marshal`
  unfoldable pub marshal_id : BootImageId → Lexer → Lexer
  marshal_id b buf = u.write16 b.index (u.write8 0 (u.write8 (byte0 b) buf))

  -- `BootImageID.Unmarshal`
  unfoldable pub unmarshal_id : Lexer → Result Error (BootImageId × Lexer)
  unmarshal_id buf =
      let (first, b₁) = u.read8 buf in
      let (_, b₂) = u.read8 b₁ in
      let (index, b₃) = u.read16 b₂ in
      let id : BootImageId = record {
        is_install = not (bit_and first 0x80 == 0);
        image_type = bit_and first 0x7f;
        index = index;
      } in
      if u.failed b₃ then err unread else ok (id, b₃)

  unfoldable pub id_to_bytes : BootImageId → Slice
  id_to_bytes b = u.to_big_endian (marshal_id b)

  unfoldable pub id_from_bytes : Bytes → Result Error BootImageId
  id_from_bytes bs = u.from_big_endian Error BootImageId unmarshal_id bs

  -- `BootImage.Marshal`: the length of the name is cut to a byte.
  unfoldable pub marshal : BootImage → Lexer → Lexer
  unfolding marshal_id
  marshal b buf = u.write_bytes b.name (u.write8 (length b.name) (marshal_id b.id buf))

  -- `BootImage.Unmarshal`
  unfoldable pub unmarshal : Lexer → Result Error (BootImage × Lexer)
  unmarshal buf = unmarshal_id buf >>= λ r.
      let (n, b₁) = u.read8 r.1 in
      let (name, b₂) = u.consume n b₁ in
      let image : BootImage = record { id = r.0; name = elements name } in
      if u.failed b₂ then err unread else ok (image, b₂)

  -- `BootImageList.FromBytes`, which leaves up to four bytes unread.
  unfoldable pub images_from_bytes : Bytes → Result Error (List BootImage)
  unfolding unmarshal
  images_from_bytes bs = each u 5 unmarshal (suc (length bs)) [] (u.new bs) >>= λ r. ok r.0

  unfoldable pub images_to_bytes : List BootImage → Slice
  unfolding marshal
  images_to_bytes images = u.contents (write_each u marshal images (u.new []))

  unfoldable pub message_type_from_bytes : Bytes → Result Error ℕ
  message_type_from_bytes bs = let (m, buf) = u.read8 (u.new bs) in finish u unread m buf

  unfoldable pub version_from_bytes : Bytes → Result Error Bytes
  version_from_bytes bs = let (v, buf) = u.read_bytes 2 (u.new bs) in finish u unread v buf

abbrev pub opt_message_type : ℕ → ℕ × Slice
opt_message_type mt = (option_message_type, some (mt ∷ []))

abbrev pub opt_version : Bytes → ℕ × Slice
opt_version version = (option_version, some version)

abbrev pub opt_machine_name : Bytes → ℕ × Slice
opt_machine_name name = (option_machine_name, some name)

-- `nil` for a value that cannot be read.
abbrev pub or_nil : {A : Type 0} → Result Error A → Option A
or_nil (ok a) = some a
or_nil (err _) = none
or_nil (fault _) = none

abbrev pub or_else : {A : Type 0} → A → Result Error A → A
or_else def (ok a) = a
or_else def (err _) = def
or_else def (fault _) = def

abbrev pub when_found : {A : Type 0} → A → (Bytes → A) → Slice → A
when_found def f none = def
when_found def f (some v) = f v

-- `VendorOptions` is a map of options.
unfoldable pub machine_name : Options → Bytes
machine_name v = get_string option_machine_name v

-- `VendorOptions.FromBytes` into a new map, and the map if there was no error.
abbrev pub parsed_options : Options × Result Options.Error (Unit {0}) → Option Options
parsed_options (o, ok _) = some o
parsed_options (o, err _) = none
parsed_options (o, fault _) = none

module _ (u : Uio) where
  abbrev pub opt_reply_port : ℕ → ℕ × Slice
  opt_reply_port port = (option_reply_port, uint16_to_bytes u port)

  abbrev pub opt_server_priority : ℕ → ℕ × Slice
  opt_server_priority prio = (option_server_priority, uint16_to_bytes u prio)

  abbrev pub opt_server_identifier : Slice → ℕ × Slice
  opt_server_identifier ip = (option_server_identifier, ip_to_bytes u ip)

  abbrev pub opt_default_boot_image_id : BootImageId → ℕ × Slice
  opt_default_boot_image_id b = (option_default_boot_image_id, id_to_bytes u b)

  abbrev pub opt_selected_boot_image_id : BootImageId → ℕ × Slice
  opt_selected_boot_image_id b = (option_selected_boot_image_id, id_to_bytes u b)

  abbrev pub opt_boot_image_list : List BootImage → ℕ × Slice
  opt_boot_image_list images = (option_boot_image_list, images_to_bytes u images)

  -- `getBootImageID`
  unfoldable pub get_boot_image_id : ℕ → Options → Option BootImageId
  get_boot_image_id code o = when_found none (λ v. or_nil (id_from_bytes u v)) (get code o)

  unfoldable pub default_boot_image_id : Options → Option BootImageId
  default_boot_image_id v = get_boot_image_id option_default_boot_image_id v

  unfoldable pub selected_boot_image_id : Options → Option BootImageId
  selected_boot_image_id v = get_boot_image_id option_selected_boot_image_id v

  -- `nil` is the empty list.
  unfoldable pub boot_image_list : Options → List BootImage
  boot_image_list v =
      when_found [] (λ bs. or_else [] (images_from_bytes u bs)) (get option_boot_image_list v)

  unfoldable pub message_type : Options → ℕ
  message_type v =
      when_found message_type_none (λ bs. or_else message_type_none (message_type_from_bytes u bs))
        (get option_message_type v)

  unfoldable pub version : Options → Result Error Bytes
  version v = when_found (err absent) (version_from_bytes u) (get option_version v)

  unfoldable pub server_identifier : Options → Slice
  server_identifier v = get_ip u option_server_identifier v

  unfoldable pub reply_port : Options → Result Values.Error ℕ
  reply_port v = get_uint16 u option_reply_port v

  unfoldable pub server_priority : Options → Result Values.Error ℕ
  server_priority v = get_uint16 u option_server_priority v

  -- `OptVendorOptions`
  abbrev pub opt_vendor_options : List (ℕ × Slice) → ℕ × Slice
  opt_vendor_options o =
      (option_vendor_specific_information, Options.to_bytes u (options_from_list o empty))

  -- `GetVendorOptions`
  unfoldable pub get_vendor_options : Options → Option Options
  get_vendor_options o =
      when_found none (λ v. parsed_options (Options.from_bytes u v empty))
        (get option_vendor_specific_information o)
