-- ===== src/Bsdp/Vendor.antt =====
-- dhcpv4/bsdp/option_vendor_specific_information.go: BSDP options inside a DHCPv4 packet.
use dhcp.Prelude.{
  ℕ, ◌≡◌, ◌≢◌, ◌<◌, ◌/◌, ◌%◌, refl, ap, ◌∙◌, false, List, [], ◌∷◌, none, some, Bytes, Slice,
  elements, All, ok,
}
use dhcp.Uio.{Uio}
use dhcp.Dhcpv4.Options.{
  Options, empty, get, update, options_from_list, to_bytes, from_bytes, from_bytes_check_end,
}
use dhcp.Dhcpv4.Options.RoundTrip.{IsCarried}
use dhcp.Dhcpv4.Options.Unended.{IsCarried-update, from_bytes_unended}
use dhcp.Dhcpv4.Values.{uint16_to_bytes}
use dhcp.Bsdp.{
  BootImageId, BootImage, message_type_none, option_vendor_specific_information, id_to_bytes,
  images_to_bytes, when_found, parsed_options, or_else, or_nil, id_from_bytes, get_vendor_options,
  message_type_from_bytes, boot_image_list, images_from_bytes,
}
use dhcp.Bsdp.Images.{
  IsId, IsImage, id_from_bytes-id_to_bytes, id_to_bytes-id_bytes, images_to_bytes-encoding,
  images_from_bytes-images_to_bytes,
}

-- A value with bytes in it.
abbrev pub HasBytes : Slice → Type 0
HasBytes s = (x : ℕ) × (d : Bytes) × (s ≡ some (x ∷ d))

pub elements-HasBytes : (s : Slice) (x : ℕ) (d : Bytes) → elements s ≡ x ∷ d → HasBytes s
elements-HasBytes none x d h = cc
elements-HasBytes (some bs) x d h = (x, d, ap some h)

pub value_found :
    {B : Type 0} (def : B) (f : Bytes → B) (s : Slice) (b : B)
    → f (elements s) ≡ b
    → HasBytes s
    → when_found def f s ≡ b
value_found def f none b h (x, d, same) = cc
value_found def f (some bs) b h (x, d, same) = h

pub get-of : (c : ℕ) (o : Options) (v : Slice) → o c ≡ some v → get c o ≡ v
unfolding get
get-of c o v h = rw (h, get)

-- An option that the wire can carry.
abbrev pub IsOption : ℕ × Slice → Type 0
IsOption p = (p.0 ≢ 0) × (p.0 < 255) × HasBytes p.1

pub options_from_list-IsCarried :
    (opts : List (ℕ × Slice)) (o : Options)
    → All IsOption opts
    → IsCarried o
    → IsCarried (options_from_list opts o)
unfolding options_from_list
options_from_list-IsCarried [] o v carried = carried
options_from_list-IsCarried ((c, s) ∷ opts) o v carried =
    let (x, d, same) = v.0.2 in
    options_from_list-IsCarried opts (update c s o) v.1
      (IsCarried-update c x d s o v.0.0 v.0.1 same carried)

module _ (u : Uio) where
  pub uint16-HasBytes : (n : ℕ) → HasBytes (uint16_to_bytes u n)
  unfolding uint16_to_bytes
  uint16-HasBytes n = elements-HasBytes _ (n / 256 % 256) (n % 256 ∷ []) (
      ap (λ l. elements (u.contents (u.write16 n l))) (u.new_law [])
      ∙ ap (λ l. elements (u.contents l)) (u.write16_law n [] false)
      ∙ u.contents_law (n / 256 % 256 ∷ n % 256 ∷ []) false)

  pub id-HasBytes : (b : BootImageId) → IsId b → HasBytes (id_to_bytes u b)
  id-HasBytes b h =
      elements-HasBytes (id_to_bytes u b) _ (0 ∷ b.index / 256 ∷ b.index % 256 ∷ [])
        (id_to_bytes-id_bytes u b h)

  pub images-HasBytes :
      (image : BootImage) (images : List BootImage)
      → All IsImage (image ∷ images)
      → HasBytes (images_to_bytes u (image ∷ images))
  images-HasBytes image images v =
      elements-HasBytes (images_to_bytes u (image ∷ images)) _ _
        (images_to_bytes-encoding u (image ∷ images) v)

  parsed-found :
      (m : Options) (c : ℕ) (v : Slice) (s : Slice)
      → from_bytes u (elements s) empty ≡ (m, ok tt)
      → m c ≡ some v
      → when_found none (λ bs. parsed_options (from_bytes u bs empty)) s ≡ some m
  unfolding from_bytes from_bytes_check_end
  parsed-found m c v none h at_c = cc (ap (λ t. t.0 c) h ∙ at_c)
  parsed-found m c v (some bs) h at_c = ap parsed_options h

  -- The vendor options of a packet are those that were put into it, if the wire can carry them and
  -- there are any.
  pub get_vendor_options-update :
      (m : Options) (c : ℕ) (v : Slice) (o : Options)
      → IsCarried m
      → m c ≡ some v
      → get_vendor_options u (update option_vendor_specific_information (to_bytes u m) o) ≡ some m
  unfolding get_vendor_options get update
  get_vendor_options-update m c v o carried at_c =
      parsed-found m c v (to_bytes u m) (from_bytes_unended u m carried) at_c

  pub message_type_from_bytes-byte :
      (t : ℕ) → or_else message_type_none (message_type_from_bytes u (t ∷ [])) ≡ t
  unfolding message_type_from_bytes
  message_type_from_bytes-byte t =
      rw (u.new_law (t ∷ []), u.read8_cons t [] false, u.fin_failed_law [] false) refl

  pub selected-id :
      (s : Slice) (b : BootImageId)
      → IsId b
      → s ≡ id_to_bytes u b
      → when_found none (λ v. or_nil (id_from_bytes u v)) s ≡ some b
  selected-id s b h same = rw same (
      value_found none (λ v. or_nil (id_from_bytes u v)) (id_to_bytes u b) (some b)
        (ap or_nil (id_from_bytes-id_to_bytes u b h)) (id-HasBytes b h))

  pub boot_image_list-images :
      (v : Options) (image : BootImage) (images : List BootImage)
      → All IsImage (image ∷ images)
      → get 9 v ≡ images_to_bytes u (image ∷ images)
      → boot_image_list u v ≡ image ∷ images
  unfolding boot_image_list
  boot_image_list-images v image images valid h = rw h (
      value_found [] (λ bs. or_else [] (images_from_bytes u bs))
        (images_to_bytes u (image ∷ images)) (image ∷ images)
        (ap (or_else []) (images_from_bytes-images_to_bytes u (image ∷ images) valid))
        (images-HasBytes image images valid))
