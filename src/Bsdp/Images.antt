-- ===== src/Bsdp/Images.antt =====
-- dhcpv4/bsdp/boot_image.go and bsdp_option_boot_image_list.go: boot images on the wire.
use Prim.Native.Nat.{bit_and, bit_or}
use dhcp.Prelude.{
  ℕ, zero, suc, ◌+◌, ◌*◌, ◌/◌, ◌%◌, ◌≡◌, ◌≢◌, ◌<◌, ◌≤◌, refl, ap, ◌∙◌, Bool, true, false, not, List,
  [], ◌∷◌, ◌++◌, ◌==◌, leb, if◌then◌else◌, length, take, drop, Bytes, elements, All, ok, err, fault,
  Fault, ◌>>=◌, arith, Bool-cases, inl, inr, le→leb, lt→leb, append-nil, append_assoc,
  length-append, length-drop, take-length-append, drop-length-append, agree_below, agree,
  >>=-ne-fault,
}
use dhcp.Uio.{Uio}
use dhcp.Uio.Items.{each, write_each, encoding}
use dhcp.Bsdp.{
  Error, unread, BootImageId, BootImage, byte0, marshal_id, unmarshal_id, id_to_bytes,
  id_from_bytes, marshal, unmarshal, images_from_bytes, images_to_bytes,
}

-- The highest bit is taken for installable images, which leaves 7 bits for the type.
abbrev pub IsId : BootImageId → Type 0
IsId b = (b.image_type < 128) × (b.index < 65536)

abbrev pub IsImage : BootImage → Type 0
IsImage b = IsId b.id × (length b.name < 256)

abbrev pub id_bytes : BootImageId → Bytes
id_bytes b = byte0 b ∷ 0 ∷ b.index / 256 ∷ b.index % 256 ∷ []

abbrev pub image_bytes : BootImage → Bytes
image_bytes b = id_bytes b.id ++ length b.name ∷ b.name

-- The identifier that four bytes are read as.
abbrev read_id : ℕ → ℕ → ℕ → BootImageId
read_id first high low = record {
  is_install = not (bit_and first 0x80 == 0);
  image_type = bit_and first 0x7f;
  index = high * 256 + low;
}

installable : (t : ℕ) → t < 128 → bit_or 128 t ≡ 128 + t
unfolding agree
installable t h = agree_below 128 (λ i. bit_or 128 i) (λ i. 128 + i) t refl h

high_bit : (t : ℕ) → t < 128 → bit_and (128 + t) 0x80 ≡ 128
unfolding agree
high_bit t h = agree_below 128 (λ i. bit_and (128 + i) 0x80) (λ i. 128) t refl h

low_bits : (t : ℕ) → t < 128 → bit_and (128 + t) 0x7f ≡ t
unfolding agree
low_bits t h = agree_below 128 (λ i. bit_and (128 + i) 0x7f) (λ i. i) t refl h

not_installable : (t : ℕ) → t < 128 → bit_or 0 t ≡ t
unfolding agree
not_installable t h = agree_below 128 (λ i. bit_or 0 i) (λ i. i) t refl h

no_high_bit : (t : ℕ) → t < 128 → bit_and t 0x80 ≡ 0
unfolding agree
no_high_bit t h = agree_below 128 (λ i. bit_and i 0x80) (λ i. 0) t refl h

all_low_bits : (t : ℕ) → t < 128 → bit_and t 0x7f ≡ t
unfolding agree
all_low_bits t h = agree_below 128 (λ i. bit_and i 0x7f) (λ i. i) t refl h

byte0-lt : (b : BootImageId) → IsId b → byte0 b < 256
byte0-lt b h = go b.is_install
  where
    go : (i : Bool) → bit_or (if i then bit_or 0 0x80 else 0) b.image_type < 256
    go true = omega (arith, installable b.image_type h.0)
    go false = omega (arith, not_installable b.image_type h.0)

read_id-id_bytes :
    (b : BootImageId) → IsId b → read_id (byte0 b) (b.index / 256) (b.index % 256) ≡ b
read_id-id_bytes b h = go b.is_install
  where
    whole : b.index / 256 * 256 + b.index % 256 ≡ b.index
    whole = omega arith

    go :
        (i : Bool)
        → read_id
            (bit_or (if i then bit_or 0 0x80 else 0) b.image_type)
            (b.index / 256)
            (b.index % 256)
          ≡ record { is_install = i; image_type = b.image_type; index = b.index }
    go true =
        rw (installable b.image_type h.0, high_bit b.image_type h.0, low_bits b.image_type h.0)
          (λ k. record { is_install = true; image_type = b.image_type; index = whole k })
    go false =
        rw
          (
            not_installable b.image_type h.0,
            no_high_bit b.image_type h.0,
            all_low_bits b.image_type h.0,
          )
          (λ k. record { is_install = false; image_type = b.image_type; index = whole k })

module _ (u : Uio) where
  open u use {Lexer, holds}

  unmarshal_id_cons :
      (a b c d : ℕ) (bs : Bytes)
      → unmarshal_id u (holds (a ∷ b ∷ c ∷ d ∷ bs) false) ≡ ok (read_id a c d, holds bs false)
  unfolding unmarshal_id
  unmarshal_id_cons a b c d bs =
      rw
        (
          u.read8_cons a (b ∷ c ∷ d ∷ bs) false,
          u.read8_cons b (c ∷ d ∷ bs) false,
          u.read16_cons c d bs false,
          u.failed_law bs false,
        )
        refl

  -- An image takes five bytes and its name.
  unmarshal_cons :
      (a b c d n : ℕ) (bs : Bytes)
      → unmarshal u (holds (a ∷ b ∷ c ∷ d ∷ n ∷ bs) false) ≡ (
          if leb n (length bs)
          then ok (record { id = read_id a c d; name = take n bs }, holds (drop n bs) false)
          else err unread)
  unfolding unmarshal
  unmarshal_cons a b c d n bs = elim (Bool-cases (leb n (length bs))) [
    | inl fits ↦
        rw
          (
            unmarshal_id_cons a b c d (n ∷ bs),
            u.read8_cons n bs false,
            u.consume_law n bs false,
            fits,
            u.failed_law (drop n bs) false,
          )
          refl
    | inr long ↦
        rw
          (
            unmarshal_id_cons a b c d (n ∷ bs),
            u.read8_cons n bs false,
            u.consume_law n bs false,
            long,
            u.failed_law bs true,
          )
          refl
  ]

  unmarshal-image_bytes :
      (b : BootImage) (bs : Bytes)
      → IsImage b
      → unmarshal u (holds (image_bytes b ++ bs) false) ≡ ok (b, holds bs false)
  unmarshal-image_bytes b bs h =
      unmarshal_cons (byte0 b.id) 0 (b.id.index / 256) (b.id.index % 256) (length b.name)
        (b.name ++ bs)
      ∙ rw
          (
            le→leb (length b.name) (length (b.name ++ bs)) (omega (arith, length-append b.name bs)),
            take-length-append b.name bs,
            drop-length-append b.name bs,
          )
          (ap (λ i. ok (record { id = i; name = b.name }, holds bs false))
            (read_id-id_bytes b.id h.0))

  marshal_id-id_bytes :
      (b : BootImageId) (bs : Bytes) (e : Bool)
      → IsId b
      → marshal_id u b (holds bs e) ≡ holds (bs ++ id_bytes b) e
  unfolding marshal_id
  marshal_id-id_bytes b bs e h =
      let first : byte0 b % 256 ≡ byte0 b = omega (arith, byte0-lt b h) in
      let high : b.index / 256 % 256 ≡ b.index / 256 = omega arith in
      ap (λ l. u.write16 b.index (u.write8 0 l)) (u.write8_law (byte0 b) bs e)
      ∙ ap (u.write16 b.index) (u.write8_law 0 (bs ++ byte0 b % 256 ∷ []) e)
      ∙ u.write16_law b.index ((bs ++ byte0 b % 256 ∷ []) ++ 0 ∷ []) e
      ∙ rw (first, high) (simp append_assoc)

  marshal-image_bytes :
      (b : BootImage) (bs : Bytes) (e : Bool)
      → IsImage b
      → marshal u b (holds bs e) ≡ holds (bs ++ image_bytes b) e
  unfolding marshal
  marshal-image_bytes b bs e h =
      let small : length b.name % 256 ≡ length b.name = omega arith in
      ap (λ l. u.write_bytes b.name (u.write8 (length b.name) l))
        (marshal_id-id_bytes b.id bs e h.0)
      ∙ ap (u.write_bytes b.name) (u.write8_law (length b.name) (bs ++ id_bytes b.id) e)
      ∙ u.write_bytes_law b.name ((bs ++ id_bytes b.id) ++ length b.name % 256 ∷ []) e
      ∙ rw small (simp append_assoc)

  -- An identifier that the wire can carry is read back.
  pub id_to_bytes-id_bytes : (b : BootImageId) → IsId b → elements (id_to_bytes u b) ≡ id_bytes b
  unfolding id_to_bytes
  id_to_bytes-id_bytes b h =
      u.to_big_endian_law (marshal_id u b)
      ∙ ap (λ l. elements (u.contents (marshal_id u b l))) (u.new_law [])
      ∙ ap (λ l. elements (u.contents l)) (marshal_id-id_bytes b [] false h)
      ∙ u.contents_law (id_bytes b) false

  pub id_from_bytes-id_to_bytes :
      (b : BootImageId) → IsId b → id_from_bytes u (elements (id_to_bytes u b)) ≡ ok b
  unfolding id_from_bytes
  id_from_bytes-id_to_bytes b h =
      ap (λ bs. u.from_big_endian Error BootImageId (unmarshal_id u) bs) (id_to_bytes-id_bytes b h)
      ∙ u.from_big_endian_ok Error BootImageId (unmarshal_id u) (id_bytes b) b (
          unmarshal_id_cons (byte0 b) 0 (b.index / 256) (b.index % 256) []
          ∙ ap (λ i. ok (i, holds [] false)) (read_id-id_bytes b h))

  each_done :
      (f : ℕ) (acc : List BootImage) (bs : Bytes)
      → length bs < 5
      → each u 5 (unmarshal u) (suc f) acc (holds bs false) ≡ ok (acc, holds bs false)
  unfolding each
  each_done f acc bs h = rw (u.has_law bs false 5, lt→leb 5 (length bs) h) refl

  each_more :
      (f : ℕ) (acc : List BootImage) (bs : Bytes)
      → 5 ≤ length bs
      → each u 5 (unmarshal u) (suc f) acc (holds bs false)
        ≡ (unmarshal u (holds bs false) >>= λ r. each u 5 (unmarshal u) f (acc ++ r.0 ∷ []) r.1)
  unfolding each
  each_more f acc bs h = rw (u.has_law bs false 5, le→leb 5 (length bs) h) refl

  each-encoding_images :
      (f : ℕ) (acc images : List BootImage)
      → All IsImage images
      → length (encoding image_bytes images) < f
      → each u 5 (unmarshal u) f acc (holds (encoding image_bytes images) false)
        ≡ ok (acc ++ images, holds [] false)
  each-encoding_images zero acc images v h = absurd (omega arith)
  each-encoding_images (suc f) acc [] v h = rw append-nil (each_done f acc [] (omega arith))
  each-encoding_images (suc f) acc (b ∷ images) v h =
      let rest = encoding image_bytes images in
      let longer = length-append (image_bytes b) rest in
      each_more f acc (image_bytes b ++ rest) (omega arith)
      ∙ rw (unmarshal-image_bytes b rest v.0)
          (each-encoding_images f (acc ++ b ∷ []) images v.1 (omega arith) ∙ rw append_assoc refl)

  write_each-images :
      (images : List BootImage) (bs : Bytes) (e : Bool)
      → All IsImage images
      → write_each u (marshal u) images (holds bs e) ≡ holds (bs ++ encoding image_bytes images) e
  unfolding write_each
  write_each-images [] bs e v = rw append-nil refl
  write_each-images (b ∷ images) bs e v =
      ap (write_each u (marshal u) images) (marshal-image_bytes b bs e v.0)
      ∙ write_each-images images (bs ++ image_bytes b) e v.1
      ∙ rw append_assoc refl

  pub images_to_bytes-encoding :
      (images : List BootImage)
      → All IsImage images
      → elements (images_to_bytes u images) ≡ encoding image_bytes images
  unfolding images_to_bytes
  images_to_bytes-encoding images v =
      ap (λ l. elements (u.contents (write_each u (marshal u) images l))) (u.new_law [])
      ∙ ap (λ l. elements (u.contents l)) (write_each-images images [] false v)
      ∙ u.contents_law (encoding image_bytes images) false

  -- A list of boot images that the wire can carry is read back.
  pub images_from_bytes-images_to_bytes :
      (images : List BootImage)
      → All IsImage images
      → images_from_bytes u (elements (images_to_bytes u images)) ≡ ok images
  unfolding images_from_bytes
  images_from_bytes-images_to_bytes images v =
      let bs = encoding image_bytes images in
      rw
        (
          images_to_bytes-encoding images v,
          u.new_law bs,
          each-encoding_images (suc (length bs)) [] images v (omega arith),
        )
        refl

  each_ends :
      (f : ℕ) (acc : List BootImage) (bs : Bytes) (x : Fault)
      → length bs < f
      → each u 5 (unmarshal u) f acc (holds bs false) ≢ fault x
  each_ends zero acc bs x h = absurd (omega arith)
  each_ends (suc f) acc (a ∷ b ∷ c ∷ d ∷ n ∷ bs) x h =
      rw (each_more f acc (a ∷ b ∷ c ∷ d ∷ n ∷ bs) (omega arith), unmarshal_cons a b c d n bs)
        (elim (Bool-cases (leb n (length bs))) [
          | inl fits ↦
              let image : BootImage = record { id = read_id a c d; name = take n bs } in
              rw fits
                (each_ends f (acc ++ image ∷ []) (drop n bs) x (omega (arith, length-drop n bs)))
          | inr long ↦ rw long (λ p. cc)
        ])
  each_ends (suc f) acc [] x h = rw (each_done f acc [] (omega arith)) (λ p. cc)
  each_ends (suc f) acc (a ∷ []) x h = rw (each_done f acc (a ∷ []) (omega arith)) (λ p. cc)
  each_ends (suc f) acc (a ∷ b ∷ []) x h = rw (each_done f acc (a ∷ b ∷ []) (omega arith)) (λ p. cc)
  each_ends (suc f) acc (a ∷ b ∷ c ∷ []) x h =
      rw (each_done f acc (a ∷ b ∷ c ∷ []) (omega arith)) (λ p. cc)
  each_ends (suc f) acc (a ∷ b ∷ c ∷ d ∷ []) x h =
      rw (each_done f acc (a ∷ b ∷ c ∷ d ∷ []) (omega arith)) (λ p. cc)

  -- Reading a list of boot images ends on every input, and without a panic.
  pub images_from_bytes-ne-fault : (bs : Bytes) (x : Fault) → images_from_bytes u bs ≢ fault x
  unfolding images_from_bytes
  images_from_bytes-ne-fault bs x = rw (u.new_law bs) (
      >>=-ne-fault (each u 5 (unmarshal u) (suc (length bs)) [] (holds bs false)) (λ r. ok r.0) x
        (λ y. each_ends (suc (length bs)) [] bs y (omega arith)) (λ r p. cc))
