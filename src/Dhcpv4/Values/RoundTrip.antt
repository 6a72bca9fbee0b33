-- ===== src/Dhcpv4/Values/RoundTrip.antt =====
-- The codecs of dhcpv4/option_*.go and iana/archtype.go, both ways.
use dhcp.Prelude.{
  ℕ, ◌≡◌, ◌≢◌, refl, sym, ◌∙◌, false, List, [], ◌∷◌, ◌++◌, some, none, ◌==◌, if◌then◌else◌, Bytes,
  Slice, elements, Result, ok, err, arith, All, IsByte,
}
use dhcp.Uio.{Uio}
use dhcp.Uio.Items.{encoding}
use dhcp.Uio.Items.Codec.{parse_items-print_items, parse_items_sound, print_items-encoding}
use dhcp.Dhcpv4.Values.{
  Error, unread, ips_from_bytes, ips_to_bytes, strings_from_bytes, strings_to_bytes,
  codes_from_bytes, codes_to_bytes, archs_from_bytes, archs_to_bytes,
}
use dhcp.Dhcpv4.Values.Items.{IsIpv4, IsWord, ip_item, ip-Sound, code_item, arch_item, word_bytes}
use dhcp.Dhcpv4.Values.Strings.{IsShortString, string_item, string-Sound, string_bytes}

module _ (u : Uio) where
  -- Option codes of one byte are read back in their order.
  pub codes_from_bytes-codes_to_bytes :
      (ol : List ℕ) → All IsByte ol → codes_from_bytes u (elements (codes_to_bytes u ol)) ≡ ok ol
  unfolding codes_from_bytes codes_to_bytes
  codes_from_bytes-codes_to_bytes ol v = parse_items-print_items u (code_item u) unread ol v

  -- The test on an empty option value.
  nonempty :
      {A : Type 0} (e : Error) (bs : Bytes) (r : Result Error A)
      → bs ≢ []
      → (if u.len (u.new bs) == 0 then err e else r) ≡ r
  nonempty e [] r h = absurd (h refl)
  nonempty e (b ∷ bs) r h = rw (u.new_law (b ∷ bs), u.len_law (b ∷ bs) false) (ground arith)

  nonempty_ok :
      {A : Type 0} (e : Error) (bs : Bytes) (r : Result Error A) {a : A}
      → (if u.len (u.new bs) == 0 then err e else r) ≡ ok a
      → (bs ≢ []) × (r ≡ ok a)
  nonempty_ok e [] r h = cc (u.len_law [] false, u.new_law [])
  nonempty_ok e (b ∷ bs) r h = ((λ p. cc), sym (nonempty e (b ∷ bs) r (λ p. cc)) ∙ h)

  list_ne-nil :
      {A : Type 0} (bs : Bytes) (enc : A → Bytes) (xs : List A)
      → bs ≢ []
      → bs ≡ encoding enc xs
      → xs ≢ []
  list_ne-nil bs enc [] h e = λ p. h e
  list_ne-nil bs enc (x ∷ xs) h e = λ p. cc

  encoding_ne-nil :
      {A : Type 0} (enc : A → Bytes) (xs : List A)
      → ((x : A) → enc x ≢ [])
      → xs ≢ []
      → encoding enc xs ≢ []
  encoding_ne-nil enc [] h k = λ p. k refl
  encoding_ne-nil enc (x ∷ xs) h k = go (enc x) (h x)
    where
      go : (bs : Bytes) → bs ≢ [] → bs ++ encoding enc xs ≢ []
      go [] n = absurd (n refl)
      go (b ∷ bs) n = λ p. cc

  -- Strings of 1 to 255 bytes, at least one, are read back.
  pub strings_from_bytes-strings_to_bytes :
      (o : List Bytes)
      → o ≢ []
      → All IsShortString o
      → strings_from_bytes u (elements (strings_to_bytes u o)) ≡ ok o
  unfolding strings_from_bytes strings_to_bytes
  strings_from_bytes-strings_to_bytes o h v =
      nonempty Error.no_items _ _ (
        rw (print_items-encoding u (string_item u) unread o v)
          (encoding_ne-nil string_bytes o (λ s p. cc) h))
      ∙ parse_items-print_items u (string_item u) unread o v

  -- What is read as strings is at least one string of 1 to 255 bytes, and their bytes.
  pub strings_from_bytes_sound :
      (bs : Bytes) (o : List Bytes)
      → All IsByte bs
      → strings_from_bytes u bs ≡ ok o
      → (o ≢ []) × All IsShortString o × (elements (strings_to_bytes u o) ≡ bs)
  unfolding strings_from_bytes strings_to_bytes
  strings_from_bytes_sound bs o byte h =
      let (set, parsed) = nonempty_ok Error.no_items bs _ h in
      let (e, v) = parse_items_sound u (string_item u) unread (string-Sound u) bs o byte parsed in
      (
        list_ne-nil bs string_bytes o set e,
        v,
        print_items-encoding u (string_item u) unread o v ∙ sym e,
      )

  -- Four-byte addresses, at least one, are read back.
  pub ips_from_bytes-ips_to_bytes :
      (ips : List Slice)
      → ips ≢ []
      → All IsIpv4 ips
      → ips_from_bytes u (elements (ips_to_bytes u ips)) ≡ ok ips
  unfolding ips_from_bytes ips_to_bytes
  ips_from_bytes-ips_to_bytes ips h v =
      nonempty Error.no_items _ _
        (rw (print_items-encoding u (ip_item u) unread ips v) (go ips h v))
      ∙ parse_items-print_items u (ip_item u) unread ips v
    where
      go : (ips : List Slice) → ips ≢ [] → All IsIpv4 ips → encoding elements ips ≢ []
      go [] h v = absurd (h refl)
      go (none ∷ ips) h v = absurd v.0
      go (some [] ∷ ips) h v = absurd (omega (arith, v.0))
      go (some (b ∷ ip) ∷ ips) h v = λ p. cc

  -- What is read as addresses is at least one address of four bytes, and their bytes.
  pub ips_from_bytes_sound :
      (bs : Bytes) (ips : List Slice)
      → All IsByte bs
      → ips_from_bytes u bs ≡ ok ips
      → (ips ≢ []) × All IsIpv4 ips × (elements (ips_to_bytes u ips) ≡ bs)
  unfolding ips_from_bytes ips_to_bytes
  ips_from_bytes_sound bs ips byte h =
      let (set, parsed) = nonempty_ok Error.no_items bs _ h in
      let (e, v) = parse_items_sound u (ip_item u) unread (ip-Sound u) bs ips byte parsed in
      (
        list_ne-nil bs elements ips set e,
        v,
        print_items-encoding u (ip_item u) unread ips v ∙ sym e,
      )

  -- Architectures, at least one, are read back.
  pub archs_from_bytes-archs_to_bytes :
      (a : List ℕ)
      → a ≢ []
      → All IsWord a
      → archs_from_bytes u (elements (archs_to_bytes u a)) ≡ ok a
  unfolding archs_from_bytes archs_to_bytes
  archs_from_bytes-archs_to_bytes a h v =
      nonempty Error.no_items _ _ (
        rw (print_items-encoding u (arch_item u) unread a v)
          (encoding_ne-nil word_bytes a (λ s p. cc) h))
      ∙ parse_items-print_items u (arch_item u) unread a v
