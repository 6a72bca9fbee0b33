-- ===== src/Dhcpv4/Values.antt =====
-- dhcpv4/option_*.go and iana/archtype.go: the values of options and their codecs. Where a
-- `FromBytes` fails, what it left in its receiver is not kept: no caller in the package reads it.
pub mod Codes
pub mod Items
pub mod Strings
pub mod RoundTrip
use dhcp.Prelude.{
  ℕ, zero, suc, ◌+◌, ◌*◌, ◌/◌, ◌%◌, ◌^◌, ◌≡◌, refl, Bool, true, false, not, ◌&&◌, ◌||◌, List, [],
  ◌∷◌, ◌++◌, Option, none, some, leb, ltb, ◌==◌, if◌then◌else◌, length, take, drop, Bytes, Slice,
  elements, Result, ok, err, fault, ◌>>=◌,
}
use dhcp.Net.{to4}
use dhcp.Uio.{Uio}
use dhcp.Uio.Items.{each, write_each, finish}
use dhcp.Dhcpv4.Options.{Options, empty, get, from_bytes, to_bytes, options_from_list}

-- `unread` is an error of `FinError`: bytes are left, or a read has failed.
pub data Error : Type 0 where
  unread no_items zero_length bad_options absent : Error

-- `VIVCIdentifier`
pub record VivcIdentifier : Type 0 where
  pub ent_id : ℕ
  pub content : Slice

-- Durations are in nanoseconds, as `time.Duration` is.
abbrev pub second : ℕ
second = 1000000000

-- `IPMask.ToBytes`
unfoldable pub mask_to_bytes : Slice → Slice
mask_to_bytes none = none
mask_to_bytes (some im) = if ltb 4 (length im) then some (take 4 im) else some im

-- `OptionCodeList.Has` and `Add`. A code is a number: the codes are of the package's own types for
-- DHCPv4 options, and a code of another Go type, which is equal to none of them, is left out.
unfoldable pub codes_has : ℕ → List ℕ → Bool
codes_has c [] = false
codes_has c (code ∷ ol) = code == c || codes_has c ol

unfoldable pub codes_add : List ℕ → List ℕ → List ℕ
unfolding codes_has
codes_add [] ol = ol
codes_add (c ∷ cs) ol = codes_add cs (if not (codes_has c ol) then ol ++ c ∷ [] else ol)

module _ (u : Uio) where
  open u use {Lexer}

  unfoldable pub ip_from_bytes : Bytes → Result Error Slice
  ip_from_bytes bs = let (ip, buf) = u.copy_n 4 (u.new bs) in finish u unread ip buf

  abbrev pub ip_to_bytes : Slice → Slice
  ip_to_bytes = to4

  unfoldable pub read_ip : Lexer → Result Error (Slice × Lexer)
  read_ip buf = ok (u.copy_n 4 buf)

  unfoldable pub write_ip4 : Slice → Lexer → Lexer
  write_ip4 ip buf = u.write_bytes (elements (to4 ip)) buf

  unfoldable pub ips_from_bytes : Bytes → Result Error (List Slice)
  unfolding read_ip
  ips_from_bytes bs =
      let buf = u.new bs in
      let parsed = each u 4 read_ip (suc (length bs)) [] buf >>= λ r. finish u unread r.0 r.1 in
      if u.len buf == 0 then err no_items else parsed

  unfoldable pub ips_to_bytes : List Slice → Slice
  unfolding write_ip4
  ips_to_bytes ips = u.contents (write_each u write_ip4 ips (u.new []))

  -- One round of `Strings.FromBytes`.
  unfoldable pub read_string : Lexer → Result Error (Bytes × Lexer)
  read_string buf =
      let (n, measured) = u.read8 buf in
      let (s, after) = u.copy_n n measured in
      if n == 0 then err zero_length else ok (elements s, after)

  unfoldable pub write_string : Bytes → Lexer → Lexer
  write_string s buf = u.write_bytes s (u.write8 (length s) buf)

  unfoldable pub strings_from_bytes : Bytes → Result Error (List Bytes)
  unfolding read_string
  strings_from_bytes bs =
      let buf = u.new bs in
      let parsed = each u 1 read_string (suc (length bs)) [] buf >>= λ r. finish u unread r.0 r.1 in
      if u.len buf == 0 then err no_items else parsed

  unfoldable pub strings_to_bytes : List Bytes → Slice
  unfolding write_string
  strings_to_bytes o = u.contents (write_each u write_string o (u.new []))

  unfoldable pub read_code : Lexer → Result Error (ℕ × Lexer)
  read_code buf = ok (u.read8 buf)

  unfoldable pub codes_from_bytes : Bytes → Result Error (List ℕ)
  unfolding read_code
  codes_from_bytes bs =
      each u 1 read_code (suc (length bs)) [] (u.new bs) >>= λ r. finish u unread r.0 r.1

  unfoldable pub codes_to_bytes : List ℕ → Slice
  codes_to_bytes ol = u.contents (write_each u u.write8 ol (u.new []))

  unfoldable pub read_arch : Lexer → Result Error (ℕ × Lexer)
  read_arch buf = ok (u.read16 buf)

  unfoldable pub archs_from_bytes : Bytes → Result Error (List ℕ)
  unfolding read_arch
  archs_from_bytes bs =
      let buf = u.new bs in
      let parsed = each u 2 read_arch (suc (length bs)) [] buf >>= λ r. finish u unread r.0 r.1 in
      if u.len buf == 0 then err no_items else parsed

  unfoldable pub archs_to_bytes : List ℕ → Slice
  archs_to_bytes a = u.contents (write_each u u.write16 a (u.new []))

  unfoldable pub read_vivc : Lexer → Result Error (VivcIdentifier × Lexer)
  read_vivc buf =
      let (ent_id, named) = u.read32 buf in
      let (n, measured) = u.read8 named in
      let (d, after) = u.copy_n n measured in ok (record { ent_id = ent_id; content = d }, after)

  unfoldable pub write_vivc : VivcIdentifier → Lexer → Lexer
  write_vivc id buf =
      u.write_bytes (elements id.content)
        (u.write8 (length (elements id.content)) (u.write32 id.ent_id buf))

  unfoldable pub vivc_from_bytes : Bytes → Result Error (List VivcIdentifier)
  unfolding read_vivc
  vivc_from_bytes bs =
      each u 5 read_vivc (suc (length bs)) [] (u.new bs) >>= λ r. finish u unread r.0 r.1

  unfoldable pub vivc_to_bytes : List VivcIdentifier → Slice
  unfolding write_vivc
  vivc_to_bytes ids = u.contents (write_each u write_vivc ids (u.new []))

  -- `Duration(time.Duration(buf.Read32()) * time.Second)`: below 2 ^ 32 seconds it does not wrap.
  unfoldable pub duration_from_bytes : Bytes → Result Error ℕ
  duration_from_bytes bs = let (s, buf) = u.read32 (u.new bs) in finish u unread (s * second) buf

  -- For a duration that is not negative.
  unfoldable pub duration_to_bytes : ℕ → Slice
  duration_to_bytes d = u.contents (u.write32 (d / second % 2 ^ 32) (u.new []))

  unfoldable pub uint16_from_bytes : Bytes → Result Error ℕ
  uint16_from_bytes bs = let (v, buf) = u.read16 (u.new bs) in finish u unread v buf

  unfoldable pub uint16_to_bytes : ℕ → Slice
  uint16_to_bytes v = u.contents (u.write16 v (u.new []))

  unfoldable pub mask_from_bytes : Bytes → Result Error Slice
  mask_from_bytes bs = let (im, buf) = u.copy_n 4 (u.new bs) in finish u unread im buf

  unfoldable pub message_type_from_bytes : Bytes → Result Error ℕ
  message_type_from_bytes bs = let (m, buf) = u.read8 (u.new bs) in finish u unread m buf

  -- `RelayOptions.FromBytes`
  unfoldable pub relay_options_from_bytes : Bytes → Result Error Options
  relay_options_from_bytes bs =
      let (o, result) = from_bytes u bs empty in
      elim result [ ok _ ↦ ok o | err _ ↦ err bad_options | fault x ↦ fault x ]

abbrev pub message_type_to_bytes : ℕ → Slice
message_type_to_bytes m = some (m ∷ [])

-- A caller's `if err := v.FromBytes(data); err != nil { return def }`.
abbrev pub or_default : {A : Type 0} → A → Result Error A → A
or_default def (ok a) = a
or_default def (err _) = def
or_default def (fault _) = def
