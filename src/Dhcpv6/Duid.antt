-- ===== src/Dhcpv6/Duid.antt =====
-- dhcpv6/duid.go: the DHCP unique identifier and its codec.
pub mod RoundTrip
pub mod Sound
pub mod Termination
use dhcp.Prelude.{
  ℕ, ◌+◌, ◌*◌, ◌/◌, ◌%◌, ◌≡◌, Bool, true, false, ◌&&◌, not, ◌||◌, [], ◌∷◌, ◌++◌, ◌==◌, ltb,
  if◌then◌else◌, length, Bytes, Slice, elements, some, none, Result, ok, err, fault, panic, ◌>>=◌,
  equal, zero, suc,
}

-- The fields that a type of DUID does not use are zero, empty or `nil`. Where the field is of type
-- `Bytes`, a `nil` slice and an empty one are the same to every operation on it.
pub record Duid : Type 0 where
  pub duid_type : ℕ
  pub hw_type : ℕ
  pub time : ℕ
  pub link_layer_addr : Slice
  pub enterprise_number : ℕ
  pub enterprise_identifier : Bytes
  pub uuid : Bytes
  pub opaque : Bytes

pub data Error : Type 0 where
  too_short short_llt short_ll short_en uuid_length : Error

abbrev pub duid_llt : ℕ
duid_llt = 1

abbrev pub duid_en : ℕ
duid_en = 2

abbrev pub duid_ll : ℕ
duid_ll = 3

abbrev pub duid_uuid : ℕ
duid_uuid = 4

-- `Length`.
unfoldable pub wire_length : Duid → ℕ
wire_length d =
    if d.duid_type == duid_llt
    then 8 + length (elements d.link_layer_addr)
    else if d.duid_type == duid_ll
    then 4 + length (elements d.link_layer_addr)
    else if d.duid_type == duid_en
    then 6 + length d.enterprise_identifier
    else if d.duid_type == duid_uuid
    then 18
    else 2 + length d.opaque

-- `Equal`.
unfoldable pub same : Duid → Duid → Bool
same d o =
    if not (d.duid_type == o.duid_type)
      || not (d.hw_type == o.hw_type)
      || not (d.time == o.time)
      || not (equal (elements d.link_layer_addr) (elements o.link_layer_addr))
      || not (d.enterprise_number == o.enterprise_number)
      || not (equal d.enterprise_identifier o.enterprise_identifier)
      || not (equal d.uuid o.uuid)
      || not (equal d.opaque o.opaque)
    then false
    else true

-- `binary.BigEndian.PutUint16` and `PutUint32`.
unfoldable pub put16 : ℕ → Bytes
put16 v = v / 256 % 256 ∷ v % 256 ∷ []

unfoldable pub put32 : ℕ → Bytes
put32 v = v / 16777216 % 256 ∷ v / 65536 % 256 ∷ v / 256 % 256 ∷ v % 256 ∷ []

-- `binary.BigEndian.Uint16(data[i:i+2])` and `Uint32(data[i:i+4])`. A slice beyond the bytes panics:
-- their capacity is taken to be their length.
unfoldable pub uint16_at : ℕ → Bytes → Result Error ℕ
uint16_at zero (a ∷ b ∷ bs) = ok (a * 256 + b)
uint16_at (suc i) (a ∷ bs) = uint16_at i bs
uint16_at _ _ = fault panic

unfoldable pub uint32_at : ℕ → Bytes → Result Error ℕ
uint32_at zero (a ∷ b ∷ c ∷ d ∷ bs) = ok (a * 16777216 + b * 65536 + c * 256 + d)
uint32_at (suc i) (a ∷ bs) = uint32_at i bs
uint32_at _ _ = fault panic

-- `data[i:]`.
unfoldable pub slice_from : ℕ → Bytes → Result Error Bytes
slice_from zero bs = ok bs
slice_from (suc i) (a ∷ bs) = slice_from i bs
slice_from (suc i) [] = fault panic

-- `data[:n]`.
unfoldable pub slice_to : ℕ → Bytes → Result Error Bytes
slice_to zero bs = ok []
slice_to (suc n) (a ∷ bs) = slice_to n bs >>= λ rest. ok (a ∷ rest)
slice_to (suc n) [] = fault panic

unfoldable pub to_bytes : Duid → Bytes
to_bytes d =
    if d.duid_type == duid_llt
    then put16 d.duid_type ++ put16 d.hw_type ++ put32 d.time ++ elements d.link_layer_addr
    else if d.duid_type == duid_ll
    then put16 d.duid_type ++ put16 d.hw_type ++ elements d.link_layer_addr
    else if d.duid_type == duid_en
    then put16 d.duid_type ++ put32 d.enterprise_number ++ d.enterprise_identifier
    else if d.duid_type == duid_uuid
    then put16 d.duid_type ++ d.uuid
    else put16 d.duid_type ++ d.opaque

abbrev pub no_fields : ℕ → Duid
no_fields t = record {
  duid_type = t;
  hw_type = 0;
  time = 0;
  link_layer_addr = none;
  enterprise_number = 0;
  enterprise_identifier = [];
  uuid = [];
  opaque = [];
}

-- `DuidFromBytes`, when the type is read.
unfoldable pub fields_from_bytes : ℕ → Bytes → Result Error Duid
fields_from_bytes t bs =
    let n = length bs in
    let d = no_fields t in
    if t == duid_llt
    then (if ltb n 8 then err short_llt else do
      hw ← uint16_at 2 bs
      time ← uint32_at 4 bs
      addr ← slice_from 8 bs
      ok (record d { hw_type = hw; time = time; link_layer_addr = some addr }))
    else if t == duid_ll
    then (if ltb n 4 then err short_ll else do
      hw ← uint16_at 2 bs
      addr ← slice_from 4 bs
      ok (record d { hw_type = hw; link_layer_addr = some addr }))
    else if t == duid_en
    then (if ltb n 6 then err short_en else do
      number ← uint32_at 2 bs
      identifier ← slice_from 6 bs
      ok (record d { enterprise_number = number; enterprise_identifier = identifier }))
    else if t == duid_uuid
    then (if not (n == 18)
        then err uuid_length
        else do rest ← slice_from 2 bs; uuid ← slice_to 16 rest; ok (record d { uuid = uuid }))
    else do rest ← slice_from 2 bs; ok (record d { opaque = rest })

-- `DuidFromBytes`.
unfoldable pub duid_from_bytes : Bytes → Result Error Duid
duid_from_bytes bs =
    if ltb (length bs) 2 then err too_short else uint16_at 0 bs >>= λ t. fields_from_bytes t bs
