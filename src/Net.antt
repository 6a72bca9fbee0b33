-- ===== src/Net.antt =====
-- What the repository uses of `net.IP`, a slice of 4 or 16 bytes or `nil`, of Go's standard library.
use dhcp.Prelude.{
  Bool, false, ◌&&◌, ◌||◌, [], ◌∷◌, ◌++◌, none, some, ◌==◌, if◌then◌else◌, length, take, drop,
  replicate, Bytes, Slice, elements, equal,
}

-- The first twelve bytes of an IPv4 address in sixteen bytes.
abbrev pub v4_prefix : Bytes
v4_prefix = 0 ∷ 0 ∷ 0 ∷ 0 ∷ 0 ∷ 0 ∷ 0 ∷ 0 ∷ 0 ∷ 0 ∷ 255 ∷ 255 ∷ []

-- `ip.To4()`
unfoldable pub to4 : Slice → Slice
to4 none = none
to4 (some ip) =
    if length ip == 4
    then some ip
    else if length ip == 16 && equal (take 12 ip) v4_prefix
    then some (drop 12 ip)
    else none

-- `ip.To16()`
unfoldable pub to16 : Slice → Slice
to16 none = none
to16 (some ip) =
    if length ip == 4 then some (v4_prefix ++ ip) else if length ip == 16 then some ip else none

-- `net.IPv4zero`, which is 16 bytes long.
abbrev pub ipv4_zero : Slice
ipv4_zero = some (v4_prefix ++ 0 ∷ 0 ∷ 0 ∷ 0 ∷ [])

-- `ip.IsUnspecified()`: 0.0.0.0 in either form, or `::`.
unfoldable pub is_unspecified : Slice → Bool
is_unspecified ip =
    equal (elements ip) (replicate 4 0)
    || equal (elements ip) (v4_prefix ++ replicate 4 0)
    || equal (elements ip) (replicate 16 0)

-- `ip4[0] == 127` for an address that has four bytes, and else `ip.Equal(IPv6loopback)`.
abbrev pub loopback_of : Slice → Slice → Bool
loopback_of ip none = equal (elements ip) (replicate 15 0 ++ 1 ∷ [])
loopback_of ip (some []) = false
loopback_of ip (some (a ∷ rest)) = a == 127

-- `ip.IsLoopback()`
unfoldable pub is_loopback : Slice → Bool
is_loopback ip = loopback_of ip (to4 ip)
