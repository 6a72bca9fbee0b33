-- ===== src/Tests/Values.antt =====
-- dhcpv4/option_*.go and iana/archtype.go at concrete values.
use dhcp.Prelude.{◌≡◌, refl, [], ◌∷◌, some, Bytes, Slice, ok, List}
use dhcp.Uio.Listed.{listed}
use dhcp.Uio.Items.{each}
use dhcp.Dhcpv4.Values.{strings_from_bytes, ips_from_bytes, read_string, read_ip}

abbrev two_classes : List Bytes
two_classes = (97 ∷ []) ∷ (98 ∷ 99 ∷ []) ∷ []

classes_read : strings_from_bytes listed (1 ∷ 97 ∷ 2 ∷ 98 ∷ 99 ∷ []) ≡ ok two_classes
unfolding strings_from_bytes read_string each
classes_read = refl

abbrev an_ip : Slice
an_ip = some (10 ∷ 0 ∷ 0 ∷ 1 ∷ [])

ip_read : ips_from_bytes listed (10 ∷ 0 ∷ 0 ∷ 1 ∷ []) ≡ ok (an_ip ∷ [])
unfolding ips_from_bytes read_ip each
ip_read = refl
