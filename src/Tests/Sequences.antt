-- ===== src/Tests/Sequences.antt =====
-- dhcpv6/duid.go and dhcpv6/options.go at concrete values.
use dhcp.Prelude.{some, ◌≡◌, refl, [], ◌∷◌, Bytes, elements, ok, arith, List, All, IsByte, length}
use dhcp.Uio.Listed.{listed}
use dhcp.Dhcpv6.Duid
use dhcp.Dhcpv6.Duid.{
  Duid, no_fields, duid_from_bytes, wire_length, uint16_at, fields_from_bytes, slice_from,
}
use dhcp.Dhcpv6.Duid.RoundTrip.{IsDuid, llt, duid_from_bytes-to_bytes, length-to_bytes}
use dhcp.Dhcpv6.Options
use dhcp.Dhcpv6.Options.{get, get_one, add, del, update, from_bytes_with_parser, read_option}
use dhcp.Uio.Items.{each}
use dhcp.Dhcpv6.Options.Generic.{OptionGeneric, generic, generic-IsCodec}
use dhcp.Dhcpv6.Options.RoundTrip.{from_bytes_with_parser-to_bytes}

abbrev a_duid : Duid
a_duid = record (no_fields 1) {
  hw_type = 1;
  time = 100000;
  link_layer_addr = some (6 ∷ 5 ∷ 4 ∷ []);
}

a_duid-IsDuid : IsDuid a_duid
a_duid-IsDuid = llt 1 100000 (6 ∷ 5 ∷ 4 ∷ []) (omega arith) (omega arith)

duid_from_bytes-to_bytes_example : duid_from_bytes (Duid.to_bytes a_duid) ≡ ok a_duid
duid_from_bytes-to_bytes_example = duid_from_bytes-to_bytes a_duid a_duid-IsDuid

length-to_bytes_example : length (Duid.to_bytes a_duid) ≡ wire_length a_duid
length-to_bytes_example = length-to_bytes a_duid a_duid-IsDuid

link_layer_read :
    duid_from_bytes (0 ∷ 3 ∷ 0 ∷ 1 ∷ 9 ∷ [])
    ≡ ok (record (no_fields 3) { hw_type = 1; link_layer_addr = some (9 ∷ []) })
unfolding duid_from_bytes fields_from_bytes uint16_at slice_from
link_layer_read = refl

abbrev elapsed : OptionGeneric
elapsed = record { option_code = 8; option_data = 0 ∷ 1 ∷ [] }

abbrev later : OptionGeneric
later = record { option_code = 8; option_data = 0 ∷ 2 ∷ [] }

abbrev requested : OptionGeneric
requested = record { option_code = 6; option_data = [] }

abbrev two_options : List OptionGeneric
two_options = elapsed ∷ requested ∷ []

two_options-IsValid : All generic-IsCodec.IsValid two_options
unfolding generic-IsCodec
two_options-IsValid = ((omega arith, omega arith), ((omega arith, omega arith), tt))

from_bytes_with_parser-to_bytes_example :
    from_bytes_with_parser generic listed (elements (Options.to_bytes generic listed two_options))
    ≡ ok two_options
from_bytes_with_parser-to_bytes_example =
    from_bytes_with_parser-to_bytes listed generic generic-IsCodec two_options two_options-IsValid

abbrev two_options_bytes : Bytes
two_options_bytes = 0 ∷ 8 ∷ 0 ∷ 2 ∷ 0 ∷ 1 ∷ 0 ∷ 6 ∷ 0 ∷ 0 ∷ []

two_options_bytes-IsByte : All IsByte two_options_bytes
two_options_bytes-IsByte = (
  omega arith,
  (
    omega arith,
    (
      omega arith,
      (
        omega arith,
        (
          omega arith,
          (omega arith, (omega arith, (omega arith, (omega arith, (omega arith, tt))))),
        ),
      ),
    ),
  ),
)

two_options_read : from_bytes_with_parser generic listed two_options_bytes ≡ ok two_options
unfolding from_bytes_with_parser read_option generic each
two_options_read = refl
