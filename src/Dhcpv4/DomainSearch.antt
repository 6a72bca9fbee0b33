-- ===== src/Dhcpv4/DomainSearch.antt =====
-- The domain search list of a DHCPv4 packet: dhcpv4/option_domain_search.go, and its getter and its
-- modifier in dhcpv4/dhcpv4.go and dhcpv4/modifiers.go.
use dhcp.Prelude.{
  ℕ, ◌≡◌, refl, List, ◌∷◌, Option, none, some, Bytes, Slice, Result, ok, err, fault, All, ap, ◌∙◌,
}
use dhcp.Dhcpv4.Options.{get, update}
use dhcp.Dhcpv4.Codes.{option_dns_domain_search_list}
use dhcp.Dhcpv4.Packet.{Dhcpv4}
use dhcp.Dhcpv4.Getters.{update_option}
use dhcp.Dhcpv4.Modifiers.{Modifier, with_option}
use dhcp.Rfc1035label
use dhcp.Rfc1035label.{Labels, labels_from_bytes, labels_to_bytes, encoded, run}
use dhcp.Rfc1035label.RoundTrip.{IsLabel, labels_from_bytes-labels_to_bytes}

abbrev labels_or_nil : Result Rfc1035label.Error Labels → Option Labels
labels_or_nil (ok l) = some l
labels_or_nil (err _) = none
labels_or_nil (fault _) = none

abbrev parse_or_nil : Slice → Option Labels
parse_or_nil none = none
parse_or_nil (some v) = labels_or_nil (Rfc1035label.from_bytes v)

-- `nil` is `none`.
unfoldable pub domain_search : Dhcpv4 → Option Labels
domain_search d = parse_or_nil (get option_dns_domain_search_list d.options)

unfoldable pub opt_domain_search : Labels → ℕ × Slice
opt_domain_search l = (option_dns_domain_search_list, Rfc1035label.to_bytes l)

unfoldable pub with_domain_search_list : List Bytes → Modifier
unfolding opt_domain_search
with_domain_search_list search_list =
    with_option (opt_domain_search (record { original = none; labels = search_list }))

to_bytes_new :
    (names : List Bytes)
    → Rfc1035label.to_bytes (record { original = none; labels = names }) ≡ encoded names
unfolding Rfc1035label.to_bytes labels_from_bytes run
to_bytes_new names = refl

from_bytes_lem :
    (names : List Bytes)
    → All IsLabel names
    → Rfc1035label.from_bytes (labels_to_bytes names)
      ≡ ok (record { original = some (labels_to_bytes names); labels = names })
unfolding Rfc1035label.from_bytes
from_bytes_lem names v = rw (labels_from_bytes-labels_to_bytes names v) refl

-- After `WithDomainSearchList` of one name or more, `DomainSearch` gives the names, if their parts
-- have 1 to 63 bytes.
pub domain_search-with_domain_search_list :
    (name : Bytes) (names : List Bytes) (d : Dhcpv4)
    → All IsLabel (name ∷ names)
    → domain_search (with_domain_search_list (name ∷ names) d)
      ≡ some (record { original = some (labels_to_bytes (name ∷ names)); labels = name ∷ names })
unfolding domain_search with_domain_search_list update_option update get
domain_search-with_domain_search_list name names d v =
    ap parse_or_nil (to_bytes_new (name ∷ names))
    ∙ ap labels_or_nil (from_bytes_lem (name ∷ names) v)
