-- ===== src/Tests/Labels.antt =====
-- rfc1035label/label.go at concrete names.
use dhcp.Prelude.{
  ap, length, ◌≡◌, ◌≢◌, refl, [], ◌∷◌, some, Bytes, ok, fault, out_of_fuel, arith, List, All,
}
use dhcp.Rfc1035label.{
  Labels, labels_from_bytes, labels_to_bytes, encoded, split_dots, from_bytes, to_bytes, run, step,
  close_label, follow_pointer, take_chunk, byte_at, slice_at,
}
use dhcp.Rfc1035label.Termination.{labels_from_bytes-ne-fault}
use dhcp.Rfc1035label.RoundTrip.{IsLabel, labels_from_bytes-labels_to_bytes, to_bytes-from_bytes}

-- "ab.c" and the root.
abbrev some_names : List Bytes
some_names = (97 ∷ 98 ∷ 46 ∷ 99 ∷ []) ∷ [] ∷ []

some_names-IsLabel : All IsLabel some_names
unfolding split_dots
some_names-IsLabel = (((omega arith, omega arith), ((omega arith, omega arith), tt)), (tt, tt))

labels_from_bytes-labels_to_bytes_example :
    labels_from_bytes (labels_to_bytes some_names) ≡ ok some_names
labels_from_bytes-labels_to_bytes_example =
    labels_from_bytes-labels_to_bytes some_names some_names-IsLabel

-- A pointer to itself.
labels_from_bytes-ne-fault_example : labels_from_bytes (192 ∷ 0 ∷ []) ≢ fault out_of_fuel
labels_from_bytes-ne-fault_example = labels_from_bytes-ne-fault (192 ∷ 0 ∷ []) out_of_fuel

-- "a", and a pointer to it.
abbrev compressed : Bytes
compressed = 1 ∷ 97 ∷ 0 ∷ 192 ∷ 0 ∷ []

abbrev parsed : Labels
parsed = record { original = some compressed; labels = (97 ∷ []) ∷ (97 ∷ []) ∷ [] }

compressed-parsed : from_bytes compressed ≡ ok parsed
unfolding from_bytes labels_from_bytes run step close_label follow_pointer take_chunk byte_at
    slice_at
compressed-parsed = refl

parsed_changed : parsed.labels ≢ (98 ∷ []) ∷ []
parsed_changed p = ground (arith, ap (λ names. length names) p)

to_bytes-from_bytes_example :
    (to_bytes parsed ≡ some compressed)
    × (to_bytes (record parsed { labels = (98 ∷ []) ∷ [] }) ≡ encoded ((98 ∷ []) ∷ []))
to_bytes-from_bytes_example =
    to_bytes-from_bytes compressed parsed ((98 ∷ []) ∷ []) compressed-parsed parsed_changed
