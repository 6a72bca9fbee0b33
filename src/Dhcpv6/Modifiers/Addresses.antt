-- ===== src/Dhcpv6/Modifiers/Addresses.antt =====
-- dhcpv6/modifiers.go: the addresses that `WithIANA` adds.
use dhcp.Prelude.{
  ℕ, suc, ◌+◌, ◌≡◌, ap, ◌∙◌, sym, List, [], ◌∷◌, ◌++◌, none, some, length, replicate, ok,
  ok-injective, arith,
}
use dhcp.Uio.{Uio}
use dhcp.Dhcpv6.Options.Lookup.{get_one-update_same}
use dhcp.Dhcpv6.Packet.{Packet, Opt, message, relay, ia_na, of_list, to_list, option_code}
use dhcp.Dhcpv6.Packet.Parse.{kind}
use dhcp.Dhcpv6.Relaying.{get_one_option}
use dhcp.Dhcpv6.Relaying.Layers.{to_list-of_list}
use dhcp.Dhcpv6.Modifiers.{
  IaAddress, address_option, zero_address, pointers, added, with_iana, update_option,
}

pointers-last :
    (n : ℕ) (x a : IaAddress) (addrs : List IaAddress)
    → pointers n x (addrs ++ a ∷ []) ≡ (n + suc (length addrs), a)
unfolding pointers
pointers-last n x a [] = ap (λ k. (k, a)) (omega arith)
pointers-last n x a (b ∷ addrs) = pointers-last (suc n) b a addrs ∙ ap (λ k. (k, a)) (omega arith)

plus_zero : (n : ℕ) → 0 + n ≡ n
plus_zero n = omega arith

added-last :
    (a : IaAddress) (addrs : List IaAddress)
    → added (addrs ++ a ∷ []) ≡ replicate (suc (length addrs)) (address_option a)
unfolding added
added-last a addrs =
    rw (pointers-last 0 zero_address a addrs)
      (ap (λ k. replicate k (address_option a)) (plus_zero (suc (length addrs))))

module _ (u : Uio) where
  get_one_option-update_option :
      (x : Opt) (d : Packet) → get_one_option u (option_code x) (update_option u x d) ≡ some x
  unfolding get_one_option update_option
  get_one_option-update_option x (message t tid o) =
      rw (to_list-of_list _) (get_one-update_same (kind u 0) x (to_list o))
  get_one_option-update_option x (relay t hops link peer o) =
      rw (to_list-of_list _) (get_one-update_same (kind u 0) x (to_list o))

  -- To a packet that has no identity association, `WithIANA` adds one that has the last of the
  -- addresses as often as there are addresses, and none of the others.
  pub get_one_option-with_iana :
      (a : IaAddress) (addrs : List IaAddress) (d e : Packet)
      → get_one_option u 3 d ≡ none
      → with_iana u (addrs ++ a ∷ []) d ≡ ok e
      → get_one_option u 3 e
        ≡ some (
            ia_na (replicate 4 0) 0 0 (of_list (replicate (suc (length addrs)) (address_option a))))
  unfolding with_iana option_code
  get_one_option-with_iana a addrs d e free h =
      let x =
        ia_na (replicate 4 0) 0 0 (of_list (replicate (suc (length addrs)) (address_option a))) in
      let made : update_option u x d ≡ e = ok-injective (rw (free, added-last a addrs) at h) in
      ap (get_one_option u 3) (sym made) ∙ get_one_option-update_option x d
