-- ===== src/Dhcpv6/Modifiers/Requested.antt =====
-- dhcpv6/modifiers.go and dhcpv6/dhcpv6message.go: the options that a modifier requests are requested.
use dhcp.Prelude.{
  ℕ, ◌≡◌, refl, sym, ap, ◌∙◌, ◌||◌, true, List, [], ◌∷◌, ◌++◌, some, ◌==◌, ok, ok-injective,
  >>=-eq-ok, Bool-cases, inl, inr, arith,
}
use mathlib.Core.Option.{some-injective}
use dhcp.Uio.{Uio}
use dhcp.Dhcpv4.Values.{codes_has}
use dhcp.Dhcpv4.Values.Codes.{codes_has-append}
use dhcp.Dhcpv6.Options.{Kind, get, get_one, update}
use dhcp.Dhcpv6.Options.Lookup.{get_one-update_same}
use dhcp.Dhcpv6.Message.{Message}
use dhcp.Dhcpv6.Values.{requested_option, value_code}
use dhcp.Dhcpv6.Packet.{Packet, Opt, plain, of_list, to_list, option_code}
use dhcp.Dhcpv6.Packet.Parse.{kind}
use dhcp.Dhcpv6.Relaying.{get_one_option, message_packet}
use dhcp.Dhcpv6.Modifiers.{
  as_requested, add_requested_options, requested_in, with_requested_options, with_netboot,
  update_option, is_option_requested, is_netboot,
}

get-get_one :
    {E A : Type 0} (k : Kind E A) (c : ℕ) (o : List A) (x : A)
    → get_one k c o ≡ some x
    → (rest : List A) × (get k c o ≡ x ∷ rest)
unfolding get get_one
get-get_one k c [] x h = cc
get-get_one k c (y ∷ o) x h = elim (Bool-cases (k.code y == c)) [
  | inl p ↦ (get k c o, rw p (ap (λ t. t ∷ get k c o) (some-injective _ _ (rw p at h))))
  | inr p ↦ let (rest, at_rest) = get-get_one k c o x (rw p at h) in (rest, rw p at_rest)
]

codes_has-add_requested_options :
    (c : ℕ) (cs ol : List ℕ)
    → codes_has c (add_requested_options cs ol) ≡ (codes_has c ol || codes_has c cs)
unfolding codes_has add_requested_options
codes_has-add_requested_options c [] ol = ground arith
codes_has-add_requested_options c (d ∷ cs) ol =
    codes_has-add_requested_options c cs (ol ++ d ∷ [])
    ∙ rw (codes_has-append c d ol) (ground arith)

-- Two requested options behind those of before.
codes_has-two : (c d : ℕ) (ol : List ℕ) → codes_has c ((ol ++ c ∷ []) ++ d ∷ []) ≡ true
unfolding codes_has
codes_has-two c d ol =
    codes_has-append c d (ol ++ c ∷ []) ∙ rw (codes_has-append c c ol) (ground arith)

module _ (u : Uio) where
  -- What is requested in the first option of its kind is requested.
  requested_in-update :
      (c : ℕ) (cs : List ℕ) (o : List Opt)
      → codes_has c cs ≡ true
      → requested_in c (get (kind u 0) 6 (update (kind u 0) (plain (requested_option cs)) o))
        ≡ ok true
  unfolding requested_in option_code value_code
  requested_in-update c cs o has =
      let x = plain (requested_option cs) in
      let (rest, first) =
        get-get_one (kind u 0) 6 (update (kind u 0) x o) x (get_one-update_same (kind u 0) x o) in
      rw (first, has) refl

  -- After `WithRequestedOptions`, each of its options is requested.
  pub is_option_requested-with_requested_options :
      (cs : List ℕ) (c : ℕ) (m : Message Opt) (d : Packet)
      → with_requested_options u cs (message_packet m) ≡ ok d
      → codes_has c cs ≡ true
      → (n : Message Opt) × (d ≡ message_packet n) × (is_option_requested u c n ≡ ok true)
  unfolding with_requested_options update_option is_option_requested
  is_option_requested-with_requested_options cs c m d h has =
      let (ol, _, at_d) = >>=-eq-ok (as_requested (get_one_option u 6 (message_packet m))) _ h in
      let asked = add_requested_options cs ol in
      let o = to_list (of_list m.options) in
      let has_all : codes_has c asked ≡ true =
        codes_has-add_requested_options c cs ol ∙ rw has (ground arith) in
      (
        record {
          message_type = m.message_type;
          transaction_id = m.transaction_id;
          options = update (kind u 0) (plain (requested_option asked)) o;
        },
        sym (ok-injective at_d),
        requested_in-update c asked o has_all,
      )

  -- After `WithNetboot`, a message is for booting from the net.
  pub is_netboot-with_netboot :
      (m : Message Opt) (d : Packet)
      → with_netboot u (message_packet m) ≡ ok d
      → (n : Message Opt) × (d ≡ message_packet n) × (is_netboot u n ≡ ok true)
  unfolding with_netboot update_option is_option_requested is_netboot
  is_netboot-with_netboot m d h =
      let (ol, _, at_d) = >>=-eq-ok (as_requested (get_one_option u 6 (message_packet m))) _ h in
      let asked = (ol ++ 59 ∷ []) ++ 60 ∷ [] in
      let o = to_list (of_list m.options) in
      (
        record {
          message_type = m.message_type;
          transaction_id = m.transaction_id;
          options = update (kind u 0) (plain (requested_option asked)) o;
        },
        sym (ok-injective at_d),
        rw (requested_in-update 59 asked o (codes_has-two 59 60 ol)) refl,
      )
