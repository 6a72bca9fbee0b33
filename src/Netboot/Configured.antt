-- ===== src/Netboot/Configured.antt =====
-- netboot/netconf.go: what a configuration that is given has, and which replies give one.
use dhcp.Prelude.{
  ℕ, ◌/◌, ◌≡◌, ◌≢◌, ◌⊎◌, refl, sym, ap, ◌∙◌, Bool, true, false, List, [], ◌∷◌, Option, none, some,
  ◌==◌, if◌then◌else◌, Slice, Result, ok, err, fault, Fault, >>=-eq-ok, >>=-ne-fault, ok-injective,
  arith, Bool-cases, inl, inr, ==_iff, ==_ne,
}
use mathlib.Core.Path.{subst}
use mathlib.Core.Option.{some-injective}
use dhcp.Uio.{Uio}
use dhcp.Dhcpv4.Packet.{Dhcpv4}
use dhcp.Dhcpv4.Values.{second}
use dhcp.Dhcpv4.Getters.{subnet_mask, ip_address_lease_time, dns, router}
use dhcp.Dhcpv4.DomainSearch.{domain_search}
use dhcp.Dhcpv6.Options.{get_one}
use dhcp.Dhcpv6.Message.{Message}
use dhcp.Dhcpv6.Values.{Value, value_code, format}
use dhcp.Dhcpv6.Values.Wire.{IsFields}
use dhcp.Dhcpv6.Packet.{
  Opt, Opts, plain, ia_na, ia_pd, ia_address, ia_prefix, relay_msg, nil, cons, option_code, to_list,
}
use dhcp.Dhcpv6.Packet.Parse.{kind}
use dhcp.Dhcpv6.Packet.Depth.{IsOption, IsOptions}
use dhcp.Netboot.{
  NetConf, Error, is_null, size_ones, required_mask, required, search_list,
  get_net_conf_from_packet_v4, null_address, null_netmask, no_dns_servers, no_routers, ia_addresses,
  as_ia_na, as_dns_servers, as_search_list, get_net_conf_from_packet_v6,
}

-- A usable configuration, and where it comes from.
pub record Configured (u : Uio) (d : Dhcpv4) (n : NetConf) : Type 0 where
  pub has_address : is_null d.your_ip_addr ≡ false
  pub has_netmask : size_ones (subnet_mask u d) ≢ 0
  pub address :
      n.addresses
      ≡ record {
        ip = d.your_ip_addr;
        mask = subnet_mask u d;
        preferred_lifetime = 0;
        valid_lifetime = ip_address_lease_time u 0 d / second;
      }
        ∷ []
  pub servers : (n.dns_servers ≡ dns u d) × (dns u d ≢ [])
  pub default_routes : (n.routers ≡ router u d) × (router u d ≢ [])

if-ok :
    {E A : Type 0} (c : Bool) (e : E) (a : A) {b : A}
    → ◌≡◌ {A = Result E A} (if c then err e else ok a) (ok b)
    → (c ≡ false) × (a ≡ b)
if-ok true e a h = cc
if-ok false e a h = (refl, ok-injective h)

required-ok : (e : Error) (xs ys : List Slice) → required e xs ≡ ok ys → (ys ≡ xs) × (xs ≢ [])
required-ok e [] ys h = cc
required-ok e (x ∷ xs) ys h = (sym (ok-injective h), (λ p. cc))

required_mask-ok : (m n : Slice) → required_mask m ≡ ok n → n ≡ m
required_mask-ok none n h = cc
required_mask-ok (some m) n h = sym (ok-injective h)

module _ (u : Uio) where
  -- A reply that gives a configuration has an address, a netmask with ones, name servers and
  -- routers, and they are in the configuration, with the lease time in seconds.
  pub get_net_conf_from_packet_v4_sound :
      (d : Dhcpv4) (n : NetConf) → get_net_conf_from_packet_v4 u d ≡ ok n → Configured u d n
  unfolding get_net_conf_from_packet_v4
  get_net_conf_from_packet_v4_sound d n h =
      let (ip, at_ip, h₁) =
        >>=-eq-ok (if is_null d.your_ip_addr then err null_address else ok d.your_ip_addr) _ h in
      let (m, at_m, h₂) = >>=-eq-ok (required_mask (subnet_mask u d)) _ h₁ in
      let (mask, at_mask, h₃) =
        >>=-eq-ok (if size_ones m == 0 then err null_netmask else ok m) _ h₂ in
      let (servers, at_servers, h₄) = >>=-eq-ok (required no_dns_servers (dns u d)) _ h₃ in
      let (search, at_search, h₅) = >>=-eq-ok (search_list (domain_search d)) _ h₄ in
      let (routers, at_routers, h₆) = >>=-eq-ok (required no_routers (router u d)) _ h₅ in
      let (set, same_ip) = if-ok (is_null d.your_ip_addr) null_address d.your_ip_addr at_ip in
      let same_m = required_mask-ok (subnet_mask u d) m at_m in
      let (ones, same_mask) = if-ok (size_ones m == 0) null_netmask m at_mask in
      let whole_mask : mask ≡ subnet_mask u d = sym same_mask ∙ same_m in
      let s = required-ok no_dns_servers (dns u d) servers at_servers in
      let r = required-ok no_routers (router u d) routers at_routers in
      let back : ip ≡ d.your_ip_addr = sym same_ip in
      let made = ok-injective h₆ in
      record {
        has_address = set;
        has_netmask = λ p. cc (sym ones ∙ (==_iff (size_ones m) 0).1 (ap size_ones same_m ∙ p));
        address = sym (ap (λ (c : NetConf). c.addresses) made) ∙ (λ i.
            record {
              ip = back i;
              mask = whole_mask i;
              preferred_lifetime = 0;
              valid_lifetime = ip_address_lease_time u 0 d / second;
            }
            ∷ []);
        servers = (sym (ap (λ (c : NetConf). c.dns_servers) made) ∙ s.0, s.1);
        default_routes = (sym (ap (λ (c : NetConf). c.routers) made) ∙ r.0, r.1);
      }

-- A valid option of a code that has a type is of that type.
pub plain-ne-container : (v : Value) (c : ℕ) → IsFields v → (c ≡ 3) ⊎ (c ≡ 5) → value_code v ≢ c
unfolding value_code format
plain-ne-container (Value.other d b) c h (inl e) p = cc (sym h.1 ∙ ap format (p ∙ e))
plain-ne-container (Value.other d b) c h (inr e) p = cc (sym h.1 ∙ ap format (p ∙ e))
plain-ne-container _ c h e p = ground arith

module _ (u : Uio) where
  pub get_one-IsOption :
      (c : ℕ) (o : Opts) (x : Opt)
      → IsOptions u o
      → get_one (kind u 0) c (to_list o) ≡ some x
      → IsOption u x × (option_code x ≡ c)
  unfolding IsOptions get_one
  get_one-IsOption c nil x v h = cc
  get_one-IsOption c (cons y o) x v h = elim (Bool-cases (option_code y == c)) [
    | inl p ↦
        let same : y ≡ x = some-injective _ _ (rw p at h) in
        (subst (IsOption u) same v.0, ap option_code (sym same) ∙ (==_iff (option_code y) c).0 p)
    | inr p ↦ get_one-IsOption c o x v.2 (rw p at h)
  ]

  ia_addresses-ne-fault : (o : Opts) (f : Fault) → IsOptions u o → ia_addresses o ≢ fault f
  unfolding ia_addresses IsOptions IsOption option_code
  ia_addresses-ne-fault nil f v = λ p. cc
  ia_addresses-ne-fault (cons (ia_address ip p l o) rest) f v =
      >>=-ne-fault (ia_addresses rest) _ f (λ y. ia_addresses-ne-fault rest y v.2) (λ as' q. cc)
  ia_addresses-ne-fault (cons (plain x) rest) f v =
      rw (==_ne (value_code x) 5 (plain-ne-container x 5 v.0 (inr refl)))
        (ia_addresses-ne-fault rest f v.2)
  ia_addresses-ne-fault (cons (ia_na i t₁ t₂ o) rest) f v = ia_addresses-ne-fault rest f v.2
  ia_addresses-ne-fault (cons (ia_pd i t₁ t₂ o) rest) f v = ia_addresses-ne-fault rest f v.2
  ia_addresses-ne-fault (cons (ia_prefix p l n ip o) rest) f v = ia_addresses-ne-fault rest f v.2
  ia_addresses-ne-fault (cons (relay_msg d) rest) f v = ia_addresses-ne-fault rest f v.2

  -- The option that is found has the type of its code.
  as_ia_na-ne-fault :
      (x : Opt) (f : Fault) → IsOption u x → option_code x ≡ 3 → as_ia_na (some x) ≢ fault f
  unfolding IsOption option_code
  as_ia_na-ne-fault (ia_na i t₁ t₂ o) f v e = ia_addresses-ne-fault o f v.3
  as_ia_na-ne-fault (plain x) f v e = absurd (plain-ne-container x 3 v (inl refl) e)
  as_ia_na-ne-fault (ia_pd i t₁ t₂ o) f v e = absurd (omega arith)
  as_ia_na-ne-fault (ia_address i p l o) f v e = absurd (omega arith)
  as_ia_na-ne-fault (ia_prefix p l n i o) f v e = absurd (omega arith)
  as_ia_na-ne-fault (relay_msg d) f v e = absurd (omega arith)

  as_dns_servers-ne-fault :
      (x : Opt) (f : Fault) → IsOption u x → option_code x ≡ 23 → as_dns_servers (some x) ≢ fault f
  unfolding IsOption option_code value_code format
  as_dns_servers-ne-fault (plain (Value.dns_servers ns)) f v e = λ p. cc
  as_dns_servers-ne-fault (plain (Value.other c d)) f v e = absurd (cc (sym v.1 ∙ ap format e))
  as_dns_servers-ne-fault _ f v e = absurd (omega arith)

  as_search_list-ne-fault :
      (x : Opt) (f : Fault) → IsOption u x → option_code x ≡ 24 → as_search_list (some x) ≢ fault f
  unfolding IsOption option_code value_code format
  as_search_list-ne-fault (plain (Value.domain_search ns)) f v e = λ p. cc
  as_search_list-ne-fault (plain (Value.other c d)) f v e = absurd (cc (sym v.1 ∙ ap format e))
  as_search_list-ne-fault _ f v e = absurd (omega arith)

  -- What is done with an option that was looked for ends well if it does so with none and with a
  -- valid one of the code.
  found-ne-fault :
      {A : Type 0} (g : Option Opt → Result Error A) (c : ℕ) (o : Opts) (f : Fault)
      → IsOptions u o
      → g none ≢ fault f
      → ((x : Opt) → IsOption u x → option_code x ≡ c → g (some x) ≢ fault f)
      → (r : Option Opt) → get_one (kind u 0) c (to_list o) ≡ r
      → g r ≢ fault f
  found-ne-fault g c o f v at_none at_some none e = at_none
  found-ne-fault g c o f v at_none at_some (some x) e =
      let (w, same) = get_one-IsOption c o x v e in at_some x w same

  -- The type assertions of GetNetConfFromPacketv6 never panic on a message with options that the
  -- wire can carry.
  pub get_net_conf_from_packet_v6-ne-fault :
      (m : Message Opt) (o : Opts) (f : Fault)
      → m.options ≡ to_list o
      → IsOptions u o
      → get_net_conf_from_packet_v6 u m ≢ fault f
  unfolding get_net_conf_from_packet_v6
  get_net_conf_from_packet_v6-ne-fault m o f same v = rw same (
      >>=-ne-fault (as_ia_na (get_one (kind u 0) 3 (to_list o))) _ f
        (λ y. found-ne-fault as_ia_na 3 o y v (λ p. cc) (λ x. as_ia_na-ne-fault x y) _ refl)
        (λ a.
          >>=-ne-fault (as_dns_servers (get_one (kind u 0) 23 (to_list o))) _ f
            (λ y.
              found-ne-fault as_dns_servers 23 o y v (λ p. cc) (λ x. as_dns_servers-ne-fault x y) _
                refl)
            (λ s.
              >>=-ne-fault (as_search_list (get_one (kind u 0) 24 (to_list o))) _ f
                (λ y.
                  found-ne-fault as_search_list 24 o y v (λ p. cc)
                    (λ x. as_search_list-ne-fault x y) _ refl)
                (λ l r. cc))))
