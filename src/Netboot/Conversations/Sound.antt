-- ===== src/Netboot/Conversations/Sound.antt =====
-- netboot/netboot.go: where what a conversation gives comes from, and that its type assertions hold.
use dhcp.Prelude.{
  ◌≡◌, ◌≢◌, ◌⊎◌, refl, sym, ap, ◌∙◌, Bool, true, false, List, [], ◌∷◌, Option, none, some, Bytes,
  ok, fault, Fault, All, map_err, map_err-ne-fault, map_err-ok, >>=-eq-ok, >>=-ne-fault,
  >>=-ne-fault_known, ok-injective, arith, Bool-cases, inl, inr, ==_iff,
}
use mathlib.Core.Path.{subst}
use mathlib.Core.Option.{some-injective}
use dhcp.Uio.{Uio}
use dhcp.Dhcpv4.Packet.{Dhcpv4}
use dhcp.Dhcpv6.Message.{Message, type_advertise, type_reply}
use dhcp.Dhcpv6.Relay.{is_relay_type}
use dhcp.Dhcpv6.Values.{Value, boot_file_url, value_code, format}
use dhcp.Dhcpv6.Packet.{Packet, Opt, message, relay, plain, to_list, option_code}
use dhcp.Dhcpv6.Packet.Depth.{IsOption, IsOptions, IsPacket}
use dhcp.Dhcpv6.Relaying.{options, get_one_option}
use dhcp.Dhcpv6.Modifiers.{option_bootfile_url}
use dhcp.Netboot.{NetConf, get_net_conf_from_packet_v4, get_net_conf_from_packet_v6}
use dhcp.Netboot.Configured.{
  Configured, get_one-IsOption, get_net_conf_from_packet_v4_sound,
  get_net_conf_from_packet_v6-ne-fault,
}
use dhcp.Netboot.Conversations.{
  Error, look_for, has_type, or_error, as_message, as_boot_file, boot_file_option,
  conversation_to_netconf, is_offer, conversation_to_netconf_v4, no_reply, no_advertise,
  no_boot_file, no_offer, bad_packet,
}

-- The first of a list that passes a test.
pub data IsFirst {A : Type 0} (test : A → Bool) : A → List A → Type 0 where
  here : {m : A} {ms : List A} → test m ≡ true → IsFirst test m (m ∷ ms)
  later : {m x : A} {ms : List A} → test x ≡ false → IsFirst test m ms → IsFirst test m (x ∷ ms)

look_for-IsFirst :
    {A : Type 0} (test : A → Bool) (ms : List A) (m : A)
    → look_for test ms ≡ some m
    → IsFirst test m ms
unfolding look_for
look_for-IsFirst test [] m h = cc
look_for-IsFirst test (x ∷ ms) m h = elim (Bool-cases (test x)) [
  | inl p ↦ subst (λ y. IsFirst test y (x ∷ ms)) (some-injective _ _ (rw p at h)) (IsFirst.here p)
  | inr p ↦ IsFirst.later p (look_for-IsFirst test ms m (rw p at h))
]

or_error-ok : {A : Type 0} (e : Error) (x : Option A) (a : A) → or_error e x ≡ ok a → x ≡ some a
or_error-ok e none a h = cc
or_error-ok e (some b) a h = ap some (ok-injective h)

as_boot_file-ok : (x : Opt) (b : Bytes) → as_boot_file x ≡ ok b → x ≡ plain (boot_file_url b)
as_boot_file-ok (plain (Value.boot_file_url c)) b h =
    ap (λ (d : Bytes). plain (boot_file_url d)) (ok-injective h)
as_boot_file-ok _ b h = cc

as_message-ok :
    (p : Packet) (m : Message Opt) → as_message p ≡ ok m → to_list (options p) ≡ m.options
as_message-ok (message t tid o) m h = ap (λ (x : Message Opt). x.options) (ok-injective h)
as_message-ok (relay t hops link peer o) m h = cc

module _ (u : Uio) where
  -- Where the boot file of a conversation comes from.
  abbrev pub IsBootFile : List Packet → Packet → Bytes → Type 0
  IsBootFile conversation reply b =
      (get_one_option u option_bootfile_url reply ≡ some (plain (boot_file_url b)))
      ⊎ ((get_one_option u option_bootfile_url reply ≡ none)
          × ((advertise : Packet) × IsFirst (has_type type_advertise) advertise conversation
              × (get_one_option u option_bootfile_url advertise ≡ some (plain (boot_file_url b)))))

  boot_file_option-ok :
      (conversation : List Packet) (reply : Packet) (r : Option Opt) (x : Opt) (b : Bytes)
      → get_one_option u option_bootfile_url reply ≡ r
      → boot_file_option u conversation r ≡ ok x
      → as_boot_file x ≡ ok b
      → IsBootFile conversation reply b
  boot_file_option-ok conversation reply (some y) x b e h k =
      inl (e ∙ ap some (ok-injective h ∙ as_boot_file-ok x b k))
  boot_file_option-ok conversation reply none x b e h k =
      let (advertise, at_advertise, h₁) =
        >>=-eq-ok (or_error no_advertise (look_for (has_type type_advertise) conversation)) _ h in
      inr (
        e,
        (
          advertise,
          look_for-IsFirst _ conversation advertise
              (or_error-ok no_advertise _ advertise at_advertise),
          or_error-ok no_boot_file _ x h₁ ∙ ap some (as_boot_file-ok x b k),
        ),
      )

  -- What a conversation gives, and the packets that it is from.
  abbrev pub IsFrom : List Packet → NetConf → Bytes → Type 0
  IsFrom conversation n b =
      (reply : Packet) × (m : Message Opt) × IsFirst (has_type type_reply) reply conversation
      × (as_message reply ≡ ok m)
      × (get_net_conf_from_packet_v6 u m ≡ ok n)
      × IsBootFile conversation reply b

  abbrev pub IsFromOffer : List Dhcpv4 → NetConf → Bytes → Type 0
  IsFromOffer conversation n b =
      (offer : Dhcpv4) × IsFirst (is_offer u) offer conversation
      × Configured u offer n
      × (offer.boot_file_name ≡ b)

  -- What a DHCPv6 conversation gives is the configuration of its first REPLY, and the boot file of
  -- that REPLY, or, if it has no such option, the one of the first ADVERTISE.
  pub conversation_to_netconf_sound :
      (conversation : List Packet) (n : NetConf) (b : Bytes)
      → conversation_to_netconf u conversation ≡ ok (n, b)
      → IsFrom conversation n b
  unfolding conversation_to_netconf
  conversation_to_netconf_sound conversation n b h =
      let (reply, at_reply, h₁) =
        >>=-eq-ok (or_error no_reply (look_for (has_type type_reply) conversation)) _ h in
      let (m, at_m, h₂) = >>=-eq-ok (as_message reply) _ h₁ in
      let (n₂, at_n, h₃) = >>=-eq-ok (map_err bad_packet (get_net_conf_from_packet_v6 u m)) _ h₂ in
      let (x, at_x, h₄) =
        >>=-eq-ok (boot_file_option u conversation (get_one_option u option_bootfile_url reply)) _
          h₃ in
      let (b₂, at_b, h₅) = >>=-eq-ok (as_boot_file x) _ h₄ in
      let made = ok-injective h₅ in
      (
        reply,
        m,
        look_for-IsFirst _ conversation reply (or_error-ok no_reply _ reply at_reply),
        at_m,
        map_err-ok bad_packet _ n₂ at_n ∙ ap (λ r. ok (r.0)) made,
        boot_file_option-ok conversation reply _ x b refl at_x (at_b ∙ ap (λ r. ok (r.1)) made),
      )

  -- What a DHCPv4 conversation gives is the boot file of the first reply of type Offer, and the
  -- configuration that this offer has: an address, a netmask with ones, name servers and routers.
  pub conversation_to_netconf_v4_sound :
      (conversation : List Dhcpv4) (n : NetConf) (b : Bytes)
      → conversation_to_netconf_v4 u conversation ≡ ok (n, b)
      → IsFromOffer conversation n b
  unfolding conversation_to_netconf_v4
  conversation_to_netconf_v4_sound conversation n b h =
      let (offer, at_offer, h₁) =
        >>=-eq-ok (or_error no_offer (look_for (is_offer u) conversation)) _ h in
      let (n₂, at_n, h₂) =
        >>=-eq-ok (map_err bad_packet (get_net_conf_from_packet_v4 u offer)) _ h₁ in
      let made = ok-injective h₂ in
      (
        offer,
        look_for-IsFirst _ conversation offer (or_error-ok no_offer _ offer at_offer),
        get_net_conf_from_packet_v4_sound u offer n
            (map_err-ok bad_packet _ n₂ at_n ∙ ap (λ r. ok (r.0)) made),
        ap (λ r. r.1) made,
      )

  look_for-All :
      (P : Packet → Type 0) (test : Packet → Bool) (ms : List Packet) (m : Packet)
      → All P ms
      → look_for test ms ≡ some m
      → P m × (test m ≡ true)
  unfolding look_for
  look_for-All P test [] m v h = cc
  look_for-All P test (x ∷ ms) m v h = elim (Bool-cases (test x)) [
    | inl p ↦
        let same : x ≡ m = some-injective _ _ (rw p at h) in
        (subst P same v.0, ap test (sym same) ∙ p)
    | inr p ↦ look_for-All P test ms m v.1 (rw p at h)
  ]

  -- An option of that code that the wire can carry has its type.
  as_boot_file-ne-fault :
      (x : Opt) (f : Fault)
      → IsOption u x
      → option_code x ≡ option_bootfile_url
      → as_boot_file x ≢ fault f
  unfolding IsOption option_code value_code format
  as_boot_file-ne-fault (plain (Value.boot_file_url c)) f v e = λ p. cc
  as_boot_file-ne-fault (plain (Value.other c d)) f v e = absurd (cc (sym v.1 ∙ ap format e))
  as_boot_file-ne-fault _ f v e = absurd (omega arith)

  as_message-ne-fault :
      (p : Packet) (f : Fault)
      → IsPacket u p
      → has_type type_reply p ≡ true
      → as_message p ≢ fault f
  unfolding IsPacket is_relay_type
  as_message-ne-fault (message t tid o) f v h = λ p. cc
  as_message-ne-fault (relay t hops link peer o) f v h =
      let seven = (==_iff t type_reply).0 h in cc (rw seven at v.1)

  option-IsOptions : (p : Packet) → IsPacket u p → IsOptions u (options p)
  unfolding IsPacket
  option-IsOptions (message t tid o) v = v.3
  option-IsOptions (relay t hops link peer o) v = v.5

  boot_option-ne-fault :
      (p : Packet) (x : Opt) (f : Fault)
      → IsPacket u p
      → get_one_option u option_bootfile_url p ≡ some x
      → as_boot_file x ≢ fault f
  unfolding get_one_option
  boot_option-ne-fault p x f v h =
      let (w, same) =
        get_one-IsOption u option_bootfile_url (options p) x (option-IsOptions p v) h in
      as_boot_file-ne-fault x f w same

  or_error-ne-fault : {A : Type 0} (e : Error) (x : Option A) (f : Fault) → or_error e x ≢ fault f
  or_error-ne-fault e none f = λ p. cc
  or_error-ne-fault e (some a) f = λ p. cc

  boot_file_option-ne-fault :
      (conversation : List Packet) (r : Option Opt) (f : Fault)
      → boot_file_option u conversation r ≢ fault f
  boot_file_option-ne-fault conversation (some x) f = λ p. cc
  boot_file_option-ne-fault conversation none f =
      >>=-ne-fault (or_error no_advertise (look_for (has_type type_advertise) conversation)) _ f
        (or_error-ne-fault no_advertise _) (λ a. or_error-ne-fault no_boot_file _ f)

  as_boot_file-boot_file_option :
      (conversation : List Packet) (reply : Packet) (r : Option Opt) (x : Opt) (f : Fault)
      → All (IsPacket u) conversation
      → IsPacket u reply
      → get_one_option u option_bootfile_url reply ≡ r
      → boot_file_option u conversation r ≡ ok x
      → as_boot_file x ≢ fault f
  as_boot_file-boot_file_option conversation reply (some y) x f v w h k =
      boot_option-ne-fault reply x f w (h ∙ ap some (ok-injective k))
  as_boot_file-boot_file_option conversation reply none x f v w h k =
      let (advertise, at_advertise, k₁) =
        >>=-eq-ok (or_error no_advertise (look_for (has_type type_advertise) conversation)) _ k in
      let valid =
        look_for-All (IsPacket u) _ conversation advertise v
          (or_error-ok no_advertise _ advertise at_advertise) in
      boot_option-ne-fault advertise x f valid.0 (or_error-ok no_boot_file _ x k₁)

  configuration-ne-fault :
      (reply : Packet) (m : Message Opt) (f : Fault)
      → IsPacket u reply
      → as_message reply ≡ ok m
      → map_err bad_packet (get_net_conf_from_packet_v6 u m) ≢ fault f
  configuration-ne-fault reply m f v h = map_err-ne-fault bad_packet _ f (
      get_net_conf_from_packet_v6-ne-fault u m (options reply) f (sym (as_message-ok reply m h))
        (option-IsOptions reply v))

  -- The type assertions of ConversationToNetconf never panic on packets that the wire can carry.
  pub conversation_to_netconf-ne-fault :
      (conversation : List Packet) (f : Fault)
      → All (IsPacket u) conversation
      → conversation_to_netconf u conversation ≢ fault f
  unfolding conversation_to_netconf
  conversation_to_netconf-ne-fault conversation f v =
      >>=-ne-fault_known (or_error no_reply (look_for (has_type type_reply) conversation)) _ f
        (or_error-ne-fault no_reply _)
        (λ reply at_reply.
          let (valid, typed) =
            look_for-All (IsPacket u) _ conversation reply v
              (or_error-ok no_reply _ reply at_reply) in
          >>=-ne-fault_known (as_message reply) _ f (λ y. as_message-ne-fault reply y valid typed)
            (λ m at_m.
              >>=-ne-fault (map_err bad_packet (get_net_conf_from_packet_v6 u m)) _ f
                (λ y. configuration-ne-fault reply m y valid at_m)
                (λ n.
                  >>=-ne-fault_known
                    (boot_file_option u conversation (get_one_option u option_bootfile_url reply)) _
                    f (boot_file_option-ne-fault conversation _)
                    (λ x at_x.
                      >>=-ne-fault (as_boot_file x) _ f
                        (λ y.
                          as_boot_file-boot_file_option conversation reply _ x y v valid refl at_x)
                        (λ b p. cc)))))
