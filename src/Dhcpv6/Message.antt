-- ===== src/Dhcpv6/Message.antt =====
-- dhcpv6/dhcpv6message.go, and the messages of dhcpv6/dhcpv6.go. The options are of any kind; where
-- the code makes an option itself, it is an argument. A pointer that may be nil is an Option.
pub mod Exchange
pub mod RoundTrip
use dhcp.Prelude.{
  ℕ, ◌≡◌, Bool, true, false, not, ◌||◌, ◌&&◌, List, [], ◌∷◌, ◌++◌, Option, none, some, ◌==◌,
  if◌then◌else◌, Bytes, Slice, elements, Result, ok, err, fault, ◌>>=◌, map_err,
}
use dhcp.Uio.{Uio}
use dhcp.Dhcpv6.Options
use dhcp.Dhcpv6.Options.{Kind, get_one, add, from_bytes_with_parser}

abbrev pub type_solicit : ℕ
type_solicit = 1

abbrev pub type_advertise : ℕ
type_advertise = 2

abbrev pub type_request : ℕ
type_request = 3

abbrev pub type_confirm : ℕ
type_confirm = 4

abbrev pub type_renew : ℕ
type_renew = 5

abbrev pub type_rebind : ℕ
type_rebind = 6

abbrev pub type_reply : ℕ
type_reply = 7

abbrev pub type_release : ℕ
type_release = 8

abbrev pub type_information_request : ℕ
type_information_request = 11

abbrev pub type_relay_forward : ℕ
type_relay_forward = 12

abbrev pub type_relay_reply : ℕ
type_relay_reply = 13

abbrev pub option_client_id : ℕ
option_client_id = 1

abbrev pub option_server_id : ℕ
option_server_id = 2

abbrev pub option_ia_na : ℕ
option_ia_na = 3

abbrev pub option_vendor_class : ℕ
option_vendor_class = 16

abbrev pub option_dns_recursive_name_server : ℕ
option_dns_recursive_name_server = 23

abbrev pub option_domain_search_list : ℕ
option_domain_search_list = 24

pub record Message (Opt : Type 0) : Type 0 where
  pub message_type : ℕ
  pub transaction_id : Bytes
  pub options : List Opt

pub data Error (E : Type 0) : Type 0 where
  nil_message wrong_type no_client_id no_server_id no_ia_na : Error E
  bad_options : Options.Error E → Error E

module _ {E Opt : Type 0} (k : Kind E Opt) where
  abbrev pub Modifier : Type 0
  Modifier = Message Opt → Message Opt

  unfoldable pub apply_modifiers : List Modifier → Modifier
  apply_modifiers [] m = m
  apply_modifiers (modifier ∷ modifiers) m = apply_modifiers modifiers (modifier m)

  unfoldable pub add_option : Opt → Modifier
  unfolding add
  add_option opt m = record m { options = add k opt m.options }

  unfoldable pub update_option : Opt → Modifier
  update_option opt m = record m { options = Options.update k opt m.options }

  unfoldable pub get_one_option : ℕ → Message Opt → Option Opt
  get_one_option code m = get_one k code m.options

  -- `if opt == nil { return nil, err }`
  abbrev pub or_error : Error E → Option Opt → Result (Error E) Opt
  or_error e none = err e
  or_error e (some opt) = ok opt

  -- A message that is not nil and has one of the types.
  unfoldable pub expect : (ℕ → Bool) → Option (Message Opt) → Result (Error E) (Message Opt)
  expect allowed none = err nil_message
  expect allowed (some m) = if not (allowed m.message_type) then err wrong_type else ok m

  abbrev pub answer : ℕ → Message Opt → Message Opt
  answer t m = record { message_type = t; transaction_id = m.transaction_id; options = [] }

  unfoldable pub new_advertise_from_solicit :
      Option (Message Opt) → List Modifier → Result (Error E) (Message Opt)
  unfolding expect get_one_option add_option apply_modifiers
  new_advertise_from_solicit solicit modifiers = do
    sol ← expect (λ t. t == type_solicit) solicit
    cid ← or_error no_client_id (get_one_option option_client_id sol)
    ok (apply_modifiers modifiers (add_option cid (answer type_advertise sol)))

  unfoldable pub is_answered : ℕ → Bool
  is_answered t =
      t == type_request
      || t == type_confirm
      || t == type_renew
      || t == type_rebind
      || t == type_release
      || t == type_information_request

  unfoldable pub new_reply_from_message :
      Option (Message Opt) → List Modifier → Result (Error E) (Message Opt)
  unfolding expect get_one_option add_option apply_modifiers is_answered
  new_reply_from_message message modifiers = do
    msg ← expect is_answered message
    cid ← or_error no_client_id (get_one_option option_client_id msg)
    ok (apply_modifiers modifiers (add_option cid (answer type_reply msg)))

  -- `req.AddOption(opt)`, if there is one.
  abbrev pub add_if_set : Option Opt → Modifier
  add_if_set none m = m
  add_if_set (some opt) m = add_option opt m

  -- `elapsed_time` is an empty `OptElapsedTime`, and `requested` makes an `OptRequestedOption`.
  unfoldable pub new_request_from_advertise :
      Opt → (List ℕ → Opt) → Option (Message Opt) → List Modifier → Result (Error E) (Message Opt)
  unfolding expect get_one_option add_option apply_modifiers
  new_request_from_advertise elapsed_time requested advertise modifiers = do
    adv ← expect (λ t. t == type_advertise) advertise
    cid ← or_error no_client_id (get_one_option option_client_id adv)
    sid ← or_error no_server_id (get_one_option option_server_id adv)
    ia_na ← or_error no_ia_na (get_one_option option_ia_na adv)
    let oro = requested (option_dns_recursive_name_server ∷ option_domain_search_list ∷ [])
    let named = add_option sid (add_option cid (answer type_request adv))
    let asking = add_option oro (add_option ia_na (add_option elapsed_time named))
    ok (apply_modifiers modifiers (add_if_set (get_one_option option_vendor_class adv) asking))

  module _ (u : Uio) where
    unfoldable pub message_to_bytes : Message Opt → Slice
    message_to_bytes m =
        let head = u.write_bytes m.transaction_id (u.write8 m.message_type (u.new [])) in
        u.contents (u.write_bytes (elements (Options.to_bytes k u m.options)) head)

    -- What is left when the type and the transaction have been read.
    unfoldable pub finish_message : ℕ → Bytes → Slice → Result (Error E) (Message Opt)
    finish_message t tid rest =
        let parsed : Result (Error E) (Message Opt) =
          map_err bad_options (from_bytes_with_parser k u (elements rest)) >>= λ o.
          ok (record { message_type = t; transaction_id = tid; options = o }) in
        if t == type_relay_forward || t == type_relay_reply then err wrong_type else parsed

    -- The errors of the reads are not looked at.
    unfoldable pub message_from_bytes : Bytes → Result (Error E) (Message Opt)
    message_from_bytes bs =
        let (t, b₁) = u.read8 (u.new bs) in
        let (tid, b₂) = u.read_bytes 3 b₁ in finish_message t tid (u.contents b₂)
