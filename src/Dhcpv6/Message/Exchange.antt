-- ===== src/Dhcpv6/Message/Exchange.antt =====
-- dhcpv6/dhcpv6message.go: the messages of an exchange, made from those that they answer.
use dhcp.Prelude.{
  ℕ, not, ap, sym, ◌∙◌, >>=-eq-ok, unless-ok, ok-injective, ◌≡◌, refl, true, List, [], ◌∷◌, Option,
  some, none, ok, arith, ==_iff, Bool-cases, inl, inr, ◌==◌,
}
use dhcp.Dhcpv6.Options.{Kind, get_one, add}
use dhcp.Dhcpv6.Message.{
  Message, Modifier, apply_modifiers, add_option, add_if_set, answer, get_one_option, expect,
  or_error, no_client_id, no_server_id, no_ia_na, wrong_type, is_answered,
  new_advertise_from_solicit, new_reply_from_message, new_request_from_advertise,
}

module _ {E Opt : Type 0} (k : Kind E Opt) where
  -- What `GetOne` gives has the code that was asked for.
  pub code-get_one : (c : ℕ) (o : List Opt) (x : Opt) → get_one k c o ≡ some x → k.code x ≡ c
  unfolding get_one
  code-get_one c [] x h = cc
  code-get_one c (y ∷ o) x h = elim (Bool-cases (k.code y == c)) [
    | inl p ↦ grind (arith, rw p at h)
    | inr p ↦ code-get_one c o x (rw p at h)
  ]

  -- A reply to a message that may be answered, and that names its client, is the caller's modifiers
  -- applied to a message with its transaction and its client.
  pub new_reply_from_message_lem :
      (msg : Message Opt) (cid : Opt) (modifiers : List (Modifier k))
      → is_answered k msg.message_type ≡ true
      → get_one_option k 1 msg ≡ some cid
      → (d : Message Opt) × (new_reply_from_message k (some msg) modifiers
          ≡ ok (apply_modifiers k modifiers d))
        × (d.message_type ≡ 7)
        × (d.transaction_id ≡ msg.transaction_id)
        × (get_one_option k 1 d ≡ some cid)
  unfolding new_reply_from_message expect add_option add get_one_option get_one
  new_reply_from_message_lem msg cid modifiers allowed known = (
    add_option k cid (answer k 7 msg),
    rw (allowed, known) refl,
    refl,
    refl,
    rw ((==_iff (k.code cid) 1).1 (code-get_one 1 msg.options cid known)) refl,
  )

  -- An advertisement for a solicitation that names its client is the caller's modifiers applied to
  -- a message with its transaction and its client.
  pub new_advertise_from_solicit_lem :
      (sol : Message Opt) (cid : Opt) (modifiers : List (Modifier k))
      → sol.message_type ≡ 1
      → get_one_option k 1 sol ≡ some cid
      → (d : Message Opt) × (new_advertise_from_solicit k (some sol) modifiers
          ≡ ok (apply_modifiers k modifiers d))
        × (d.message_type ≡ 2)
        × (d.transaction_id ≡ sol.transaction_id)
        × (get_one_option k 1 d ≡ some cid)
  unfolding new_advertise_from_solicit expect add_option add get_one_option get_one
  new_advertise_from_solicit_lem sol cid modifiers t known = (
    add_option k cid (answer k 2 sol),
    rw (t, known) refl,
    refl,
    refl,
    rw ((==_iff (k.code cid) 1).1 (code-get_one 1 sol.options cid known)) refl,
  )

  -- The options that an advertisement must have: its client, server and identity association.
  pub record IsNamed (adv : Message Opt) (cid sid ia : Opt) : Type 0 where
    pub client : get_one_option k 1 adv ≡ some cid
    pub server : get_one_option k 2 adv ≡ some sid
    pub identity : get_one_option k 3 adv ≡ some ia

  asked : Opt → (List ℕ → Opt) → Message Opt → Opt → Opt → Opt → Message Opt
  asked elapsed requested adv cid sid ia = record {
    message_type = 3;
    transaction_id = adv.transaction_id;
    options = cid ∷ sid ∷ elapsed ∷ ia ∷ requested (23 ∷ 24 ∷ []) ∷ [];
  }

  asked_lem :
      (elapsed : Opt) (requested : List ℕ → Opt) (adv : Message Opt) (cid sid ia : Opt)
      (v : Option Opt)
      → k.code elapsed ≡ 8
      → IsNamed adv cid sid ia
      → IsNamed (add_if_set k v (asked elapsed requested adv cid sid ia)) cid sid ia
  unfolding asked get_one_option add_option add get_one
  asked_lem elapsed requested adv cid sid ia v e w =
      let c₁ = code-get_one 1 adv.options cid w.client in
      let c₂ = code-get_one 2 adv.options sid w.server in
      let c₃ = code-get_one 3 adv.options ia w.identity in go v c₁ c₂ c₃
    where
      go :
          (v : Option Opt)
          → k.code cid ≡ 1
          → k.code sid ≡ 2
          → k.code ia ≡ 3
          → IsNamed (add_if_set k v (asked elapsed requested adv cid sid ia)) cid sid ia
      go none c₁ c₂ c₃ = record {
        client = rw c₁ refl;
        server = rw (c₁, c₂) refl;
        identity = rw (c₁, c₂, c₃, e) refl;
      }
      go (some x) c₁ c₂ c₃ = record {
        client = rw c₁ refl;
        server = rw (c₁, c₂) refl;
        identity = rw (c₁, c₂, c₃, e) refl;
      }

  pub kept :
      (v : Option Opt) (m : Message Opt)
      → ((add_if_set k v m).message_type ≡ m.message_type)
        × ((add_if_set k v m).transaction_id ≡ m.transaction_id)
  unfolding add_option
  kept none m = (refl, refl)
  kept (some x) m = (refl, refl)

  -- The request for an advertisement that names its client, its server and an identity association
  -- is the caller's modifiers applied to a message that names the same, and has the advertisement's
  -- transaction. (Code 8 is that of the elapsed time.)
  pub new_request_from_advertise_lem :
      (elapsed : Opt) (requested : List ℕ → Opt) (adv : Message Opt) (cid sid ia : Opt)
      (modifiers : List (Modifier k))
      → adv.message_type ≡ 2
      → k.code elapsed ≡ 8
      → IsNamed adv cid sid ia
      → (d : Message Opt) × (new_request_from_advertise k elapsed requested (some adv) modifiers
          ≡ ok (apply_modifiers k modifiers d))
        × (d.message_type ≡ 3)
        × (d.transaction_id ≡ adv.transaction_id)
        × IsNamed d cid sid ia
  unfolding new_request_from_advertise expect asked get_one_option add_option add
  new_request_from_advertise_lem elapsed requested adv cid sid ia modifiers t e w =
      let v = get_one_option k 16 adv in
      (
        add_if_set k v (asked elapsed requested adv cid sid ia),
        rw (t, w.client, w.server, w.identity) refl,
        (kept v (asked elapsed requested adv cid sid ia)).0,
        (kept v (asked elapsed requested adv cid sid ia)).1,
        asked_lem elapsed requested adv cid sid ia v e w,
      )

  -- A request that is made has the transaction of the advertisement.
  pub new_request_from_advertise-ok :
      (elapsed : Opt) (requested : List ℕ → Opt) (adv r : Message Opt)
      → new_request_from_advertise k elapsed requested (some adv) [] ≡ ok r
      → (r.message_type ≡ 3) × (r.transaction_id ≡ adv.transaction_id)
  unfolding new_request_from_advertise expect apply_modifiers add_option
  new_request_from_advertise-ok elapsed requested adv r h =
      let (m, at_m, h₁) = >>=-eq-ok (expect k (λ t. t == 2) (some adv)) _ h in
      let (cid, at_cid, h₂) = >>=-eq-ok (or_error k no_client_id (get_one_option k 1 m)) _ h₁ in
      let (sid, at_sid, h₃) = >>=-eq-ok (or_error k no_server_id (get_one_option k 2 m)) _ h₂ in
      let (ia, at_ia, h₄) = >>=-eq-ok (or_error k no_ia_na (get_one_option k 3 m)) _ h₃ in
      let same = unless-ok (not (adv.message_type == 2)) wrong_type (ok adv) m at_m in
      let made = ok-injective h₄ in
      let asking : Message Opt = add_option k (requested (23 ∷ 24 ∷ [])) (
        add_option k ia
          (add_option k elapsed (add_option k sid (add_option k cid (answer k 3 m))))) in
      let (typed, identified) = kept (get_one_option k 16 m) asking in
      (
        sym (ap (λ (d : Message Opt). d.message_type) made) ∙ typed,
        sym (ap (λ (d : Message Opt). d.transaction_id) made)
            ∙ identified
            ∙ sym (ap (λ (d : Message Opt). d.transaction_id) (ok-injective same.1)),
      )
