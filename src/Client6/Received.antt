-- ===== src/Client6/Received.antt =====
-- dhcpv6/client6/client.go: which of the datagrams is the reply.
use dhcp.Prelude.{
  ◌↔◌, Bool, ◌&&◌, ◌||◌, ◌==◌, ==_iff, equal_iff, arith, ℕ, ◌≡◌, ◌≢◌, ◌⊎◌, refl, sym, ap, ◌∙◌, true,
  false, List, [], ◌∷◌, ◌++◌, Bytes, Result, ok, err, fault, Fault, if◌then◌else◌, Bool-cases, inl,
  inr, ok-injective, All,
}
use dhcp.Uio.{Uio}
use dhcp.Dhcpv6.Values
use dhcp.Dhcpv6.Packet.{Packet, Opts, message, relay}
use dhcp.Dhcpv6.Relaying.{packet_type}
use dhcp.Dhcpv6.Packet.Parse.{packet_from_bytes}
use dhcp.Dhcpv6.Packet.Termination.{packet_from_bytes-ne-fault}
use dhcp.Client6.{Error, is_reply, receive, same_transaction, message_type_none}

-- An answer to the packet that was sent: of two plain messages both have the same transaction, and
-- the answer has the type that is waited for, if one is.
pub record IsReplyTo (packet : Packet) (expected : ℕ) (d : Packet) : Type 0 where
  pub transaction :
      (t t₂ : ℕ) (tid tid₂ : Bytes) (o o₂ : Opts)
      → packet ≡ message t tid o
      → d ≡ message t₂ tid₂ o₂
      → tid ≡ tid₂
  pub typed : (expected ≡ message_type_none) ⊎ (packet_type d ≡ expected)

same_transaction-IsReplyTo :
    (packet : Packet) (expected : ℕ) (d : Packet)
    → IsReplyTo packet expected d
    → same_transaction packet d ≡ true
same_transaction-IsReplyTo (message t tid o) expected (message t₂ tid₂ o₂) r =
    (equal_iff tid tid₂).1 (r.transaction t t₂ tid tid₂ o o₂ refl refl)
same_transaction-IsReplyTo (message t tid o) expected (relay t₂ hops link peer o₂) r = refl
same_transaction-IsReplyTo (relay t hops link peer o) expected d r = refl

same_transaction-tid :
    (packet d : Packet) (t t₂ : ℕ) (tid tid₂ : Bytes) (o o₂ : Opts)
    → same_transaction packet d ≡ true
    → packet ≡ message t tid o
    → d ≡ message t₂ tid₂ o₂
    → tid ≡ tid₂
same_transaction-tid packet d t t₂ tid tid₂ o o₂ h p q =
    (equal_iff tid tid₂).0 (sym (λ i. same_transaction (p i) (q i)) ∙ h)

both : (a b : Bool) → a && b ≡ true → (a ≡ true) × (b ≡ true)
both true b h = (refl, h)
both false b h = cc

-- `is_reply` decides it.
is_reply-IsReplyTo :
    (packet : Packet) (expected : ℕ) (d : Packet)
    → (is_reply packet expected d ≡ true) ↔ IsReplyTo packet expected d
unfolding is_reply
is_reply-IsReplyTo packet expected d = (
  (λ h.
      let (same, type_ok) =
        both (same_transaction packet d) (expected == 0 || packet_type d == expected) h in
      record {
        transaction =
            λ t t₂ tid tid₂ o o₂ p q. same_transaction-tid packet d t t₂ tid tid₂ o o₂ same p q;
        typed = elim (Bool-cases (expected == 0)) [
          | inl p ↦ inl ((==_iff expected 0).0 p)
          | inr p ↦ inr ((==_iff (packet_type d) expected).0 (rw p at type_ok))
        ];
      }),
  (λ r.
      let same = same_transaction-IsReplyTo packet expected d r in
      elim r.typed [
        | inl p ↦ rw (same, (==_iff expected 0).1 p) refl
        | inr p ↦ let right = (==_iff (packet_type d) expected).1 p in ground (arith, same, right)
      ]),
)

no_reply :
    (packet : Packet) (expected : ℕ) (d : Packet)
    → (IsReplyTo packet expected d → ⊥)
    → is_reply packet expected d ≡ false
no_reply packet expected d h = elim (Bool-cases (is_reply packet expected d)) [
  | inl p ↦ absurd (h ((is_reply-IsReplyTo packet expected d).0 p))
  | inr p ↦ p
]

module _ (u : Uio) where
  -- A datagram that is no packet, or no answer to the packet that was sent.
  abbrev pub IsSkipped : Packet → ℕ → Bytes → Type 0
  IsSkipped packet expected datagram =
      ((e : Values.Error) × (packet_from_bytes u datagram ≡ err e))
      ⊎ ((d : Packet) × (packet_from_bytes u datagram ≡ ok d) × (IsReplyTo packet expected d → ⊥))

  -- The datagram is the first of the list that is not skipped, and holds the reply.
  pub record IsRead (packet : Packet) (expected : ℕ) (datagrams : List Bytes) (d : Packet)
      : Type 0 where
    pub before : List Bytes
    pub datagram : Bytes
    pub after : List Bytes
    pub in_order : datagrams ≡ before ++ datagram ∷ after
    pub skipped : All (IsSkipped packet expected) before
    pub parsed : packet_from_bytes u datagram ≡ ok d
    pub accepted : IsReplyTo packet expected d

  skip :
      {packet : Packet} {expected : ℕ} {datagrams : List Bytes} {d : Packet} (datagram : Bytes)
      → IsSkipped packet expected datagram
      → IsRead packet expected datagrams d
      → IsRead packet expected (datagram ∷ datagrams) d
  skip datagram s r = record {
    before = datagram ∷ r.before;
    datagram = r.datagram;
    after = r.after;
    in_order = ap (λ (ds : List Bytes). datagram ∷ ds) r.in_order;
    skipped = (s, r.skipped);
    parsed = r.parsed;
    accepted = r.accepted;
  }

  module _ {S : Type 0} where
    -- What a round does, by how its datagram parses.
    abbrev pub after_parse :
        Packet → ℕ → Result (Error S) Packet → Result Values.Error Packet → Result (Error S) Packet
    after_parse packet expected later parsed = elim parsed [
      | ok adv ↦ if is_reply packet expected adv then ok adv else later
      | err e ↦ later
      | fault f ↦ fault f
    ]

    IsRead-after_parse :
        (packet : Packet) (expected : ℕ) (datagram : Bytes) (datagrams : List Bytes) (d : Packet)
        (later : Result (Error S) Packet)
        → (later ≡ ok d → IsRead packet expected datagrams d)
        → (r : Result Values.Error Packet) → packet_from_bytes u datagram ≡ r
        → after_parse packet expected later r ≡ ok d
        → IsRead packet expected (datagram ∷ datagrams) d
    IsRead-after_parse packet expected datagram datagrams d later rest (err e) at k =
        skip datagram (inl (e, at)) (rest k)
    IsRead-after_parse packet expected datagram datagrams d later rest (fault f) at k = cc
    IsRead-after_parse packet expected datagram datagrams d later rest (ok adv) at k =
        elim (Bool-cases (is_reply packet expected adv)) [
          | inl p ↦
              let same : adv ≡ d = ok-injective (rw p at k) in
              record {
                before = [];
                datagram = datagram;
                after = datagrams;
                in_order = refl;
                skipped = tt;
                parsed = at ∙ ap ok same;
                accepted =
                    (is_reply-IsReplyTo packet expected d).0
                      (ap (is_reply packet expected) (sym same) ∙ p);
              }
          | inr p ↦
              skip datagram
                (inr (adv, at, (λ r. cc (sym p ∙ (is_reply-IsReplyTo packet expected adv).1 r))))
                (rest (rw p at k))
        ]

    -- The reply that is given back is that of the first datagram that parses and answers the packet
    -- that was sent: if both are plain messages, they have the same transaction, and if a type is
    -- waited for, the reply has it. Every datagram before that one is passed over.
    pub receive_sound :
        (packet : Packet) (expected : ℕ) (datagrams : List Bytes) (failure : S) (d : Packet)
        → receive u packet expected datagrams failure ≡ ok d
        → IsRead packet expected datagrams d
    unfolding receive
    receive_sound packet expected [] failure d h = cc
    receive_sound packet expected (datagram ∷ datagrams) failure d h =
        IsRead-after_parse packet expected datagram datagrams d
          (receive u packet expected datagrams failure)
          (receive_sound packet expected datagrams failure d) (packet_from_bytes u datagram) refl h

    after_parse-IsSkipped :
        (packet : Packet) (expected : ℕ) (datagram : Bytes) (later : Result (Error S) Packet)
        → IsSkipped packet expected datagram
        → after_parse packet expected later (packet_from_bytes u datagram) ≡ later
    after_parse-IsSkipped packet expected datagram later (inl (e, at)) = rw at refl
    after_parse-IsSkipped packet expected datagram later (inr (d, at, p)) =
        rw (at, no_reply packet expected d p) refl

    after_parse-accepted :
        (packet : Packet) (expected : ℕ) (later : Result (Error S) Packet)
        (r : Result Values.Error Packet) (d : Packet)
        → r ≡ ok d
        → is_reply packet expected d ≡ true
        → after_parse packet expected later r ≡ ok d
    after_parse-accepted packet expected later r d at p = rw (at, p) refl

    -- If the reply is among the datagrams, behind others that are all skipped, it is given back.
    pub receive-skipped :
        (packet : Packet) (expected : ℕ) (before : List Bytes) (datagram : Bytes)
        (after : List Bytes) (failure : S) (d : Packet)
        → All (IsSkipped packet expected) before
        → packet_from_bytes u datagram ≡ ok d
        → IsReplyTo packet expected d
        → receive u packet expected (before ++ datagram ∷ after) failure ≡ ok d
    unfolding receive
    receive-skipped packet expected [] datagram after failure d s at p =
        after_parse-accepted packet expected (receive u packet expected after failure)
          (packet_from_bytes u datagram) d at ((is_reply-IsReplyTo packet expected d).1 p)
    receive-skipped packet expected (x ∷ before) datagram after failure d s at p =
        after_parse-IsSkipped packet expected x _ s.0
        ∙ receive-skipped packet expected before datagram after failure d s.1 at p

    after_parse-ne-fault :
        (packet : Packet) (expected : ℕ) (later : Result (Error S) Packet)
        (r : Result Values.Error Packet) (f : Fault)
        → ((g : Fault) → r ≢ fault g)
        → later ≢ fault f
        → after_parse packet expected later r ≢ fault f
    after_parse-ne-fault packet expected later (ok adv) f h k =
        elim (Bool-cases (is_reply packet expected adv)) [ inl p ↦ rw p (λ q. cc) | inr p ↦ rw p k ]
    after_parse-ne-fault packet expected later (err e) f h k = k
    after_parse-ne-fault packet expected later (fault g) f h k = absurd (h g refl)

    -- The wait ends whatever comes, and without a panic.
    pub receive-ne-fault :
        (packet : Packet) (expected : ℕ) (datagrams : List Bytes) (failure : S) (f : Fault)
        → receive u packet expected datagrams failure ≢ fault f
    unfolding receive
    receive-ne-fault packet expected [] failure f = λ p. cc
    receive-ne-fault packet expected (datagram ∷ datagrams) failure f =
        after_parse-ne-fault packet expected (receive u packet expected datagrams failure)
          (packet_from_bytes u datagram) f (packet_from_bytes-ne-fault u datagram)
          (receive-ne-fault packet expected datagrams failure f)
