-- ===== src/Nclient4/Invariant.antt =====
-- dhcpv4/nclient4/client.go: what holds of the pending transactions and their channels at any time.
use dhcp.Prelude.{
  ℕ, ◌≡◌, ◌≢◌, ◌≤◌, ◌<◌, refl, sym, ap, ◌∙◌, Bool, true, false, not, ◌&&◌, ◌||◌, List, [], ◌∷◌,
  ◌++◌, Option, none, some, ◌==◌, ltb, if◌then◌else◌, length, Bytes, Slice, equal, All, All-append,
  arith, Bool-cases, inl, inr, ==_iff, equal_iff,
}
use mathlib.Core.Path.{subst}
use mathlib.Core.Option.{some-injective}
use dhcp.Dhcpv4.Packet.{Dhcpv4}
use dhcp.Nclient4.{
  Channel, Client, cancelling, cancelled, set_pending, set_channel, change_channel, close_pending,
  accepts, select, select_pending, receive, register_if, send, close_done, remove_if, remove, Step,
  receives, sends, starts_cancel, ends_cancel, takes, Reach, start, later, new_client, is_done,
}

-- A message that the receive loop may put into the channel of a transaction.
pub record IsFor (hw : Slice) (x : Bytes) (msg : Dhcpv4) : Type 0 where
  pub accepted : accepts hw msg ≡ true
  pub transaction : msg.transaction_id ≡ x

-- A channel is closed once at most, and all that is in it is for its transaction.
pub record IsSound (hw : Slice) (ch : Channel) : Type 0 where
  pub closed_once : ch.closes ≤ 1
  pub messages : All (IsFor hw ch.xid) ch.buffer

-- A channel that is pending: it is open, for its transaction, and its owner has not cancelled it.
pub record IsPending (x : Bytes) (ch : Channel) : Type 0 where
  pub transaction : ch.xid ≡ x
  pub not_closed : ch.closes ≡ 0
  pub not_cancelled : ch.phase ≢ cancelled

pub record Invariant (c : Client) : Type 0 where
  pub sound : (i : ℕ) → IsSound c.iface_hw_addr (c.channels i)
  pub live : (x : Bytes) (i : ℕ) → c.pending x ≡ some i → (i < c.next) × IsPending x (c.channels i)

-- One channel of many that has been set.
at_channel :
    (P : Channel → Type 0) (i j : ℕ) (v : Channel) (cs : ℕ → Channel)
    → (i ≡ j → P v)
    → (i ≢ j → P (cs j))
    → P (set_channel i v cs j)
at_channel P i j v cs h k = elim (Bool-cases (i == j)) [
  | inl p ↦ rw p (h ((==_iff i j).0 p))
  | inr p ↦ rw p (k (λ q. cc (sym ((==_iff i j).1 q) ∙ p)))
]

removed :
    (x y : Bytes) (i : ℕ) (p : Bytes → Option ℕ)
    → set_pending x none p y ≡ some i
    → (p y ≡ some i) × (x ≢ y)
removed x y i p h = elim (Bool-cases (equal x y)) [
  | inl e ↦ cc (rw e at h)
  | inr e ↦ (rw e at h, (λ q. cc (sym ((equal_iff x y).1 q) ∙ e)))
]

module _ (c : Client) (v : Invariant c) where
  -- A channel of which nothing is changed that makes it pending.
  change-Invariant :
      (i : ℕ) (f : Channel → Channel)
      → IsSound c.iface_hw_addr (f (c.channels i))
      → ((x : Bytes) → c.pending x ≡ some i → IsPending x (f (c.channels i)))
      → Invariant (change_channel i f c)
  change-Invariant i f h k = record {
    sound = λ j.
        at_channel (IsSound c.iface_hw_addr) i j (f (c.channels i)) c.channels (λ e. h)
          (λ n. v.sound j);
    live = λ x j p.
        let (old, is) = v.live x j p in
        (
          old,
          at_channel (IsPending x) i j (f (c.channels i)) c.channels
              (λ e. k x (p ∙ ap some (sym e))) (λ n. is),
        );
  }

  close_pending-Invariant :
      (x : Bytes) (i : ℕ) → c.pending x ≡ some i → Invariant (close_pending x i c)
  close_pending-Invariant x i p =
      let is = (v.live x i p).1 in
      let zero_closes = is.not_closed in
      record {
        sound = λ j.
            at_channel (IsSound c.iface_hw_addr) i j _ c.channels
              (λ e. record { closed_once = omega arith; messages = (v.sound i).messages })
              (λ n. v.sound j);
        live = λ y j q.
            let (was, other) = removed x y j c.pending q in
            let (old, isy) = v.live y j was in
            (
              old,
              at_channel (IsPending y) i j _ c.channels
                  (λ e.
                    let again = (v.live y i (was ∙ ap some (sym e))).1 in
                    absurd (other (sym is.transaction ∙ again.transaction)))
                  (λ n. isy),
            );
      }

  push-Invariant :
      (i : ℕ) (msg : Dhcpv4)
      → accepts c.iface_hw_addr msg ≡ true
      → c.pending msg.transaction_id ≡ some i
      → Invariant (change_channel i (λ ch. record ch { buffer = ch.buffer ++ msg ∷ [] }) c)
  push-Invariant i msg a p =
      let is = (v.live msg.transaction_id i p).1 in
      let ch = c.channels i in
      change-Invariant i (λ ch. record ch { buffer = ch.buffer ++ msg ∷ [] })
        (record {
          closed_once = (v.sound i).closed_once;
          messages =
              All-append (IsFor c.iface_hw_addr ch.xid) ch.buffer (msg ∷ []) (v.sound i).messages
                (record { accepted = a; transaction = sym is.transaction }, tt);
        })
        (λ x q.
          let was = (v.live x i q).1 in
          record {
            transaction = was.transaction;
            not_closed = was.not_closed;
            not_cancelled = was.not_cancelled;
          })

  select-Invariant :
      (choose_done : Bool) (msg : Dhcpv4) (i : ℕ) (d : Client)
      → accepts c.iface_hw_addr msg ≡ true
      → c.pending msg.transaction_id ≡ some i
      → select choose_done c msg i ≡ some d
      → Invariant d
  unfolding select
  select-Invariant choose_done msg i d a p h =
      go
        (is_done (c.channels i).phase
          && (choose_done || not (ltb (length (c.channels i).buffer) c.buffer_cap)))
        (ltb (length (c.channels i).buffer) c.buffer_cap) h
    where
      go :
          (first room : Bool)
          → (if first
              then some (close_pending msg.transaction_id i c)
              else if room
              then some (change_channel i (λ ch. record ch { buffer = ch.buffer ++ msg ∷ [] }) c)
              else none)
            ≡ some d
          → Invariant d
      go true room e =
          subst Invariant (some-injective _ _ e) (close_pending-Invariant msg.transaction_id i p)
      go false true e = subst Invariant (some-injective _ _ e) (push-Invariant i msg a p)
      go false false e = cc

  receive-Invariant :
      (choose_done : Bool) (msg : Dhcpv4) (d : Client)
      → receive choose_done c msg ≡ some d
      → Invariant d
  unfolding receive
  receive-Invariant choose_done msg d h =
      go (accepts c.iface_hw_addr msg) refl (c.pending msg.transaction_id) refl h
    where
      go :
          (a : Bool)
          → accepts c.iface_hw_addr msg ≡ a
          → (o : Option ℕ) → c.pending msg.transaction_id ≡ o
          → (if a then select_pending choose_done c msg o else some c) ≡ some d
          → Invariant d
      go false a o p e = subst Invariant (some-injective _ _ e) v
      go true a none p e = subst Invariant (some-injective _ _ e) v
      go true a (some i) p e = select-Invariant choose_done msg i d a p e

  send-Invariant : (x : Bytes) (i : ℕ) (d : Client) → send x c ≡ some (i, d) → Invariant d
  unfolding send
  send-Invariant x i d h = go (c.pending x) h
    where
      go : (o : Option ℕ) → register_if x c o ≡ some (i, d) → Invariant d
      go (some j) e = cc
      go none e = subst Invariant (ap (λ t. t.1) (some-injective _ _ e)) (record {
        sound = λ j.
            at_channel (IsSound c.iface_hw_addr) c.next j _ c.channels
              (λ q. record { closed_once = omega arith; messages = tt }) (λ n. v.sound j);
        live = λ y j q. elim (Bool-cases (equal x y)) [
          | inl eq ↦
              let same : c.next ≡ j = some-injective _ _ (rw eq at q) in
              (
                omega arith,
                at_channel (IsPending y) c.next j _ c.channels
                    (λ z. record {
                      transaction = (equal_iff x y).0 eq;
                      not_closed = refl;
                      not_cancelled = λ z. cc;
                    })
                    (λ n. absurd (n same)),
              )
          | inr ne ↦
              let (old, is) = v.live y j (rw ne at q) in
              (
                omega arith,
                at_channel (IsPending y) c.next j _ c.channels (λ z. absurd (omega arith))
                    (λ n. is),
              )
        ];
      })

  cancelled-Invariant :
      (i : ℕ)
      → ((x : Bytes) → c.pending x ≢ some i)
      → Invariant (change_channel i (λ ch. record ch { phase = cancelled }) c)
  cancelled-Invariant i h =
      change-Invariant i (λ ch. record ch { phase = cancelled })
        (record { closed_once = (v.sound i).closed_once; messages = (v.sound i).messages })
        (λ x p. absurd (h x p))

  close_done-Invariant : (i : ℕ) → Invariant (close_done i c)
  unfolding close_done
  close_done-Invariant i =
      change-Invariant i (λ ch. record ch { phase = cancelling })
        (record { closed_once = (v.sound i).closed_once; messages = (v.sound i).messages })
        (λ x p.
          let was = (v.live x i p).1 in
          record {
            transaction = was.transaction;
            not_closed = was.not_closed;
            not_cancelled = λ z. cc;
          })

  takes-Invariant :
      (i : ℕ) (msg : Dhcpv4) (rest : List Dhcpv4)
      → (c.channels i).buffer ≡ msg ∷ rest
      → Invariant (change_channel i (λ ch. record ch { buffer = rest }) c)
  takes-Invariant i msg rest e =
      change-Invariant i (λ ch. record ch { buffer = rest })
        (record {
          closed_once = (v.sound i).closed_once;
          messages =
              (subst (All (IsFor c.iface_hw_addr (c.channels i).xid)) e (v.sound i).messages).1;
        })
        (λ x p.
          let was = (v.live x i p).1 in
          record {
            transaction = was.transaction;
            not_closed = was.not_closed;
            not_cancelled = was.not_cancelled;
          })

-- When the transaction of a channel is not pending, no transaction has the channel.
unpending :
    (c : Client) (v : Invariant c) (i : ℕ) (x : Bytes)
    → (c.channels i).xid ≡ x
    → c.pending x ≡ none
    → (y : Bytes) → c.pending y ≢ some i
unpending c v i x t none_there y p =
    let same : y ≡ x = sym (v.live y i p).1.transaction ∙ t in
    cc (sym none_there ∙ ap c.pending (sym same) ∙ p)

remove-Invariant : (c : Client) (v : Invariant c) (i : ℕ) → Invariant (remove i c)
unfolding remove
remove-Invariant c v i = go (c.pending (c.channels i).xid) refl
  where
    go :
        (o : Option ℕ)
        → c.pending (c.channels i).xid ≡ o
        → Invariant (
            change_channel i
              (λ ch. record ch { phase = cancelled })
              (remove_if (c.channels i).xid c o))
    go none p = cancelled-Invariant c v i (unpending c v i (c.channels i).xid refl p)
    go (some j) p =
        let x = (c.channels i).xid in
        let d = close_pending x j c in
        let w = close_pending-Invariant c v x j p in
        let kept : (d.channels i).xid ≡ x =
          at_channel (λ ch. ch.xid ≡ x) j i _ c.channels (λ e. ap (λ k. (c.channels k).xid) e)
            (λ n. refl) in
        let gone : d.pending x ≡ none = rw ((equal_iff x x).1 refl) refl in
        cancelled-Invariant d w i (unpending d w i x kept gone)

Step-Invariant : (c d : Client) → Invariant c → Step c d → Invariant d
Step-Invariant c d v (receives choose_done msg e) = receive-Invariant c v choose_done msg d e
Step-Invariant c d v (sends x i e) = send-Invariant c v x i d e
Step-Invariant c d v (starts_cancel i h p) = close_done-Invariant c v i
Step-Invariant c d v (ends_cancel i h p) = remove-Invariant c v i
Step-Invariant c d v (takes i msg rest e) = takes-Invariant c v i msg rest e

new_client-Invariant : (hw : Slice) (cap : ℕ) → Invariant (new_client hw cap)
unfolding new_client
new_client-Invariant hw cap = record {
  sound = λ i. record { closed_once = omega arith; messages = tt };
  live = λ x i p. cc;
}

-- At any time, whatever calls and messages come in what order, no channel has been closed twice,
-- which would panic; every message in a channel is a reply to this interface with the channel's
-- transaction; and what is pending is a channel of that transaction that is open and that its
-- owner has not cancelled.
pub reach-Invariant :
    (hw : Slice) (cap : ℕ) (c : Client) → Reach (new_client hw cap) c → Invariant c
reach-Invariant hw cap c start = new_client-Invariant hw cap
reach-Invariant hw cap c (later {d} r s) = Step-Invariant d c (reach-Invariant hw cap d r) s
