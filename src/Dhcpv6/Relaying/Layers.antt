-- ===== src/Dhcpv6/Relaying/Layers.antt =====
-- dhcpv6/dhcpv6relay.go: relay messages around a packet, one layer for each place, told without the
-- functions of the program.

use dhcp.Prelude.{
  ℕ, zero, suc, ◌≡◌, ◌≢◌, ==_ne, ==_iff, ◌<◌, refl, ap, true, false, List, [], ◌∷◌, Option, none,
  some, All, Slice, ok, arith,
}
use dhcp.Uio.{Uio}
use dhcp.Dhcpv6.Options.{get_one, add}
use dhcp.Dhcpv6.Relay.{is_relay_type}
use dhcp.Dhcpv6.Packet.{
  Packet, Opt, Opts, message, relay, relay_msg, nil, cons, to_list, of_list, option_code,
}
use dhcp.Dhcpv6.Packet.Parse.{kind}
use dhcp.Dhcpv6.Packet.Depth.{depth_packet}
use dhcp.Dhcpv6.Relaying.Termination.{decapsulate_relay-depth}
use dhcp.Dhcpv6.Relaying.{
  Layer, is_relay, add_option, add_if_set, get_one_option, decapsulate_relay, encapsulate_relay,
  next_hop, collect, wrap, decapsulate_times, last_relay, decapsulate_relay_index, pos, negsuc,
}

pub to_list-of_list : (o : List Opt) → to_list (of_list o) ≡ o
to_list-of_list [] = refl
to_list-of_list (x ∷ o) = ap (λ t. x ∷ t) (to_list-of_list o)

-- An option of a code, if there is one.
abbrev pub HasCode : ℕ → Option Opt → Type 0
HasCode c none = Unit
HasCode c (some x) = option_code x ≡ c

abbrev pub IsPlaced : Layer → Type 0
IsPlaced l = HasCode 18 l.interface_id × HasCode 37 l.remote_id

-- The first option of a code, no option of a code, and what there is of a code.
pub data IsFirstOf (c : ℕ) (x : Opt) : Opts → Type 0 where
  here : {o : Opts} → option_code x ≡ c → IsFirstOf c x (cons x o)
  there : {y : Opt} {o : Opts} → option_code y ≢ c → IsFirstOf c x o → IsFirstOf c x (cons y o)

abbrev pub Lacks : ℕ → Opts → Type 0
Lacks c nil = Unit
Lacks c (cons y o) = (option_code y ≢ c) × Lacks c o

abbrev pub Holds : ℕ → Opts → Option Opt → Type 0
Holds c o none = Lacks c o
Holds c o (some x) = IsFirstOf c x o

-- A relay message with a packet inside, whatever its type and its other options are.
pub data IsInside (d : Packet) : Packet → Type 0 where
  inside :
      {t hops : ℕ} {link peer : Slice} {o : Opts}
      → IsFirstOf 9 (relay_msg d) o
      → IsInside d (relay t hops link peer o)

-- A packet, and what is left when so many layers of relays are taken off.
pub data IsStripped : ℕ → Packet → Packet → Type 0 where
  whole : {p : Packet} → IsStripped 0 p p
  off : {n : ℕ} {p d e : Packet} → IsInside d p → IsStripped n d e → IsStripped (suc n) p e

-- A packet that is no relay message, in layers with these places, and with types of a kind.
pub data IsAround (P : ℕ → Type 0) (m : Packet) : List Layer → Packet → Type 0 where
  core : is_relay m ≡ false → IsAround P m [] m
  within :
      {t hops : ℕ} {link peer : Slice} {o : Opts} {d : Packet} {i r : Option Opt} {ls : List Layer}
      → P t
      → IsFirstOf 9 (relay_msg d) o
      → Holds 18 o i
      → Holds 37 o r
      → IsAround P m ls d
      → IsAround P m
          (record { link = link; peer = peer; interface_id = i; remote_id = r } ∷ ls)
          (relay t hops link peer o)

Holds-HasCode : (c : ℕ) (o : Opts) (v : Option Opt) → Holds c o v → HasCode c v
Holds-HasCode c o none h = tt
Holds-HasCode c o (some x) h = code_of o h
  where
    code_of : (o : Opts) → IsFirstOf c x o → option_code x ≡ c
    code_of nil w = elim w [ ]
    code_of (cons x o) (IsFirstOf.here e) = e
    code_of (cons y o) (IsFirstOf.there n f) = code_of o f

pub IsAround-IsPlaced :
    (P : ℕ → Type 0) (m : Packet) (ls : List Layer) (p : Packet)
    → IsAround P m ls p
    → All IsPlaced ls
IsAround-IsPlaced P m [] p w = tt
IsAround-IsPlaced P m (l ∷ ls) p (IsAround.within {o = o} {d = d} t f hi hr w) =
    ((Holds-HasCode 18 o _ hi, Holds-HasCode 37 o _ hr), IsAround-IsPlaced P m ls d w)

module _ (u : Uio) where
  -- A layer around a packet, and all layers.
  abbrev pub put : Layer → Packet → Packet
  put l d =
      add_if_set u l.remote_id
        (add_if_set u l.interface_id (relay 13 (next_hop d) l.link l.peer (cons (relay_msg d) nil)))

  abbrev pub around : List Layer → Packet → Packet
  around [] m = m
  around (l ∷ ls) m = put l (around ls m)

  -- `EncapsulateRelay` and the options of the place put a layer around a packet.
  pub wrap-around : (ls : List Layer) (m : Packet) → wrap u ls m ≡ ok (around ls m)
  unfolding wrap encapsulate_relay add_option is_relay_type add
  wrap-around [] m = refl
  wrap-around (l ∷ ls) m = rw (wrap-around ls m) refl

  get_one-Lacks : (c : ℕ) (o : Opts) → Lacks c o → get_one (kind u 0) c (to_list o) ≡ none
  unfolding get_one
  get_one-Lacks c nil h = refl
  get_one-Lacks c (cons y o) h = rw (==_ne (option_code y) c h.0) (get_one-Lacks c o h.1)

  get_one-IsFirstOf :
      (c : ℕ) (x : Opt) (o : Opts) → IsFirstOf c x o → get_one (kind u 0) c (to_list o) ≡ some x
  unfolding get_one
  get_one-IsFirstOf c x nil w = elim w [ ]
  get_one-IsFirstOf c x (cons y o) (IsFirstOf.here e) = rw ((==_iff (option_code x) c).1 e) refl
  get_one-IsFirstOf c x (cons y o) (IsFirstOf.there n f) =
      rw (==_ne (option_code y) c n) (get_one-IsFirstOf c x o f)

  get_one-Holds :
      (c : ℕ) (o : Opts) (v : Option Opt) → Holds c o v → get_one (kind u 0) c (to_list o) ≡ v
  get_one-Holds c o none h = get_one-Lacks c o h
  get_one-Holds c o (some x) h = get_one-IsFirstOf c x o h

  pub decapsulate_relay-IsInside :
      (d p : Packet) → IsInside d p → (is_relay p ≡ true) × (decapsulate_relay u p ≡ ok d)
  unfolding decapsulate_relay is_relay get_one_option
  decapsulate_relay-IsInside d (message t tid o) w = elim w [ ]
  decapsulate_relay-IsInside d (relay t hops link peer o) (IsInside.inside f) =
      (refl, rw (get_one-IsFirstOf 9 (relay_msg d) o f) refl)

  deeper : (d p : Packet) → IsInside d p → depth_packet d < depth_packet p
  deeper d p w =
      let (relays, found) = decapsulate_relay-IsInside d p w in
      decapsulate_relay-depth u p d relays found

  IsAround-is_relay :
      (P : ℕ → Type 0) (m : Packet) (l : Layer) (ls : List Layer) (p : Packet)
      → IsAround P m (l ∷ ls) p
      → is_relay p ≡ true
  unfolding is_relay
  IsAround-is_relay P m l ls (message t tid o) w = elim w [ ]
  IsAround-is_relay P m l ls (relay t hops link peer o) (IsAround.within q g hi hr w) = refl

  -- The layers around a message are what is collected.
  pub collect-IsAround :
      (P : ℕ → Type 0) (f : ℕ) (m : Packet) (l : Layer) (ls : List Layer) (p : Packet)
      → IsAround P m (l ∷ ls) p
      → depth_packet p < f
      → collect u f p ≡ ok (l ∷ ls)
  unfolding collect get_one_option
  collect-IsAround P zero m l ls p w less = absurd (omega arith)
  collect-IsAround P (suc f) m l [] (message t tid o) w less = elim w [ ]
  collect-IsAround P (suc f) m l (l₁ ∷ ls) (message t tid o) w less = elim w [ ]
  collect-IsAround P (suc f) m l [] (relay t hops link peer o)
        (IsAround.within {d = d} q g hi hr (IsAround.core c)) less =
      let found = (decapsulate_relay-IsInside d (relay t hops link peer o) (IsInside.inside g)).1 in
      rw (found, c, get_one-Holds 18 o _ hi, get_one-Holds 37 o _ hr) refl
  collect-IsAround P (suc f) m l (l₁ ∷ ls) (relay t hops link peer o)
        (IsAround.within {d = d} q g hi hr w) less =
      let found = (decapsulate_relay-IsInside d (relay t hops link peer o) (IsInside.inside g)).1 in
      let below = deeper d (relay t hops link peer o) (IsInside.inside g) in
      rw
        (
          found,
          IsAround-is_relay P m l₁ ls d w,
          collect-IsAround P f m l₁ ls d w (omega arith),
          get_one-Holds 18 o _ hi,
          get_one-Holds 37 o _ hr,
        )
        refl

  put-IsAround :
      {m : Packet} {ls : List Layer} (l : Layer) (d : Packet)
      → IsAround (λ t. t ≡ 13) m ls d
      → IsPlaced l
      → IsAround (λ t. t ≡ 13) m (l ∷ ls) (put l d)
  unfolding add_option add option_code
  put-IsAround {m} {ls} l d w h = go l.interface_id l.remote_id h.0 h.1
    where
      go :
          (i r : Option Opt)
          → HasCode 18 i
          → HasCode 37 r
          → IsAround
              (λ t. t ≡ 13)
              m
              (record { link = l.link; peer = l.peer; interface_id = i; remote_id = r } ∷ ls)
              (put (record { link = l.link; peer = l.peer; interface_id = i; remote_id = r }) d)
      go none none hi hr =
          IsAround.within refl (IsFirstOf.here refl) (omega arith, tt) (omega arith, tt) w
      go (some x) none hi hr =
          IsAround.within refl (IsFirstOf.here refl)
            (IsFirstOf.there (omega arith) (IsFirstOf.here hi))
            (omega arith, (omega (arith, hi), tt)) w
      go none (some y) hi hr =
          IsAround.within refl (IsFirstOf.here refl) (omega arith, (omega (arith, hr), tt))
            (IsFirstOf.there (omega arith) (IsFirstOf.here hr)) w
      go (some x) (some y) hi hr =
          IsAround.within refl (IsFirstOf.here refl)
            (IsFirstOf.there (omega arith) (IsFirstOf.here hi))
            (IsFirstOf.there (omega arith)
              (IsFirstOf.there (omega (arith, hi)) (IsFirstOf.here hr)))
            w

  -- What is put around a message is around it, in relay messages of type RELAY-REPL.
  pub around-IsAround :
      (ls : List Layer) (m : Packet)
      → All IsPlaced ls
      → is_relay m ≡ false
      → IsAround (λ t. t ≡ 13) m ls (around ls m)
  around-IsAround [] m h r = IsAround.core r
  around-IsAround (l ∷ ls) m h r = put-IsAround l (around ls m) (around-IsAround ls m h.1 r) h.0

  decapsulate_times-IsStripped :
      (n : ℕ) (p d : Packet) → IsStripped n p d → decapsulate_times u n p ≡ ok d
  unfolding decapsulate_times
  decapsulate_times-IsStripped zero p d IsStripped.whole = refl
  decapsulate_times-IsStripped (suc n) p d (IsStripped.off {d = e} w more) =
      rw (decapsulate_relay-IsInside e p w).1 (decapsulate_times-IsStripped n e d more)

  pub IsStripped-is_relay :
      (n : ℕ) (p e m : Packet) → IsStripped n p e → IsInside m e → is_relay p ≡ true
  IsStripped-is_relay zero p e m IsStripped.whole w = (decapsulate_relay-IsInside m p w).0
  IsStripped-is_relay (suc n) p e m (IsStripped.off {d = d} v more) w =
      (decapsulate_relay-IsInside d p v).0

  last_relay-IsStripped :
      (f n : ℕ) (p e m : Packet)
      → IsStripped n p e
      → IsInside m e
      → is_relay m ≡ false
      → depth_packet p < f
      → last_relay u f p ≡ ok e
  unfolding last_relay
  last_relay-IsStripped zero n p e m s w r less = absurd (omega arith)
  last_relay-IsStripped (suc f) zero p e m IsStripped.whole w r less =
      rw ((decapsulate_relay-IsInside m p w).1, r) refl
  last_relay-IsStripped (suc f) (suc n) p e m (IsStripped.off {d = d} v more) w r less =
      let below = deeper d p v in
      rw ((decapsulate_relay-IsInside d p v).1, IsStripped-is_relay n d e m more w)
        (last_relay-IsStripped f n d e m more w r (omega arith))

  pub decapsulate_relay_index_last :
      (k : ℕ) (p e m : Packet)
      → IsStripped k p e
      → IsInside m e
      → is_relay m ≡ false
      → decapsulate_relay_index u p (negsuc 0) ≡ ok e
  unfolding decapsulate_relay_index
  decapsulate_relay_index_last k p e m z w r =
      rw (IsStripped-is_relay k p e m z w)
        (last_relay-IsStripped (suc (depth_packet p)) k p e m z w r (omega arith))

  -- Of a packet in layers of relays, of any types and with any options besides, the index `n` gives
  -- what is left when `n + 1` layers are taken off, and the index -1 gives the innermost relay
  -- message: the one that holds a packet that is no relay message.
  pub decapsulate_relay_index-IsStripped :
      (n k : ℕ) (p d e m : Packet)
      → IsStripped (suc n) p d
      → IsStripped k p e
      → IsInside m e
      → is_relay m ≡ false
      → (decapsulate_relay_index u p (pos n) ≡ ok d)
        × (decapsulate_relay_index u p (negsuc 0) ≡ ok e)
  unfolding decapsulate_relay_index
  decapsulate_relay_index-IsStripped n k p d e m s z w r =
      let relays = IsStripped-is_relay k p e m z w in
      (
        rw relays (decapsulate_times-IsStripped (suc n) p d s),
        decapsulate_relay_index_last k p e m z w r,
      )
