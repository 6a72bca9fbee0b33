-- ===== src/Nclient4.antt =====
-- dhcpv4/nclient4/client.go: the transactions that wait for answers, as steps of the receive loop
-- and of the calls of `send` and of the function that it gives back to cancel. Each of them runs
-- under the mutex of the map, but for `close(done)`, which is a step of its own.
pub mod Invariant
pub mod Stolen
pub mod Retry
pub mod Request
use dhcp.Prelude.{
  ℕ, suc, ◌≡◌, ◌≢◌, ◌<◌, Bool, true, false, not, ◌&&◌, ◌||◌, List, [], ◌∷◌, ◌++◌, Option, none,
  some, ◌==◌, ltb, if◌then◌else◌, length, Bytes, Slice, equal,
}
use dhcp.Dhcpv4.Codes.{opcode_boot_reply}
use dhcp.Dhcpv4.Packet.{Dhcpv4}

-- Where the owner of a channel is: between `send` and `cancel`, between the two halves of
-- `cancel`, or behind it. `done` is closed unless it is `waiting`.
pub data Phase : Type 0 where
  waiting cancelling cancelled : Phase

abbrev pub is_done : Phase → Bool
is_done waiting = false
is_done _ = true

-- `pendingCh` and the call of `send` that made it. `closes` counts the calls of `close(ch)`, of
-- which a second one would panic.
pub record Channel : Type 0 where
  pub xid : Bytes
  pub phase : Phase
  pub closes : ℕ
  pub buffer : List Dhcpv4

-- The parts of `Client` that the loops share. Channels are numbered as they are made.
pub record Client : Type 0 where
  pub iface_hw_addr : Slice
  pub buffer_cap : ℕ
  pub pending : Bytes → Option ℕ
  pub channels : ℕ → Channel
  pub next : ℕ

abbrev pub set_pending : Bytes → Option ℕ → (Bytes → Option ℕ) → Bytes → Option ℕ
set_pending x v p y = if equal x y then v else p y

abbrev pub set_channel : ℕ → Channel → (ℕ → Channel) → ℕ → Channel
set_channel i v cs j = if i == j then v else cs j

abbrev pub change_channel : ℕ → (Channel → Channel) → Client → Client
change_channel i f c = record c { channels = set_channel i (f (c.channels i)) c.channels }

-- `close(p.ch)` and `delete(c.pending, xid)`.
abbrev pub close_pending : Bytes → ℕ → Client → Client
close_pending x i c =
    let closed = change_channel i (λ ch. record ch { closes = suc ch.closes }) c in
    record closed { pending = set_pending x none c.pending }

-- What `receiveLoop` lets through: replies to this interface.
unfoldable pub accepts : Slice → Dhcpv4 → Bool
accepts none msg = msg.op_code == opcode_boot_reply
accepts (some hw) msg = msg.op_code == opcode_boot_reply && equal hw msg.client_hw_addr

-- The `select` of `receiveLoop` on a channel; Go takes either case where both are ready, which
-- `choose_done` decides. It blocks, and gives none, where the buffer is full and `done` is open. The
-- buffers have room for one message or more (the default is 5): without a buffer, where a message
-- goes to a receiver that waits at that moment, no message is delivered here.
unfoldable pub select : Bool → Client → Dhcpv4 → ℕ → Option Client
select choose_done c msg i =
    let ch = c.channels i in
    let room = ltb (length ch.buffer) c.buffer_cap in
    let sent = change_channel i (λ ch. record ch { buffer = ch.buffer ++ msg ∷ [] }) c in
    if is_done ch.phase && (choose_done || not room)
    then some (close_pending msg.transaction_id i c)
    else if room
    then some sent
    else none

abbrev pub select_pending : Bool → Client → Dhcpv4 → Option ℕ → Option Client
select_pending choose_done c msg none = some c
select_pending choose_done c msg (some i) = select choose_done c msg i

-- A round of `receiveLoop` on a message that was parsed.
unfoldable pub receive : Bool → Client → Dhcpv4 → Option Client
unfolding accepts select
receive choose_done c msg =
    if accepts c.iface_hw_addr msg
    then select_pending choose_done c msg (c.pending msg.transaction_id)
    else some c

-- A new channel for a transaction.
abbrev pub registered : Bytes → Client → Client
registered x c =
    let ch : Channel = record { xid = x; phase = waiting; closes = 0; buffer = [] } in
    record c {
      pending = set_pending x (some c.next) c.pending;
      channels = set_channel c.next ch c.channels;
      next = suc c.next;
    }

abbrev pub register_if : Bytes → Client → Option ℕ → Option (ℕ × Client)
register_if x c (some i) = none
register_if x c none = some (c.next, registered x c)

-- `send`, up to the write to the connection; none is the error of a transaction in use.
unfoldable pub send : Bytes → Client → Option (ℕ × Client)
send x c = register_if x c (c.pending x)

-- `close(done)`, the first half of `cancel`.
unfoldable pub close_done : ℕ → Client → Client
close_done i c = change_channel i (λ ch. record ch { phase = cancelling }) c

abbrev pub remove_if : Bytes → Client → Option ℕ → Client
remove_if x c none = c
remove_if x c (some j) = close_pending x j c

-- The second half of `cancel`, under the mutex: it takes what is pending for its transaction.
unfoldable pub remove : ℕ → Client → Client
remove i c =
    let x = (c.channels i).xid in
    let removed = remove_if x c (c.pending x) in
    change_channel i (λ ch. record ch { phase = cancelled }) removed

-- A step of the client: a message is received, a call of `send`, one of the halves of a `cancel`
-- (which each call makes once), or the caller takes a message from its channel.
pub data Step (c : Client) : Client → Type 0 where
  receives :
      (choose_done : Bool) (msg : Dhcpv4) {d : Client}
      → receive choose_done c msg ≡ some d
      → Step c d
  sends : (x : Bytes) (i : ℕ) {d : Client} → send x c ≡ some (i, d) → Step c d
  starts_cancel : (i : ℕ) → i < c.next → (c.channels i).phase ≡ waiting → Step c (close_done i c)
  ends_cancel : (i : ℕ) → i < c.next → (c.channels i).phase ≡ cancelling → Step c (remove i c)
  takes :
      (i : ℕ) (msg : Dhcpv4) (rest : List Dhcpv4)
      → (c.channels i).buffer ≡ msg ∷ rest
      → Step c (change_channel i (λ ch. record ch { buffer = rest }) c)

-- The clients that a client comes to.
pub data Reach (c : Client) : Client → Type 0 where
  start : Reach c c
  later : {d e : Client} → Reach c d → Step d e → Reach c e

-- `NewWithConn`: no transaction is pending.
unfoldable pub new_client : Slice → ℕ → Client
new_client hw cap = record {
  iface_hw_addr = hw;
  buffer_cap = cap;
  pending = λ x. none;
  channels = λ i. record { xid = []; phase = cancelled; closes = 0; buffer = [] };
  next = 0;
}
