-- ===== src/Dhcpv6/Packet/Termination.antt =====
-- dhcpv6: parsing a packet ends, without a panic, on every input.
use dhcp.Prelude.{
  ℕ, zero, suc, ◌≢◌, ◌≤◌, Bool, Bytes, Slice, elements, length, ok, fault, Fault, arith, ◌>>=◌,
  >>=-ne-fault, map_err, map_err-ne-fault, if-ne-fault, if◌then◌else◌, true, false,
}
use dhcp.Uio.{Uio}
use dhcp.Uio.Items.{finish}
use dhcp.Uio.Items.Codec.{finish-ne-fault}
use dhcp.Uio.Remains.{
  Remains, new-Remains, read8-Remains, read32-Remains, copy_n-Remains, read_bytes-Remains,
  read_all-le, contents-le,
}
use dhcp.Dhcpv6.Options.{Kind, from_bytes_with_parser}
use dhcp.Dhcpv6.Options.RoundTrip.{IsCodec}
use dhcp.Dhcpv6.Options.Termination.{Stops, from_bytes_with_parser-ne-fault}
use dhcp.Dhcpv6.Message
use dhcp.Dhcpv6.Message.{Message, message_from_bytes, finish_message}
use dhcp.Dhcpv6.Relay.{relay_from_bytes, finish_relay, is_relay_type}
use dhcp.Dhcpv6.Values.{
  Error, Format, format, unread, as_ia_na, as_ia_pd, as_ia_address, as_ia_prefix, as_relay_msg,
}
use dhcp.Dhcpv6.Values.Parse.{parse_value}
use dhcp.Dhcpv6.Values.Termination.{parse_value-ne-fault}
use dhcp.Dhcpv6.Packet.{Opt, Opts, ia_na, ia_pd, ia_address, ia_prefix, plain, relay_msg, of_list}
use dhcp.Dhcpv6.Packet.Parse.{
  kind, nested, parse_ia, parse_ia_address, parse_ia_prefix, parse_packet, parse_as, parse_option,
  of_message, of_relay, packet_from_bytes, inner_error, message_error,
}
use dhcp.Dhcpv6.Packet.RoundTrip.{codec}

module _ {E Opt : Type 0} (u : Uio) (k : Kind E Opt) (m : ℕ) (t : Stops k m) (s : IsCodec k) where
  -- Options that are no longer than the parser stops for.
  options-ne-fault :
      (bs : Bytes) (x : Fault) → length bs ≤ m → from_bytes_with_parser k u bs ≢ fault x
  options-ne-fault bs x le =
      from_bytes_with_parser-ne-fault u k s bs x
        (record { parse-ne-fault = λ c d y less. t.parse-ne-fault c d y (omega arith) })

  finish_message-ne-fault :
      (n : ℕ) (tid : Bytes) (rest : Slice) (x : Fault)
      → length (elements rest) ≤ m
      → finish_message k u n tid rest ≢ fault x
  unfolding finish_message
  finish_message-ne-fault n tid rest x le =
      let parsed = from_bytes_with_parser k u (elements rest) in
      if-ne-fault _ _ _ x (
        >>=-ne-fault (map_err Message.Error.bad_options parsed) _ x
          (λ y.
            map_err-ne-fault Message.Error.bad_options parsed y
              (options-ne-fault (elements rest) y le))
          (λ o p. cc))

  finish_relay-ne-fault :
      (n hops : ℕ) (link peer rest : Slice) (x : Fault)
      → length (elements rest) ≤ m
      → finish_relay k u n hops link peer rest ≢ fault x
  unfolding finish_relay
  finish_relay-ne-fault n hops link peer rest x le =
      let parsed = from_bytes_with_parser k u (elements rest) in
      if-ne-fault _ _ _ x (
        >>=-ne-fault (map_err Message.Error.bad_options parsed) _ x
          (λ y.
            map_err-ne-fault Message.Error.bad_options parsed y
              (options-ne-fault (elements rest) y le))
          (λ o p. cc))

  message_from_bytes-ne-fault :
      (bs : Bytes) (x : Fault) → length bs ≤ m → message_from_bytes k u bs ≢ fault x
  unfolding message_from_bytes
  message_from_bytes-ne-fault bs x le =
      let b₁ = u.read8 (u.new bs) in
      let b₂ = u.read_bytes 3 b₁.1 in
      let left =
        read_bytes-Remains u m 3 b₁.1 (read8-Remains u m (u.new bs) (new-Remains u m bs le)) in
      finish_message-ne-fault b₁.0 b₂.0 (u.contents b₂.1) x (contents-le u m b₂.1 left)

  relay_from_bytes-ne-fault :
      (bs : Bytes) (x : Fault) → length bs ≤ m → relay_from_bytes k u bs ≢ fault x
  unfolding relay_from_bytes
  relay_from_bytes-ne-fault bs x le =
      let b₁ = u.read8 (u.new bs) in
      let b₂ = u.read8 b₁.1 in
      let b₃ = u.copy_n 16 b₂.1 in
      let b₄ = u.copy_n 16 b₃.1 in
      let head = read8-Remains u m b₁.1 (read8-Remains u m (u.new bs) (new-Remains u m bs le)) in
      let left = copy_n-Remains u m 16 b₃.1 (copy_n-Remains u m 16 b₂.1 head) in
      finish_relay-ne-fault b₁.0 b₂.0 b₃.0 b₄.0 (u.contents b₄.1) x (contents-le u m b₄.1 left)

module _ (u : Uio) (k : Kind Error Opt) (m : ℕ) (t : Stops k m) (s : IsCodec k) where
  open u use {Lexer}

  nested-ne-fault :
      (make : Opts → Opt) (rest : Slice) (b : Lexer) (x : Fault)
      → length (elements rest) ≤ m
      → nested k u make rest b ≢ fault x
  unfolding nested
  nested-ne-fault make rest b x le =
      let parsed = from_bytes_with_parser k u (elements rest) in
      >>=-ne-fault (map_err inner_error parsed) (λ o. finish u unread (make (of_list o)) b) x
        (λ y.
          map_err-ne-fault inner_error parsed y (options-ne-fault u k m t s (elements rest) y le))
        (λ o. finish-ne-fault unread (make (of_list o)) x (u.fin_failed b))

  -- The same for what is left when the fields before the options have been read.
  rest-ne-fault :
      (make : Opts → Opt) (b : Lexer) (x : Fault)
      → Remains u m b
      → nested k u make (u.read_all b).0 (u.read_all b).1 ≢ fault x
  rest-ne-fault make b x r =
      nested-ne-fault make (u.read_all b).0 (u.read_all b).1 x (read_all-le u m b r)

  parse_ia-ne-fault :
      (make : Bytes → ℕ → ℕ → Opts → Opt) (bs : Bytes) (x : Fault)
      → length bs ≤ m
      → parse_ia k u make bs ≢ fault x
  unfolding parse_ia
  parse_ia-ne-fault make bs x le =
      let b₁ = u.read_bytes 4 (u.new bs) in
      let b₂ = u.read32 b₁.1 in
      let b₃ = u.read32 b₂.1 in
      rest-ne-fault (make b₁.0 b₂.0 b₃.0) b₃.1 x (
        read32-Remains u m b₂.1
          (read32-Remains u m b₁.1 (read_bytes-Remains u m 4 (u.new bs) (new-Remains u m bs le))))

  parse_ia_address-ne-fault :
      (bs : Bytes) (x : Fault) → length bs ≤ m → parse_ia_address k u bs ≢ fault x
  unfolding parse_ia_address
  parse_ia_address-ne-fault bs x le =
      let b₁ = u.copy_n 16 (u.new bs) in
      let b₂ = u.read32 b₁.1 in
      let b₃ = u.read32 b₂.1 in
      rest-ne-fault (ia_address b₁.0 b₂.0 b₃.0) b₃.1 x (
        read32-Remains u m b₂.1
          (read32-Remains u m b₁.1 (copy_n-Remains u m 16 (u.new bs) (new-Remains u m bs le))))

  parse_ia_prefix-ne-fault :
      (bs : Bytes) (x : Fault) → length bs ≤ m → parse_ia_prefix k u bs ≢ fault x
  unfolding parse_ia_prefix
  parse_ia_prefix-ne-fault bs x le =
      let b₁ = u.read32 (u.new bs) in
      let b₂ = u.read32 b₁.1 in
      let b₃ = u.read8 b₂.1 in
      let b₄ = u.copy_n 16 b₃.1 in
      let times = read32-Remains u m b₁.1 (read32-Remains u m (u.new bs) (new-Remains u m bs le)) in
      rest-ne-fault (ia_prefix b₁.0 b₂.0 b₃.0 b₄.0) b₄.1 x
        (copy_n-Remains u m 16 b₃.1 (read8-Remains u m b₂.1 times))

  parse_packet-ne-fault : (bs : Bytes) (x : Fault) → length bs ≤ m → parse_packet k u bs ≢ fault x
  unfolding parse_packet
  parse_packet-ne-fault bs x le = either (is_relay_type (u.read8 (u.new bs)).0)
    where
      as_message :
          (map_err message_error (message_from_bytes k u bs) >>= λ m. ok (of_message k u m))
          ≢ fault x
      as_message =
          >>=-ne-fault (map_err message_error (message_from_bytes k u bs)) _ x
            (λ y.
              map_err-ne-fault message_error (message_from_bytes k u bs) y
                (message_from_bytes-ne-fault u k m t s bs y le))
            (λ d p. cc)

      as_relay :
          (map_err message_error (relay_from_bytes k u bs) >>= λ r. ok (of_relay k u r)) ≢ fault x
      as_relay =
          >>=-ne-fault (map_err message_error (relay_from_bytes k u bs)) _ x
            (λ y.
              map_err-ne-fault message_error (relay_from_bytes k u bs) y
                (relay_from_bytes-ne-fault u k m t s bs y le))
            (λ d p. cc)

      either :
          (c : Bool)
          → (if c
              then (map_err message_error (relay_from_bytes k u bs) >>= λ r. ok (of_relay k u r))
              else (map_err message_error (message_from_bytes k u bs) >>= λ m.
                  ok (of_message k u m)))
            ≢ fault x
      either true = as_relay
      either false = as_message

  parse_as-ne-fault :
      (f : Format) (c : ℕ) (bs : Bytes) (x : Fault) → length bs ≤ m → parse_as k u f c bs ≢ fault x
  unfolding parse_as
  parse_as-ne-fault as_ia_na c bs x le = parse_ia-ne-fault ia_na bs x le
  parse_as-ne-fault as_ia_pd c bs x le = parse_ia-ne-fault ia_pd bs x le
  parse_as-ne-fault as_ia_address c bs x le = parse_ia_address-ne-fault bs x le
  parse_as-ne-fault as_ia_prefix c bs x le = parse_ia_prefix-ne-fault bs x le
  parse_as-ne-fault as_relay_msg c bs x le =
      >>=-ne-fault (parse_packet k u bs) (λ d. ok (relay_msg d)) x
        (λ y. parse_packet-ne-fault bs y le) (λ d p. cc)
  parse_as-ne-fault f c bs x le =
      >>=-ne-fault (parse_value u f c bs) (λ v. ok (plain v)) x
        (λ y. parse_value-ne-fault u bs f c y) (λ v p. cc)

-- A parser that goes `n` deep stops on values of fewer than `n` bytes.
option-Stops : (u : Uio) (n : ℕ) → Stops (kind u n) n
unfolding parse_option
option-Stops u zero = record { parse-ne-fault = λ c d x less. absurd (omega arith) }
option-Stops u (suc n) = record {
  parse-ne-fault = λ c d x less.
      parse_as-ne-fault u (kind u n) n (option-Stops u n) (codec u n) (format c) c (elements d) x
        (omega arith);
}

-- Every input is parsed to an end, whatever packets and options it nests: to a packet or to an
-- error, without a panic (such as a slice beyond the bytes of a DUID or of domain names), and the
-- fuel is enough.
pub packet_from_bytes-ne-fault :
    (u : Uio) (bs : Bytes) (x : Fault) → packet_from_bytes u bs ≢ fault x
unfolding packet_from_bytes
packet_from_bytes-ne-fault u bs x =
    let n = suc (length bs) in
    parse_packet-ne-fault u (kind u n) n (option-Stops u n) (codec u n) bs x (omega arith)
