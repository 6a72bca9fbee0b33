-- ===== src/Lib.antt =====
-- The codecs and packets of the DHCP library, as definitions, with theorems.
--
-- The program reads and writes DHCPv4 packets (dhcpv4/dhcpv4.go): fixed fields, and behind them a
-- map from option codes to bytes (dhcpv4/options.go), whose values have codecs of their own
-- (dhcpv4/option_*.go, iana/archtype.go). Getters read values of a packet; modifiers change it, and
-- the constructors of packets are lists of modifiers (dhcpv4/modifiers.go). Domain names have their
-- own format (rfc1035label/label.go). For DHCPv6 there are a sequence of options
-- (dhcpv6/options.go), messages that hold one (dhcpv6/dhcpv6message.go), options that hold options
-- or packets (dhcpv6/option_*.go), relay messages (dhcpv6/dhcpv6relay.go), and client identifiers
-- (dhcpv6/duid.go). A client (dhcpv4/nclient4/client.go) sends packets and hands the answers to the
-- calls that wait for them.
--
--   Prelude               shared tests, list lemmas, and results with errors and faults
--   Uio                   the byte reader and writer that every codec uses; it is another project's,
--                         so its operations and their documented behaviour are a parameter
--     Uio.Listed          a value of that parameter, over lists
--     Uio.Items           loops that read or write items one after the other, and their round trip
--     Uio.Reads, .Remains reads of bytes that are there, and what reads leave
--     Uio.Words           numbers of 16 and 32 bits, slices behind their length, IPv6 addresses
--   Durations             Go's time.Duration, doubled: it wraps at 64 bits
--   Net                   what is used of Go's net.IP
--   Dhcpv4.Options        dhcpv4/options.go: Options, fromBytesCheckEnd, Marshal
--     .Loop, .Grammar, .Decode    the options area as a grammar, and the reading loop
--     .Encode, .RoundTrip         what Marshal writes, and reading it
--     .Sorted                     the order and the pieces of what it writes
--   Dhcpv4.Codes          constants of dhcpv4/types.go and iana/hwtypes.go
--   Dhcpv4.Values         FromBytes and ToBytes of the values of options
--     .Items, .Strings, .RoundTrip, .Codes  their round trips, and the list of codes as a set
--   Dhcpv4.Packet         dhcpv4/dhcpv4.go: DHCPv4, FromBytes, ToBytes
--     .Layout, .RoundTrip, .Safety
--   Dhcpv4.Getters, Dhcpv4.Modifiers, Dhcpv4.New
--                         the getters, dhcpv4/modifiers.go, and the constructors of packets
--     Dhcpv4.New.Exchange         the packets of an exchange, made from those that they answer
--   Dhcpv4.DomainSearch   dhcpv4/option_domain_search.go, its getter and its modifier
--   Rfc1035label          rfc1035label/label.go: labelsFromBytes, labelsToBytes, Labels
--     .Termination, .RoundTrip
--   Dhcpv6.Options        dhcpv6/options.go: Get, GetOne, Add, Del, Update, ToBytes,
--                         FromBytesWithParser; a record stands for the interfaces Option and
--                         OptionParser, and .Generic fills it with OptionGeneric
--     .Lookup, .Step, .RoundTrip, .Termination
--   Dhcpv6.Values         dhcpv6/option_*.go, the types that hold no other option, and ParseOption
--     .Parse, .Wire, .RoundTrip, .Termination
--   Dhcpv6.Duid           dhcpv6/duid.go
--     .RoundTrip, .Sound
--   Dhcpv6.Message        dhcpv6/dhcpv6message.go and MessageFromBytes of dhcpv6/dhcpv6.go
--     .RoundTrip, .Exchange
--   Dhcpv6.Relay          RelayMessage and its codec, over any kind of options
--   Dhcpv6.Packet         packets and options in one recursive type, dhcpv6.FromBytes
--     .Parse, .Written, .Reads, .Depth, .Bounds, .Types, .RoundTrip, .Termination
--   Dhcpv6.Relaying       dhcpv6/dhcpv6relay.go and the relays of dhcpv6/dhcpv6.go
--     .Layers, .Mirror, .Termination
--   Dhcpv6.New            NewMessage of dhcpv6/dhcpv6.go and the solicitations of
--                         dhcpv6/dhcpv6message.go
--   Dhcpv6.Modifiers      dhcpv6/modifiers.go
--     .Requested, .Addresses
--   Dhcpv6.Iputils        dhcpv6/iputils.go
--     .Address
--   Dhcpv4.Addresses      dhcpv4/dhcpv4.go: GetExternalIPv4Addrs
--   Bsdp                  dhcpv4/bsdp: boot images, vendor options and their getters
--     .Messages, .Exchange        dhcpv4/bsdp/bsdp.go and client.go
--     .Images, .Vendor, .Replies, .Informs, .Exchange.Served
--   Nclient4              dhcpv4/nclient4/client.go: send, cancel and receiveLoop as steps
--     .Invariant, .Stolen, .Retry
--     .Request, .Request.Sound    DiscoverOffer and Request
--   Client6               dhcpv6/client6/client.go: sendReceive, Solicit, Request, Exchange
--     .Received, .Exchange, .Served
--   Netboot               netboot/netconf.go: the configuration that a reply gives
--     .Configured
--     .Requests, .Conversations   netboot/netboot.go
--   Tests                 the theorems at concrete inputs
--
-- A byte is a number; where a Go conversion or write narrows a number, `% 256` or the like is
-- written out. A slice that may be nil is an Option, `nil` and empty being kept apart where the code
-- looks at the difference. A lexer's state is passed on from call to call. A modifier, which changes
-- a packet in place, is a function from the packet before to the packet after. A run of code that
-- may fail gives `ok`, `err`, or `fault`: a panic, or the end of the fuel. A slice beyond its bytes
-- panics, their capacity being taken to be their length.
--
-- Loops that read are on fuel. Each round of the options loop and of the loops of `Uio.Items` takes
-- a byte or more, so one more than the length of the input is enough. In the loop over domain
-- names a pointer may lead back, but a second pointer is refused until the name has ended, and the
-- reading then goes on behind the first: with n bytes, (n + 1) * (n + 1) + 1 rounds are enough.
--
-- DHCPv6 options nest: a parser is on fuel for the depth, and since a container takes a byte or
-- more besides what it holds, one more than the length of the input is enough. A packet's layers of
-- relays are no more than its options are deep. The attempts of a call are on fuel too: one more
-- than the limit is enough, and a client without a limit is followed for as many as are given; the
-- rounds of a request for a boot file are two more than its retries.
--
-- The goroutines of dhcpv4/nclient4/client.go are steps in any order. What runs under the mutex is
-- one step; closing `done` is another. A `select` of which both cases are ready takes either.
--
-- Not modelled: printing; sockets and timers; what asks the operating system for interfaces; random
-- bytes and the clock, which are arguments. What sets a configuration over netlink and the vendor
-- class identifier of macOS are left out. So are channels without a buffer (the client's are of 5
-- messages), option codes of types that are not the library's, and dhcpv4/nclient4/ipv4.go, which is
-- taken from gVisor.
pub mod Bsdp
pub mod Client6
pub mod Dhcpv4
pub mod Dhcpv6
pub mod Durations
pub mod Nclient4
pub mod Net
pub mod Netboot
pub mod Prelude
pub mod Rfc1035label
pub mod Tests
pub mod Uio
