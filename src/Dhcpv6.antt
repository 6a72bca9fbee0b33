-- ===== src/Dhcpv6.antt =====
-- dhcpv6: the DHCPv6 side of the library.
pub mod Duid
pub mod Options
pub mod Values
pub mod Iputils
pub mod Modifiers
pub mod Message
pub mod Relay
pub mod Packet
pub mod Relaying
pub mod New
