-- ===== src/Dhcpv4.antt =====
-- dhcpv4: the options map of a packet, its codec, and the packet.
pub mod Addresses
pub mod Options
pub mod Codes
pub mod Values
pub mod Packet
pub mod Getters
pub mod Modifiers
pub mod New
pub mod DomainSearch
