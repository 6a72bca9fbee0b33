-- ===== src/Tests.antt =====
-- The theorems at concrete inputs, over the lexer of `Uio.Listed`.
mod Packets
mod Labels
mod Values
mod Sequences
mod Messages
mod Relays
mod Nclient
mod Netboot
mod Modifiers
mod Bsdp
mod Client
mod Request
