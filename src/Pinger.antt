-- ===== src/Pinger.antt =====
-- The ICMP sockets (daemon/src/pinger.h, daemon/src/pinger.cpp): endpoints, replies and the results
-- of a send. `Packet` has the wire format, `Socket` the sending and receiving, `Lookup` the choice
-- of an address; the other children hold proofs.
pub mod Endpoint
pub mod Packet
pub mod Socket
pub mod Lookup
pub mod Checksum
pub mod Echo
