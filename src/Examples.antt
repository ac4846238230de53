-- ===== src/Examples.antt =====
-- Concrete hosts, peers and packets on which the theorems are applied.
mod Samples
mod Peers
mod References
mod Messages
mod Hosts
mod Lists
mod Packets
mod Sending
mod Receiving
