-- ===== src/Bbc.antt =====
-- pkg/cla/bbc: the Bundle Broadcasting Connector, which sends a bundle in fragments of a few bytes.
pub mod Fragment
pub mod Transmission
pub mod Connector
pub mod Sending
pub mod Interleaving
mod Tests
