-- ===== src/Network.antt =====
-- common/network: the rings, buffers and packets of the Network Streams.
pub mod Spsc
pub mod Packet
pub mod Jitter
pub mod Payload
mod Tests
