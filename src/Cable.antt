-- ===== src/Cable.antt =====
-- common/virtual: a Virtual Cable's sample formats, the ring it shares with the driver, and the
-- Worker's own ring.
pub mod Format
pub mod Ring
pub mod WorkerRing
