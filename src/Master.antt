-- ===== src/Master.antt =====
-- asio-master/MasterClaim.h: which app's Master may run.
pub mod Claim
mod Tests
