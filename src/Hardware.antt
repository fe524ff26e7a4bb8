-- ===== src/Hardware.antt =====
-- asio-master/Hw*.h, common/WHADriftControl.h and common/network/WHADriftResampler.h: devices on
-- clocks of their own, held at a target backlog by resampling, and the pacing of the Master Clock.
pub mod Floats
pub mod Drift
pub mod Resampler
pub mod Queue
pub mod InputFifo
pub mod Position
pub mod OutputFifo
pub mod Pacer
mod Tests
