-- ===== src/Power.antt =====
-- The power library (internal/power): pools of CPUs, and the sysfs files by which a pool's profile
-- reaches the hardware.
pub mod Sysfs
pub mod PStates
pub mod CStates
pub mod Host
pub mod Uncore
pub mod NewProfile
pub mod Topology
pub mod Cpu
pub mod Pool
mod Tests
