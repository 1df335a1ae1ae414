-- ===== src/Scaling.antt =====
-- CPU scaling by DPDK usage (internal/scaling): the telemetry of busy cycles, the step that sets a CPU's
-- frequency, and the workers that take it.
pub mod Updater
pub mod Manager
pub mod Telemetry
mod Tests
