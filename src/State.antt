-- ===== src/State.antt =====
-- What the node agent remembers (pkg/podstate, pkg/state, pkg/util).
pub mod Pods
pub mod Deletion
mod Tests
