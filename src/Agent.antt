-- ===== src/Agent.antt =====
-- The node agent (controllers): what it asks of the API server, its state, and its reconcilers.
pub mod Cluster
pub mod Machine
pub mod CoreList
pub mod Profiles
pub mod Selection
pub mod Requests
pub mod PowerContainers
pub mod ScalingOpts
pub mod After
pub mod Sound
pub mod Placement
pub mod PowerPod
pub mod NodeConfigs
mod Tests
