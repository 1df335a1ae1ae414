-- ===== src/Api.antt =====
-- The admission of resources (api/v1alpha1).
pub mod Profiles
pub mod Conflicts
pub mod Reserved
mod Tests
