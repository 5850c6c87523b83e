-- ===== src/Portal.antt =====
-- The training portal (training-portal/src/project/apps/workshops): the sessions of its workshop
-- environments, and how users get them.
pub mod Models
pub mod Params
pub mod Reserved
pub mod Sessions
pub mod Cleanup
pub mod Configuration
pub mod Durations
pub mod Environments
pub mod Expiry
pub mod History
pub mod Lifecycle
pub mod Termination
pub mod Updates
mod Tests
