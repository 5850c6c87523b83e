-- ===== src/Lookup.antt =====
-- The lookup service (lookup-service/service): its caches, its event handlers, its access control
-- and its workshop requests.
pub mod Caches
pub mod Events
pub mod Selectors
pub mod Auth
pub mod Tenants
pub mod Ranking
pub mod Remote
pub mod Workshops
mod Tests
