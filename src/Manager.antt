-- ===== src/Manager.antt =====
-- The session manager (session-manager/handlers): what it shares, and how it handles the custom resources
-- that ask for sessions.
pub mod Variables
pub mod Allocation
pub mod Requests
mod Tests
