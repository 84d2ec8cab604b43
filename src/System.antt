-- ===== src/System.antt =====
-- The program as a whole: every call that changes the database, and what any sequence of calls keeps.
pub mod Sound
pub mod Tenancy
pub mod Logins
pub mod Tracking
pub mod Background
pub mod Rotation
pub mod Calls
pub mod Handlers
pub mod Invariant
pub mod Uncommitted
pub mod Refusals
