-- ===== src/Models.antt =====
-- The tables of backend/src/incident_desk/db/models.py: a record for each mapped class, with the
-- columns that the modelled code reads or writes. Ids and times are natural numbers: the code
-- compares them, and adds durations to times. `updated_at` is left out everywhere, and
-- `created_at` where nothing reads it.
mod Values
mod Tenancy
mod Accounts
mod Tracking
mod Rota
pub use Values.*
pub use Tenancy.*
pub use Accounts.*
pub use Tracking.*
pub use Rota.*
