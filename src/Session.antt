-- ===== src/Session.antt =====
-- What a request works on: the database of the models, and the actions of an `AsyncSession`.
-- `backend/src/incident_desk/db/engine.py` opens one session for each request and closes it at the
-- end, so what is not committed by then is rolled back.
mod Schema
mod Outside
mod Actions
pub mod Keeping
pub mod Frames
pub mod Pending
pub mod Whole
pub mod Inversion
pub use Schema.*
pub use Outside.*
unfoldable pub use Actions.*
