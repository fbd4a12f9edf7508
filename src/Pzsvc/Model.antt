-- ===== src/Pzsvc/Model.antt =====
-- pzsvc/model.go, the types that the program builds or reads.
mod Sessions
mod Metadata
mod Jobs
pub mod Events
pub use Sessions.*
pub use Metadata.*
pub use Jobs.*
