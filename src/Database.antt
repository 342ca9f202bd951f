-- ===== src/Database.antt =====
-- The database that the repositories share: its rows, and the session through which they act.
mod Binds
mod Keeping
mod Tables
mod Actions
mod Queries
pub mod Samples
pub use Tables.*
unfoldable pub use Actions.{one_or_none, at_most_one}
pub use Actions.*
pub use Queries.*
pub use Binds.*
pub use Keeping.*
