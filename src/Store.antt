-- ===== src/Store.antt =====
-- The database that the money services share: the documents of server/src/models with the fields
-- that those services read or write, and actions on it. Ids are numbers and times milliseconds.
-- Audit records, notifications and logs are left out: the modelled code never reads them back.
pub mod Tasks
mod Documents
mod Monad
pub mod Finding
pub use Documents.*
pub use Monad.*
