-- ===== src/Auth.antt =====
-- apps/api/src/auth: the tables that authentication touches, with the queries that it makes of them.
-- A row that is looked up by a unique column is the first that has it. One call reads the clock once. Hashes are parameters.
mod Rows
pub mod Sessions
pub mod Resets
pub mod Service
pub mod Tokens
pub mod Limited
pub mod Lockout
pub mod SignIn
pub mod Passwords
unfoldable pub use Rows.*
