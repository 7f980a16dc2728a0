-- ===== src/Store.antt =====
-- The rows that the services keep (apps/api/prisma/schema.prisma, the columns that the modelled code
-- reads or writes), the database as an interface, and the actions of a service.
-- An identifier or an opaque text is a number, since the code only compares it; an instant is its
-- count of milliseconds. A row's own identifier is the key that it is found by.
mod Rows
mod Actions
mod Client
pub mod Memory
pub use Rows.*
pub use Actions.*
pub use Client.*
