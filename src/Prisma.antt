-- ===== src/Prisma.antt =====
-- The Prisma client over PostgreSQL, which the services only call: `Delegate` is one table's
-- delegate as a record of operations with the behaviour that Prisma documents, and
-- `Prisma/Reference.antt` has a delegate that keeps these laws.
mod Interface
mod Rows
mod Pages
mod Windows
mod Reference
pub use Interface.*
unfoldable pub use Reference.{reference}
