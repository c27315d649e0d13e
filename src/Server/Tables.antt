-- ===== src/Server/Tables.antt =====
-- The tables of server/src/db.rs. Each is the list of its rows, in the order of the rowid where the
-- table has one. A mutation holds the connection's lock and either commits or rolls back, so it is a
-- function of the tables to a `Result`: `err` stands for a rollback. SQLite itself is taken not to fail
-- but for the constraints of the schema, which are written out. `unixepoch()` is the argument `clock`.
pub mod Schema
pub mod Queries
pub use Schema.*
unfoldable pub use Queries.*
