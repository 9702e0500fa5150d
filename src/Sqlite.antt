-- ===== src/Sqlite.antt =====
-- The SQLite adapters: the tables and statements, and the repositories on top of them.
pub mod Db
pub mod Queries
pub mod Statements
pub mod Words
pub mod Repository
