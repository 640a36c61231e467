-- ===== src/Store.antt =====
-- crates/evalhub-store/src: the tables as explicit state, the transactions on them, the walk
-- over an extension schema, and the statements that a query compiles to.
pub mod ExtPaths
pub mod Rows
pub mod Db
pub mod Records
pub mod Runs
pub mod UsedSet
pub mod Relations
pub mod Sql
pub mod Tests
