-- ===== src/Query.antt =====
-- crates/evalhub-query: the query language, from the JSON of a request to the tree that the store runs.
pub mod Ir
pub mod Grammar
pub mod Table
pub mod Check
mod Tests
