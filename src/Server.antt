-- ===== src/Server.antt =====
-- crates/evalhub-server/src: callers, signed cursors, errors as responses, and what a reader is
-- not shown of a body.
pub mod Auth
pub mod Cursor
pub mod Errors
pub mod Withhold
mod Tests
