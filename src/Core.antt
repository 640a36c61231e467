-- ===== src/Core.antt =====
-- crates/evalhub-core: validation, badges, the core vocabulary, a run's defaults.
pub mod Ids
pub mod Report
pub mod Numbers
pub mod Attachments
pub mod Validate
pub mod Facets
pub mod Runs
pub mod Badge
pub mod Registry
mod Tests
