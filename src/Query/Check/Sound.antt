-- ===== src/Query/Check/Sound.antt =====
-- About crates/evalhub-query/src/typecheck.rs: the checks against the rules of `Typing`.
pub mod Steps
pub mod Comparison
pub mod Filters
use evalhub.Base.{String, ◌≡◌}
