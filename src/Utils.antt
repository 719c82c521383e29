-- ===== src/Utils.antt =====
-- events-processor/utils: results, times and the texts of Postgres arrays.
pub mod Result
pub mod NullTime
pub mod Time
pub mod Strings
pub mod Env
pub mod CustomTime
pub mod NestedJson
