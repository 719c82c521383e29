-- ===== src/Models.antt =====
-- events-processor/models: the rows, the events and the filters that they are matched with.
pub mod Tables
pub mod Payloads
pub mod Event
pub mod FlatFilter
pub mod EnrichedEvent
pub mod Streaming
pub mod Fetch
pub mod Columns
