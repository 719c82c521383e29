-- ===== src/Processor.antt =====
-- events-processor/processors/events_processor: what happens to a received event.
pub mod Enrichment
pub mod EnrichEvent
pub mod Sources
pub mod Effects
pub mod Batch
pub mod Startup
pub mod Main
