-- ===== src/Tests.antt =====
-- The examples, at concrete inputs, of the theorems of the other modules.
mod Fixtures
mod Kafka
mod Models
mod Cache
mod Search
mod FlatFilters
mod Processor
mod Group
mod Partition
mod Streams
mod Texts
mod Startup
mod Batches
mod Loading
mod Effects
mod Payloads
