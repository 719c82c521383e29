-- ===== src/Cache.antt =====
-- events-processor/cache: the in-memory copy of the tables that an event is enriched from.
pub mod Store
pub mod Json
pub mod Consumer
pub mod Writes
pub mod BillableMetrics
pub mod BillableMetricFilters
pub mod Charges
pub mod ChargeFilters
pub mod ChargeFilterValues
pub mod Subscriptions
pub mod Messages
pub mod Deletions
pub mod Search
pub mod FlatFilters
pub mod Snapshot
pub mod Loading
pub mod Opening
pub mod ChargeMessages
pub mod Polling
