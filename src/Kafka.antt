-- ===== src/Kafka.antt =====
-- events-processor/config/kafka: which offsets of a batch are committed.
pub mod Decimal
pub mod Commit
pub mod Safety
pub mod Order
pub mod Partition
pub mod Group
