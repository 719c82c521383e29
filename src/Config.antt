-- ===== src/Config.antt =====
-- events-processor/config: what the program reads of its environment, and the clients that it sets up
-- with it.
pub mod Tracing
pub mod KafkaClient
pub mod Stores
