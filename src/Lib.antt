-- ===== src/Lib.antt =====
-- Verification library of the events processor (events-processor/), the Go service that reads
-- usage events from Kafka, enriches them with the customer's subscription and charges, and sends
-- them on.
--
-- Utils models events-processor/utils: Result.antt is result.go (the error and its two flags,
-- retryable and capture), Time.antt, CustomTime.antt and NullTime.antt are time.go, Strings.antt
-- is string.go, Env.antt is env.go and NestedJson.antt is json.go. A time is a number of
-- nanoseconds since Go's zero time; floats and the calendar are the interface `Numbers`. A text
-- that the code walks is the list of its code points.
--
-- Models models events-processor/models: Tables.antt has the rows, Payloads.antt the fields that
-- change messages of charges and their filters are decoded into, Event.antt and
-- EnrichedEvent.antt are event.go, FlatFilter.antt is flat_filters.go (`MatchingFilter`),
-- Streaming.antt is query_streaming.go, Fetch.antt has the queries of all the tables,
-- Columns.antt the columns that hold JSON. Where Go's zero value stands for nothing, an `Option`
-- does. The database is what it answers to a query.
--
-- Kafka models events-processor/config/kafka/consumer.go: Commit.antt is
-- `findMaxCommitableRecord` and the choice in `processRecordsAndCommit`, Partition.antt the
-- batches of one partition, with the commits of the client; Order.antt is about the order in
-- which records are processed. Group.antt is the rest: the goroutines of a consumer group are
-- steps on one state, which holds the map of consumers, the heap of them, where each loop stands
-- and whether the client may rebalance, with the client's own record of the partitions that it
-- has given to the group; a schedule is a sequence of steps. Keys of records are byte lists,
-- offsets are natural numbers up to the largest `int64`.
--
-- Config models events-processor/config: Tracing.antt is the choice of the tracer,
-- Tracing/Spans.antt the spans of the three providers, Tracing/Hooks.antt the hooks of Datadog,
-- KafkaClient.antt is kafka/kafka.go, Stores.antt is redis/redis.go and database/database.go. The
-- libraries are records of what they answer.
--
-- Cache models events-processor/cache. The in-memory store (badger) and the JSON codec are
-- interfaces with laws in Store.antt; the laws are satisfied by the list store in Tests/Fixtures.
-- Json.antt is the access to the store in cache.go, Loading.antt its `LoadInitialSnapshot`,
-- Opening.antt its `NewCache` and `ConsumeChanges`, Consumer.antt is `processRecord` of
-- consumer.go and Polling.antt its poll loop, one module is each table's file, Snapshot.antt is
-- about `LoadSnapshot`, Search.antt is `SearchSubscriptions` and Search/Fetching.antt compares it
-- with the query, FlatFilters.antt is flat_filters.go. The functions take the store and give back
-- the new one; a lawful write that fails leaves it alone.
--
-- Processor models events-processor/processors/events_processor: Enrichment.antt and
-- EnrichEvent.antt are enrichment_service.go, Sources.antt is where its rows come from,
-- Effects.antt has the messages, flags and expirations of the other services and of
-- models/stores.go and models/charge_cache.go, Effects/Producers.antt the producers of
-- config/kafka/producer.go, Batch.antt is processor.go, and Batch/Schedule.antt the goroutines of
-- one batch. What the service does to the outside is a list of effects. Startup.antt is
-- events-processor/processors/main_processor.go and Main.antt is events-processor/main.go.
--
-- Tests applies the theorems to concrete stores, rows, events and records.
--
-- No loop needs fuel: each goes through a list, and the loops of the consumer group are steps.
-- The goroutines of a group, of a batch and of the snapshots are steps on a shared state, so a
-- schedule is a sequence of steps; Batch.antt takes the records of a batch in order, and
-- Batch/Schedule.antt compares it with every other order. The program that `main` starts waits
-- for turns of the snapshot's goroutines that end; which turns these are is a parameter. A panic
-- is an outcome of its own; a panic in one goroutine of a batch is one of the batch. Go maps are
-- association lists, or functions where they are shared; where Go walks a map in any order, the
-- lists keep the order of insertion.
--
-- Not modelled: what the clients of Kafka and Redis do with a message, logging, error tracking
-- and signals. The database, the key-value store, the JSON library and the clients of Kafka and
-- Redis are parameters.
pub mod Prelude
pub mod Utils
pub mod Models
pub mod Kafka
pub mod Config
pub mod Cache
pub mod Processor
pub mod Tests
