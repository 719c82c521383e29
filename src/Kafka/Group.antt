-- ===== src/Kafka/Group.antt =====
-- events-processor/config/kafka/consumer.go: the goroutines of a consumer group and the steps that
-- they take. Each partition that the client assigned has a consumer with a goroutine of its own;
-- one goroutine polls, the callbacks of the client run one at a time, and `Start` shuts all down
-- when the context is canceled.
pub mod Invariant
pub mod Progress
pub mod Draining
pub mod Closing
use lago.Prelude.{
  ℕ, suc, ◌+◌, String, str_eq, Bool, true, false, ◌&&◌, ◌||◌, List, [], ◌∷◌, Option, none, some, In,
  ◌==◌, ◌≡◌, if◌then◌else◌,
}
use lago.Kafka.Commit.{Record}

pub record TopicPartition : Type 0 where
  pub topic : String
  pub partition : ℕ

-- `==` on the struct, which is the key of the map of consumers
unfoldable pub tp_eq : TopicPartition → TopicPartition → Bool
tp_eq a b = str_eq a.topic b.topic && a.partition == b.partition

-- Where the loop of `consume` stands. `done` is closed once it has returned.
pub data Phase : Type 0 where
  waiting returned : Phase
  busy : List Record → Phase

abbrev pub is_returned : Phase → Bool
is_returned waiting = false
is_returned (busy records) = false
is_returned returned = true

abbrev pub is_waiting : Phase → Bool
is_waiting waiting = true
is_waiting (busy records) = false
is_waiting returned = false

-- `quit` says whether the channel is closed.
pub record PartitionConsumer : Type 0 where
  pub owner : TopicPartition
  pub quit : Bool
  pub phase : Phase

-- `closeQuitChannel`: `Once` makes a second call do nothing.
abbrev pub close_quit_channel : PartitionConsumer → PartitionConsumer
close_quit_channel pc = record pc { quit = true }

-- The loop of `poll`: inside `PollRecords`, sending what was fetched, or returned.
pub data PollLoop : Type 0 where
  polling stopped : PollLoop
  sending : List (TopicPartition × List Record) → PollLoop

-- The callback that the client runs: the partitions still to come, and for `lost` the consumers
-- whose goroutine it waits for. `panicked` is the end of the process on a nil consumer.
pub data Callback : Type 0 where
  idle panicked : Callback
  assigning : List TopicPartition → Callback
  losing : List TopicPartition → List ℕ → Callback

-- `Start`: before the context is canceled, waiting for the consumers, and behind `client.Close()`.
pub data Shutdown : Type 0 where
  serving closed : Shutdown
  draining : (ℕ → Bool) → Shutdown

-- `heap` holds the consumers by their address, those from `next` on are not in use; `allowed` says
-- whether the client may rebalance: not between a poll and `AllowRebalance`. `granted` is a record
-- of the client and not of the program: the partitions that the client has given to the group and
-- has not taken back.
pub record ConsumerGroup : Type 0 where
  pub consumers : TopicPartition → Option ℕ
  pub heap : ℕ → PartitionConsumer
  pub next : ℕ
  pub canceled : Bool
  pub poll : PollLoop
  pub allowed : Bool
  pub callback : Callback
  pub shutdown : Shutdown
  pub granted : TopicPartition → Bool

-- `consumers[tp] = v`, and `delete` where it is `none`
abbrev pub set_consumer :
    TopicPartition → Option ℕ → (TopicPartition → Option ℕ) → TopicPartition → Option ℕ
set_consumer tp v m q = if tp_eq tp q then v else m q

abbrev pub set_granted : TopicPartition → Bool → (TopicPartition → Bool) → TopicPartition → Bool
set_granted tp b m q = if tp_eq tp q then b else m q

abbrev pub set_heap : ℕ → PartitionConsumer → (ℕ → PartitionConsumer) → ℕ → PartitionConsumer
set_heap i pc h j = if i == j then pc else h j

abbrev pub set_phase : ℕ → Phase → ConsumerGroup → ConsumerGroup
set_phase i p s = record s { heap = set_heap i (record (s.heap i) { phase = p }) s.heap }

abbrev pub new_consumer : TopicPartition → PartitionConsumer
new_consumer tp = record { owner = tp; quit = false; phase = waiting }

-- A round of the loop of `assigned`.
abbrev pub assign : TopicPartition → List TopicPartition → ConsumerGroup → ConsumerGroup
assign tp rest s = record s {
  heap = set_heap s.next (new_consumer tp) s.heap;
  consumers = set_consumer tp (some s.next) s.consumers;
  next = suc s.next;
  callback = assigning rest;
}

-- A round of the loop of `lost`, where the map holds the consumer at `i`.
abbrev pub lose_consumer :
    TopicPartition → ℕ → List TopicPartition → List ℕ → ConsumerGroup → ConsumerGroup
lose_consumer tp i rest ids s = record s {
  consumers = set_consumer tp none s.consumers;
  heap = set_heap i (close_quit_channel (s.heap i)) s.heap;
  callback = losing rest (i ∷ ids);
}

-- A round of the loop of `lost`: without an entry in the map the consumer is nil.
abbrev pub lose : TopicPartition → List TopicPartition → List ℕ → ConsumerGroup → ConsumerGroup
lose tp rest ids s = elim (s.consumers tp) [
  | none ↦ record s { callback = panicked }
  | some i ↦ lose_consumer tp i rest ids s
]

-- Whether the map holds the consumer.
abbrev pub is_held : ConsumerGroup → ℕ → Bool
is_held s i = elim (s.consumers (s.heap i).owner) [ none ↦ false | some j ↦ i == j ]

abbrev pub close_held : ConsumerGroup → ℕ → PartitionConsumer
close_held s i = if is_held s i then close_quit_channel (s.heap i) else s.heap i

-- The first loop of `gracefulShutdown`: each consumer of the map has its channel closed.
abbrev pub drain : ConsumerGroup → ConsumerGroup
drain s = record s { heap = close_held s; shutdown = draining (is_held s) }

-- A step of one of the goroutines. What the client is relied on for: it rebalances only where it is
-- allowed and closes only then, it runs one callback at a time, polls while none runs, gives the
-- group a partition that the group was not given or that was taken back, and takes back one that the
-- group was given. What the map of the program holds then is for the theorems to show.
pub data Step (s : ConsumerGroup) : ConsumerGroup → Type 0 where
  cancel : Step s (record s { canceled = true })
  -- `assigned`
  assign_start :
      (tps : List TopicPartition)
      → s.allowed ≡ true
      → s.callback ≡ idle
      → Step s (record s { callback = assigning tps })
  assign_next :
      (tp : TopicPartition) (rest : List TopicPartition)
      → s.callback ≡ assigning (tp ∷ rest)
      → s.granted tp ≡ false
      → Step s (record (assign tp rest s) { granted = set_granted tp true s.granted })
  assign_end : s.callback ≡ assigning [] → Step s (record s { callback = idle })
  -- `lost`
  lose_start :
      (tps : List TopicPartition)
      → s.allowed ≡ true
      → s.callback ≡ idle
      → Step s (record s { callback = losing tps [] })
  lose_next :
      (tp : TopicPartition) (rest : List TopicPartition) (ids : List ℕ)
      → s.callback ≡ losing (tp ∷ rest) ids
      → s.granted tp ≡ true
      → Step s (record (lose tp rest ids s) { granted = set_granted tp false s.granted })
  lose_end :
      (ids : List ℕ)
      → s.callback ≡ losing [] ids
      → ((i : ℕ) → In i ids → is_returned (s.heap i).phase ≡ true)
      → Step s (record s { callback = idle })
  -- `consume`
  quit_consumer :
      (i : ℕ)
      → (s.heap i).phase ≡ waiting
      → (s.heap i).quit ≡ true
      → Step s (set_phase i returned s)
  cancel_consumer :
      (i : ℕ) → (s.heap i).phase ≡ waiting → s.canceled ≡ true → Step s (set_phase i returned s)
  finish_batch :
      (i : ℕ) (records : List Record)
      → (s.heap i).phase ≡ busy records
      → Step s (set_phase i waiting s)
  -- `poll`
  stop_poll : s.poll ≡ polling → s.canceled ≡ true → Step s (record s { poll = stopped })
  client_closed : s.poll ≡ polling → s.shutdown ≡ closed → Step s (record s { poll = stopped })
  fetch :
      (fetches : List (TopicPartition × List Record))
      → s.poll ≡ polling
      → s.callback ≡ idle
      → Step s (record s { poll = sending fetches; allowed = false })
  -- the context is canceled before the records are looked at: `pollRecords` returns at once
  abort_poll :
      s.poll ≡ polling
      → s.callback ≡ idle
      → s.canceled ≡ true
      → Step s (record s { poll = stopped; allowed = false })
  send :
      (tp : TopicPartition) (i : ℕ) (records : List Record)
      (rest : List (TopicPartition × List Record))
      → s.poll ≡ sending ((tp, records) ∷ rest)
      → s.consumers tp ≡ some i
      → (s.heap i).phase ≡ waiting
      → Step s (set_phase i (busy records) (record s { poll = sending rest }))
  skip :
      (tp : TopicPartition) (records : List Record) (rest : List (TopicPartition × List Record))
      → s.poll ≡ sending ((tp, records) ∷ rest)
      → s.consumers tp ≡ none
      → Step s (record s { poll = sending rest })
  skip_canceled :
      (tp : TopicPartition) (records : List Record) (rest : List (TopicPartition × List Record))
      → s.poll ≡ sending ((tp, records) ∷ rest)
      → s.canceled ≡ true
      → Step s (record s { poll = sending rest })
  allow_rebalance : s.poll ≡ sending [] → Step s (record s { poll = polling; allowed = true })
  -- `gracefulShutdown`
  shut_down : s.shutdown ≡ serving → s.canceled ≡ true → Step s (drain s)
  close_client :
      (awaited : ℕ → Bool)
      → s.shutdown ≡ draining awaited
      → ((i : ℕ) → awaited i ≡ true → is_returned (s.heap i).phase ≡ true)
      → s.allowed ≡ true
      → Step s (record s { shutdown = closed })

-- An address that is not in use: nothing reads it.
abbrev pub unused : PartitionConsumer
unused = record { owner = record { topic = ""; partition = 0 }; quit = false; phase = returned }

-- `NewConsumerGroup`, with the goroutine of `Start` polling.
abbrev pub new_group : ConsumerGroup
new_group = record {
  consumers = λ tp. none;
  heap = λ i. unused;
  next = 0;
  canceled = false;
  poll = polling;
  allowed = true;
  callback = idle;
  shutdown = serving;
  granted = λ tp. false;
}

pub data Reach (s : ConsumerGroup) : ConsumerGroup → Type 0 where
  start : Reach s s
  later : {t u : ConsumerGroup} → Reach s t → Step t u → Reach s u
