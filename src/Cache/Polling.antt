-- ===== src/Cache/Polling.antt =====
-- events-processor/cache/consumer.go, `startGenericConsumer`: the loop that polls the changes of a
-- table.
pub mod Newest
use lago.Prelude.{ℕ, String, Bool, true, false, List, [], ◌∷◌, if◌then◌else◌}
use lago.Utils.Result.{Error, Except}
use lago.Cache.Consumer.{ConsumerConfig, process_record}

-- A fetched record, at the time when it is met, and whether the context was canceled by then.
pub record Fetched (Bytes : Type 0) : Type 0 where
  pub value : Bytes
  pub time : ℕ
  pub canceled : Bool

-- What a round of the loop meets: the context canceled before the poll, the client closed, a fetch
-- that fails and whether the context is canceled then, or records. A commit that fails is logged.
pub data Round (Bytes : Type 0) : Type 0 where
  context_done client_closed : Round Bytes
  fetch_error : Error → Bool → Round Bytes
  fetched : List (Fetched Bytes) → Round Bytes

module _ {Db T Bytes : Type 0} (config : ConsumerConfig Db T) (decode : Bytes → Except T) where
  -- `EachRecord`: a record that is met after the context was canceled is left alone.
  unfoldable pub process_fetched : List (Fetched Bytes) → Db → Db
  unfolding process_record
  process_fetched [] db = db
  process_fetched (r ∷ records) db =
      process_fetched records
        (if r.canceled then db else process_record config decode r.time r.value db)

  unfoldable pub poll_changes : List (Round Bytes) → Db → Db
  unfolding process_fetched
  poll_changes [] db = db
  poll_changes (context_done ∷ rounds) db = db
  poll_changes (client_closed ∷ rounds) db = db
  poll_changes (fetch_error e true ∷ rounds) db = db
  poll_changes (fetch_error e false ∷ rounds) db = poll_changes rounds db
  poll_changes (fetched records ∷ rounds) db = poll_changes rounds (process_fetched records db)
