-- ===== src/Cache/Polling/Newest.antt =====
-- What the cache holds after the snapshot of a table and the changes that were polled since.
use lago.Prelude.{ℕ, ◌≤◌, true, false, List, [], ◌∷◌, ◌++◌, ◌≡◌, if◌then◌else◌}
use lago.Utils.Result.{Except, ok, error}
use lago.Cache.Store.{Badger, Laws, Codec}
use lago.Cache.Consumer.{ConsumerConfig}
use lago.Cache.Writes.{Found}
use lago.Cache.Messages.{cached}
use lago.Cache.Polling.{Fetched, Round, context_done, client_closed, fetch_error, fetched}

module _ {T Bytes : Type 0} (decode : Bytes → Except T) where
  abbrev add_decoded : ℕ → Except T → List (ℕ × T) → List (ℕ × T)
  add_decoded now (error e) messages = messages
  add_decoded now (ok row) messages = (now, row) ∷ messages

  -- The rows of the records that decode, from a fetch and from the rounds before the loop ends, each
  -- with the time when it is met.
  abbrev pub rows_of : List (Fetched Bytes) → List (ℕ × T)
  rows_of [] = []
  rows_of (r ∷ records) =
      if r.canceled then rows_of records else add_decoded r.time (decode r.value) (rows_of records)

  abbrev pub delivered : List (Round Bytes) → List (ℕ × T)
  delivered [] = []
  delivered (context_done ∷ rounds) = []
  delivered (client_closed ∷ rounds) = []
  delivered (fetch_error e true ∷ rounds) = []
  delivered (fetch_error e false ∷ rounds) = delivered rounds
  delivered (fetched records ∷ rounds) = rows_of records ++ delivered rounds

module _ (B : Badger) (L : Laws B) {T : Type 0} {stored : T → T} (C : Codec B.Bytes T stored)
    (config : ConsumerConfig B.Db T) {Message : Type 0} (decode : Message → Except T) where
  -- The version under the key of the row is at least as new as the row.
  abbrev pub IsServed : ℕ → T → B.Db → Type 0
  IsServed now row db =
      (x : T) × (cached B C config now row db ≡ Found x)
      × (config.get_updated_at row ≤ config.get_updated_at x)
