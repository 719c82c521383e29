-- ===== src/Models/Streaming.antt =====
-- events-processor/models/query_streaming.go: reading a table row by row. Progress is only logged.
pub mod All
use lago.Prelude.{
  ℕ, suc, ◌+◌, ◌*◌, String, Bool, List, [], ◌∷◌, Option, none, some, snoc, ◌==◌, if◌then◌else◌,
}
use lago.Utils.Result.{Error, Except, ok, error, Result, success_result, failed_result}
use lago.Utils.NullTime.{Time}

pub record StreamQueryConfig : Type 0 where
  pub table_name : String
  pub select_fields : List String
  pub where_condition : String
  pub where_args : List Time
  pub log_interval : ℕ

-- What a query ends in: an error, or its rows as `ScanRows` reads them and the error that the
-- iteration ended with.
abbrev pub Rows : Type 0 → Type 0
Rows T = Except (List (Except T) × Option Error)

-- After how many rows progress is logged.
unfoldable pub effective_log_interval : StreamQueryConfig → ℕ
effective_log_interval config = if config.log_interval == 0 then 50000 else config.log_interval

module _ {T S : Type 0} (callback : T → S → S × Option Error) where
  -- The loop over the rows. `S` is what the callback changes.
  unfoldable pub stream_loop : List (Except T) → Option Error → ℕ → S → (ℕ × Option Error) × S
  stream_loop [] end count s = ((count, end), s)
  stream_loop (error e ∷ rows) end count s = ((count, some e), s)
  stream_loop (ok item ∷ rows) end count s =
      let called = callback item s in
      elim called.1 [
        | some e ↦ ((count, some e), called.0)
        | none ↦ stream_loop rows end (count + 1) called.0
      ]

  unfoldable pub stream_rows : Rows T → S → (ℕ × Option Error) × S
  unfolding stream_loop
  stream_rows rows s = elim rows [
    | error e ↦ ((0, some e), s)
    | ok (read, end) ↦ stream_loop read end 0 s
  ]

-- The callback of `GetAllWithStreaming`.
unfoldable pub append_item : {T : Type 0} → T → List T → List T × Option Error
append_item item items = (snoc items item, none)

unfoldable pub get_all_with_streaming : {T : Type 0} → Rows T → Result (List T)
unfolding stream_rows append_item success_result failed_result
get_all_with_streaming rows =
    let streamed = stream_rows append_item rows [] in
    elim streamed.0.1 [ some e ↦ failed_result [] e | none ↦ success_result streamed.1 ]
