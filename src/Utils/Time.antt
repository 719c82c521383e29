-- ===== src/Utils/Time.antt =====
-- events-processor/utils/time.go: reading the timestamp of an event.
use lago.Prelude.{ℕ, ◌*◌, ◌/◌, String, ◌≡◌, refl, inl, inr}
use lago.Utils.Result.{
  Error, errorf, Except, ok, error, Except-cases, Result, success_result, failed_result,
}
use lago.Utils.NullTime.{Time}

-- What the code calls of Go's floats and calendar. `Int` is `int64`.
pub record Numbers : Type 1 where
  pub Float : Type 0
  pub Int : Type 0
  pub parse_float : String → Except Float
  pub parse_rfc3339 : String → Except Time
  pub int64_of : Float → Int
  pub float64_of : Int → Float
  pub literal : ℕ → Float
  pub sub : Float → Float → Float
  pub mul : Float → Float → Float
  pub div : Float → Float → Float
  pub trunc : Float → Float
  pub zero_int : Int
  pub unix : Int → Int → Time
  pub unix_milli : Time → Int
  pub format : Float → String

-- A timestamp by the Go type that it has.
pub data Timestamp (N : Numbers) : Type 0 where
  ts_string : String → Timestamp N
  ts_int : N.Int → Timestamp N
  ts_int64 : N.Int → Timestamp N
  ts_float : N.Float → Timestamp N
  ts_other : Timestamp N

-- `t.Truncate(time.Millisecond)`
unfoldable pub truncate : Time → Time
truncate t = t / 1000000 * 1000000

unsupported : Error
unsupported = errorf "Unsupported timestamp type"

module _ (N : Numbers) where
  open N use {Float, Int}

  -- The seconds and the nanoseconds of a float.
  unfoldable pub float_time : Float → Time
  unfolding truncate
  float_time f =
      let seconds = N.int64_of f in
      let nanoseconds =
        N.int64_of (N.mul (N.sub f (N.float64_of seconds)) (N.literal 1000000000)) in
      truncate (N.unix seconds nanoseconds)

  unfoldable pub int_time : Int → Time
  unfolding truncate
  int_time n = truncate (N.unix n N.zero_int)

  unfoldable pub to_time : Timestamp N → Result Time
  unfolding float_time int_time success_result failed_result unsupported
  to_time (ts_string s) = elim (N.parse_float s) [
    | ok f ↦ success_result (float_time f)
    | error err ↦ elim (N.parse_rfc3339 s) [
      | ok t ↦ success_result t
      | error time_error ↦ failed_result 0 err
    ]
  ]
  to_time (ts_int n) = success_result (int_time n)
  to_time (ts_int64 n) = success_result (int_time n)
  to_time (ts_float f) = success_result (float_time f)
  to_time ts_other = failed_result 0 unsupported

  unfoldable pub to_float64_timestamp : Timestamp N → Result Float
  unfolding success_result failed_result unsupported
  to_float64_timestamp (ts_string s) = elim (N.parse_float s) [
    | ok f ↦ success_result (N.div (N.trunc (N.mul f (N.literal 1000))) (N.literal 1000))
    | error err ↦ elim (N.parse_rfc3339 s) [
      | ok t ↦ success_result (N.div (N.float64_of (N.unix_milli t)) (N.literal 1000))
      | error time_error ↦ failed_result (N.literal 0) err
    ]
  ]
  to_float64_timestamp (ts_int n) = success_result (N.float64_of n)
  to_float64_timestamp (ts_int64 n) = success_result (N.float64_of n)
  to_float64_timestamp (ts_float f) = success_result f
  to_float64_timestamp ts_other = failed_result (N.literal 0) unsupported

  -- A timestamp that can be read as a number can be read as a time, and the other way round: the
  -- two readings fail on the same timestamps, with the same error.
  pub to_time-to_float64_timestamp :
      (ts : Timestamp N) → (to_time ts).err ≡ (to_float64_timestamp ts).err
  unfolding to_time to_float64_timestamp
  to_time-to_float64_timestamp (ts_string s) = elim (Except-cases (N.parse_float s)) [
    | inr (f, p) ↦ rw (p, to_time, to_float64_timestamp)
    | inl (e, p) ↦ elim (Except-cases (N.parse_rfc3339 s)) [
      | inr (t, q) ↦ rw (p, to_time, to_float64_timestamp) (rw (q, to_time, to_float64_timestamp))
      | inl (e', q) ↦ rw (p, to_time, to_float64_timestamp) (rw (q, to_time, to_float64_timestamp))
    ]
  ]
  to_time-to_float64_timestamp (ts_int n) = refl
  to_time-to_float64_timestamp (ts_int64 n) = refl
  to_time-to_float64_timestamp (ts_float f) = refl
  to_time-to_float64_timestamp ts_other = refl
