-- ===== src/Utils/NullTime.antt =====
-- The nullable times of events-processor/utils/time.go. A time is the number of nanoseconds since
-- Go's zero time (1 January of the year 1, UTC). `Valid` is `some`: an invalid value holds the zero
-- time, since only `Scan(nil)` and the decoding of a fresh value make one.
use lago.Prelude.{
  ℕ, ◌+◌, ◌-◌, ◌*◌, ◌/◌, ◌≤◌, ◌≡◌, ap, refl, String, str_eq, Option, none, some, if◌then◌else◌,
  arith,
}
use lago.Utils.Result.{errorf, Except, ok, error}

abbrev pub Time : Type 0
Time = ℕ

abbrev pub NullTime : Type 0
NullTime = Option Time

-- `nt.Time`, whether the value is valid or not
unfoldable pub time_of : NullTime → Time
time_of none = 0
time_of (some t) = t

-- Microseconds between Go's zero time and 1970.
abbrev pub epoch_micros : ℕ
epoch_micros = 62135596800 * 1000000

-- `t.UnixMicro()` and `time.UnixMicro(us)`, from 1970 on
unfoldable pub unix_micro : Time → ℕ
unix_micro t = t / 1000 - epoch_micros

unfoldable pub from_unix_micro : ℕ → Time
from_unix_micro us = (epoch_micros + us) * 1000

-- `t.UnixMilli()`, counted from Go's zero time: a constant more than Go's result.
unfoldable pub unix_milli : Time → ℕ
unix_milli t = t / 1000000

-- The JSON values that a time is read from.
pub data JsonTime : Type 0 where
  json_null json_other : JsonTime
  json_int : ℕ → JsonTime
  json_string : String → JsonTime

unfoldable pub marshal_json : NullTime → JsonTime
unfolding unix_micro
marshal_json none = json_null
marshal_json (some t) = json_int (unix_micro t)

-- `parse` is `time.Parse(time.RFC3339, …)`.
unfoldable pub unmarshal_json : (String → Except Time) → JsonTime → Except NullTime
unfolding from_unix_micro
unmarshal_json parse json_null = ok none
unmarshal_json parse (json_int us) = ok (some (from_unix_micro us))
unmarshal_json parse json_other = error (errorf "json: cannot unmarshal into a string")
unmarshal_json parse (json_string s) = if str_eq s "" then ok none else elim (parse s) [
  | ok t ↦ ok (some t)
  | error e ↦ error (errorf "unable to parse timestamp string")
]

-- A time as it comes back from JSON: to the microsecond.
unfoldable pub stored_time : NullTime → NullTime
stored_time none = none
stored_time (some t) = some (t / 1000 * 1000)

-- Decoding an encoded time gives it back to the microsecond, from 1970 on; a null time stays null.
pub unmarshal_json-marshal_json :
    (parse : String → Except Time) (nt : NullTime)
    → ((t : Time) → nt ≡ some t → epoch_micros * 1000 ≤ t)
    → unmarshal_json parse (marshal_json nt) ≡ ok (stored_time nt)
unfolding unmarshal_json marshal_json stored_time
unmarshal_json-marshal_json parse none h = refl
unmarshal_json-marshal_json parse (some t) h = ap (λ (u : ℕ). ok (some u)) (omega (arith, h t refl))

-- The milliseconds by which versions are compared survive a round through the cache.
pub unix_milli-stored_time :
    (nt : NullTime) → unix_milli (time_of (stored_time nt)) ≡ unix_milli (time_of nt)
unfolding unix_milli time_of stored_time
unix_milli-stored_time none = refl
unix_milli-stored_time (some t) = omega arith
