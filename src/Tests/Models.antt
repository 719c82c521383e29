-- ===== src/Tests/Models.antt =====
-- Filters, times and timestamps.
use lago.Prelude.{some-injective, ◌≤◌, ◌*◌, String, [], ◌∷◌, none, some, ◌≡◌, arith}
use lago.Utils.Result.{Except, error, errorf}
use lago.Utils.NullTime.{Time, epoch_micros}
use lago.Models.Event.{Properties, text}
use lago.Models.FlatFilter.{FlatFilter}
use lago.Tests.Fixtures.{filter}

abbrev european : Properties
european = some (("region", some (text "eu")) ∷ [])

abbrev default_filter : FlatFilter
default_filter = record filter { charge_filter_id = none; filters = none }

abbrev a_time : Time
a_time = 62135596800000123456

no_text : String → Except Time
no_text s = error (errorf "cannot parse")

a_time_modern : (t : Time) → some a_time ≡ some t → epoch_micros * 1000 ≤ t
a_time_modern t e = omega (arith, some-injective e)
