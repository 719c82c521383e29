-- ===== src/Tests/Effects.antt =====
-- A key that expires, a subscription that is flagged three times, and a record that is traced.
use Prim.Native.String.{String}
use text.Mathlib.TextLemmas.{tail-eq_of_cons-eq}
use lago.Prelude.{
  some-injective, ℕ, zero, suc, ◌+◌, ◌*◌, ◌/◌, ◌≤◌, ◌<◌, String, lacks, Bool, true, false, List, [],
  ◌∷◌, Option, none, some, In, inl, inr, lookup, insert, lookup-insert, ◌==◌, ◌≡◌, refl, sym, ap,
  arith, if◌then◌else◌,
}
use lago.Utils.Result.{Error, errorf}
use lago.Utils.NullTime.{Time}
use lago.Processor.Effects.{Outside, flag_member}
use lago.Processor.Effects.Keys.{expire_key_injective, HasFilterOf, IsPlain}
use lago.Processor.Effects.Flagging.{SortedSet, flag_all, Plain, flag_all-window}
use lago.Config.Tracing.Hooks.{
  Tag, DdTracer, DdLaws, Message, span_from, on_produce_record_buffered,
  on_produce_record_unbuffered,
}
use lago.Config.Tracing.Hooks.Ending.{outcome_tag, outcome_value, on_produce_record-ends}
use lago.Tests.Fixtures.{naturals, filter}
use lago.Tests.Processor.{outside}

abbrev date : Time → String
date t = "1970-01-01T00:00:00Z"

abbrev sub : String
sub = "s1"

filter-IsPlain : IsPlain filter sub
filter-IsPlain = (refl, refl, λ id e. rw (← some-injective e) refl)

expire_key_injective_example :
    (filter.charge_id ≡ filter.charge_id)
    × (sub ≡ sub)
    × (date filter.charge_updated_at ≡ date filter.charge_updated_at)
    × HasFilterOf date (λ t. refl) filter filter
    × HasFilterOf date (λ t. refl) filter filter
expire_key_injective_example =
    expire_key_injective date (λ t. refl) filter filter sub sub filter-IsPlain filter-IsPlain refl

-- A number as that many strokes.
abbrev strokes : ℕ → String
strokes zero = ""
strokes (suc n) = String.◌∷◌ "I" (strokes n)

strokes_injective : (m n : ℕ) → strokes m ≡ strokes n → m ≡ n
strokes_injective zero zero e = refl
strokes_injective zero (suc n) e = cc
strokes_injective (suc m) zero e = cc
strokes_injective (suc m) (suc n) e = ap suc (strokes_injective m n (tail-eq_of_cons-eq e))

abbrev counting : Outside naturals
counting = record outside { print_number = strokes }

abbrev scores : SortedSet
scores = record {
  Set = List (String × ℕ);
  zadd = λ score member set. insert member score set;
  zscore = lookup;
  zscore-zadd = λ score m j set. lookup-insert m j score set;
}

abbrev flags : List (String × ℕ)
flags = ("org:s1", 12) ∷ ("org:s1", 15) ∷ ("org:s1", 23) ∷ []

flags-bare : (value : String) (now : ℕ) → In (value, now) flags → lacks b'|' value ≡ true
flags-bare value now (inl e) = ap (λ (p : String × ℕ). lacks b'|' p.0) (sym e)
flags-bare value now (inr (inl e)) = ap (λ (p : String × ℕ). lacks b'|' p.0) (sym e)
flags-bare value now (inr (inr (inl e))) = ap (λ (p : String × ℕ). lacks b'|' p.0) (sym e)
flags-bare value now (inr (inr (inr m))) = elim m [ ]

flags-Plain : Plain naturals counting scores flags
flags-Plain = record {
  no_bar = flags-bare;
  printed = strokes_injective;
  added = λ now member. refl;
}

scored :
    scores.zscore
      (flag_member naturals counting 12 "org:s1")
      (flag_all naturals counting scores flags [])
    ≡ some 15
unfolding flag_all flag_member lookup insert
scored = refl

flag_all-window_example : (12 / 10 * 10 ≤ 15) × (15 < 12 / 10 * 10 + 10)
unfolding lookup
flag_all-window_example =
    flag_all-window naturals counting scores flags "org:s1" 12 [] 15 flags-Plain refl refl scored

-- Spans by their number.
record Spans : Type 0 where
  count : ℕ
  finished : ℕ → Bool
  tags : ℕ → List (String × Tag)

abbrev tracer : DdTracer
tracer = record {
  Recorded = Spans;
  Span = ℕ;
  Context = Option ℕ;
  background = none;
  component = "component";
  span_type = "span.type";
  start_span = λ service ctx name rec. (
    (rec.count, some rec.count),
    record {
      count = suc rec.count;
      finished = λ i. if i == rec.count then false else rec.finished i;
      tags = λ i. if i == rec.count then [] else rec.tags i;
    },
  );
  set_tag = λ s k v rec. record rec {
    tags = λ i. if i == s then insert k v (rec.tags i) else rec.tags i;
  };
  finish = λ s rec. record rec { finished = λ i. if i == s then true else rec.finished i };
  with_span = λ ctx s. some s;
  span_of = λ ctx. ctx;
}

equal : (n : ℕ) → (n == n) ≡ true
equal n = ground arith

tracer-DdLaws : DdLaws tracer
unfolding lookup
tracer-DdLaws = record {
  is_finished = λ s rec. rec.finished s;
  tag_of = λ s k rec. lookup k (rec.tags s);
  span_of-with_span = λ ctx s. refl;
  span_of-start_span = λ service ctx name rec. refl;
  finished-start_span = λ service ctx name rec. ground arith;
  finished-set_tag = λ s k v rec. refl;
  finished-finish = λ s rec. ground arith;
  tag-set_tag = λ s k j v rec. rw (equal s) (lookup-insert k j v (rec.tags s));
  tag-finish = λ s k rec. refl;
  tag-start_span = λ service ctx name k rec. rw (equal rec.count) refl;
}

abbrev message : Message tracer
message = record { topic = "events"; partition = 2; offset = 0; key = []; context = none }

abbrev empty : Spans
empty = record { count = 0; finished = λ i. true; tags = λ i. [] }

-- The client has set the offset of the record.
abbrev sent : Message tracer
sent = record (on_produce_record_buffered tracer message empty).0 { offset = 7 }

abbrev refused : Option Error
refused = some (errorf "message too large")

on_produce_record-ends_example :
    (span : ℕ) × (span_from tracer sent ≡ some span)
    × (tracer-DdLaws.is_finished span (on_produce_record_buffered tracer message empty).1 ≡ false)
    × (tracer-DdLaws.is_finished span (on_produce_record_unbuffered tracer sent refused empty)
        ≡ true)
    × (tracer-DdLaws.tag_of span
          (outcome_tag tracer tracer-DdLaws refused)
          (on_produce_record_unbuffered tracer sent refused empty)
        ≡ some (outcome_value tracer tracer-DdLaws sent refused))
on_produce_record-ends_example =
    on_produce_record-ends tracer tracer-DdLaws message sent empty empty refused refl
