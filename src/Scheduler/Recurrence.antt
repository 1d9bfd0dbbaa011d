-- ===== src/Scheduler/Recurrence.antt =====
-- services/server/src/scheduler/recurrence.rs: the next occurrence of a five-field cron expression.
-- The crates `cron_parser`, `chrono` and `chrono_tz` enter as the parameter `Calendar`.
pub mod Search
pub mod Next
use mathlib.Core.Option
use crono.Prelude.{
  ℕ, zero, suc, ◌+◌, ◌*◌, ◌/◌, Bool, ◌&&◌, Option, none, some, List, [], ◌∷◌, min, any, leb, ◌==◌,
  if◌then◌else◌, Text, split_whitespace, Result, ok, err, ok_or, ◌>>=◌,
}

pub data RecurrenceError : Type 0 where
  invalid_expression invalid_timezone out_of_range : RecurrenceError

-- what the source reads of a `DateTime<Tz>`
pub record WallClock : Type 0 where
  pub minute : ℕ
  pub hour : ℕ
  pub day : ℕ
  pub month : ℕ
  pub num_days_from_sunday : ℕ

pub record Calendar : Type 1 where
  -- `chrono_tz::Tz` and its `parse`
  pub Tz : Type 0
  pub parse_zone : Text → Option Tz
  -- `cron_parser::parse_field(field, min, max)` and `cron_parser::parse(expression, from)`
  pub parse_field : Text → ℕ → ℕ → Option (List ℕ)
  pub parse_cron : Text → Tz → ℕ → Option ℕ
  -- `with_timezone` of a UTC instant
  pub with_timezone : Tz → ℕ → WallClock
  -- the last instant of `DateTime<Utc>`, and the first and the last one whose nanoseconds since 1970
  -- fit an `i64`
  pub max_utc : ℕ
  pub min_nanos : ℕ
  pub max_nanos : ℕ

abbrev pub nanos_per_minute : ℕ
nanos_per_minute = 60_000_000_000

abbrev pub overlap_search_hours : ℕ
overlap_search_hours = 26

pub record CronFields : Type 0 where
  pub minutes : List ℕ
  pub hours : List ℕ
  pub days_of_month : List ℕ
  pub months : List ℕ
  pub days_of_week : List ℕ

abbrev contains : List ℕ → ℕ → Bool
contains xs n = any (λ x. x == n) xs

unfoldable pub matches : CronFields → WallClock → Bool
matches f candidate =
    contains f.minutes candidate.minute
    && contains f.hours candidate.hour
    && contains f.days_of_month candidate.day
    && contains f.months candidate.month
    && contains f.days_of_week candidate.num_days_from_sunday

abbrev pub scan_fuel : ℕ
scan_fuel = overlap_search_hours * 60 + 1

-- the first whole minute after an instant
abbrev pub next_minute : ℕ → ℕ
next_minute after = (after / nanos_per_minute + 1) * nanos_per_minute

module _ (c : Calendar) where
  open c use {Tz, parse_zone, parse_field, parse_cron, with_timezone, max_utc, min_nanos, max_nanos}

  unfoldable pub field_set : Text → ℕ → ℕ → Result RecurrenceError (List ℕ)
  field_set text low high = ok_or (parse_field text low high) invalid_expression

  unfoldable pub from_words : List Text → Result RecurrenceError CronFields
  unfolding field_set
  from_words (m ∷ h ∷ dom ∷ mon ∷ dow ∷ []) = do
    minutes ← field_set m 0 59
    hours ← field_set h 0 23
    days_of_month ← field_set dom 1 31
    months ← field_set mon 1 12
    days_of_week ← field_set dow 0 6
    ok (record {
      minutes = minutes;
      hours = hours;
      days_of_month = days_of_month;
      months = months;
      days_of_week = days_of_week;
    })
  from_words _ = err invalid_expression

  unfoldable pub parsed_fields : Text → Result RecurrenceError CronFields
  unfolding from_words split_whitespace
  parsed_fields expression = from_words (split_whitespace expression)

  -- `checked_add_signed` and `from_timestamp`
  abbrev pub in_range : ℕ → Option ℕ
  in_range t = if leb t max_utc then some t else none

  -- The `while` loop of `first_utc_match`, `none` where the fuel runs out.
  unfoldable pub scan : ℕ → CronFields → Tz → ℕ → ℕ → ℕ → Option (Result RecurrenceError ℕ)
  scan zero fields zone search_end library_next candidate = none
  scan (suc fuel) fields zone search_end library_next candidate =
      let rest = scan fuel fields zone search_end library_next (candidate + nanos_per_minute) in
      if leb candidate search_end
      then if matches fields (with_timezone zone candidate)
        then some (ok candidate)
        else if leb (candidate + nanos_per_minute) max_utc
        then rest
        else some (err out_of_range)
      else some (ok library_next)

  -- Where the scan may stop: 26 hours on, or at the library's own answer.
  abbrev pub search_end_of : ℕ → ℕ → ℕ
  search_end_of after library_next =
      let limit = after + overlap_search_hours * 60 * nanos_per_minute in
      if leb limit max_utc then min limit library_next else library_next

  unfoldable pub first_utc_match : CronFields → Tz → ℕ → ℕ → Option (Result RecurrenceError ℕ)
  unfolding scan
  first_utc_match fields zone after library_next =
      if leb (next_minute after) max_utc
      then scan scan_fuel fields zone (search_end_of after library_next) library_next
          (next_minute after)
      else some (err out_of_range)

  -- `from_unix_timestamp_nanos` of what was found
  unfoldable pub to_stored : ℕ → Result RecurrenceError ℕ
  to_stored next = if leb min_nanos next && leb next max_nanos then ok next else err out_of_range

  -- the part of `next_cron_occurrence` behind the library's answer
  unfoldable pub settle : CronFields → Tz → ℕ → ℕ → Option (Result RecurrenceError ℕ)
  settle fields zone after library_next =
      Option.map (λ found. found >>= to_stored) (first_utc_match fields zone after library_next)

  -- everything that comes before the scan: the fields, the zone and the library's own answer
  unfoldable pub prepare : Text → Text → ℕ → Result RecurrenceError (CronFields × Tz × ℕ)
  prepare expression timezone after = do
    fields ← parsed_fields expression
    zone ← ok_or (parse_zone timezone) invalid_timezone
    utc ← ok_or (in_range after) out_of_range
    library_next ← ok_or (parse_cron expression zone utc) invalid_expression
    ok (fields, zone, library_next)

  unfoldable pub resume :
      ℕ → Result RecurrenceError (CronFields × Tz × ℕ) → Option (Result RecurrenceError ℕ)
  resume after (ok (fields, zone, library_next)) = settle fields zone after library_next
  resume after (err e) = some (err e)

  unfoldable pub next_cron_occurrence : Text → Text → ℕ → Option (Result RecurrenceError ℕ)
  next_cron_occurrence expression timezone after = resume after (prepare expression timezone after)

  -- `now` is the clock that `validate_cron` reads
  unfoldable pub validate_cron : ℕ → Text → Text → Result RecurrenceError (Unit {0})
  unfolding parsed_fields
  validate_cron now expression timezone = do
    _ ← parsed_fields expression
    zone ← ok_or (parse_zone timezone) invalid_timezone
    _ ← ok_or (parse_cron expression zone now) invalid_expression
    ok tt
