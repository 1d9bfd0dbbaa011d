-- ===== src/Scheduler/Recurrence/Next.antt =====
-- `next_cron_occurrence` as a whole: it returns, and its answer is the first match after `after`.
use crono.Prelude.{ℕ, ◌<◌, ◌≡◌, ◌≢◌, none, some, arith, Text, refl, Result, ok, err}
use crono.Scheduler.Recurrence.{
  Calendar, CronFields, prepare, resume, parsed_fields, first_utc_match, next_cron_occurrence,
  settle, to_stored, RecurrenceError,
}
use crono.Scheduler.Recurrence.Search.{IsFirstMatch, first_utc_match_sound, first_utc_match-ne-none}

module _ (c : Calendar) (after : ℕ) where
  open c use {Tz, parse_zone, parse_cron}

  resume-ne-none : (p : Result RecurrenceError (CronFields × Tz × ℕ)) → resume c after p ≢ none
  unfolding resume settle
  resume-ne-none (err e) h = cc
  resume-ne-none (ok (fields, zone, library_next)) h =
      ground (arith, first_utc_match-ne-none c fields zone after library_next)

  -- What `settle` stores is what the scan found.
  settle-inv :
      (fields : CronFields) (zone : Tz) (library_next n : ℕ)
      → settle c fields zone after library_next ≡ some (ok n)
      → first_utc_match c fields zone after library_next ≡ some (ok n)
  unfolding settle to_stored
  settle-inv fields zone library_next n h = ground arith

  prepare-inv :
      (expression timezone : Text) (fields : CronFields) (zone : Tz) (library_next : ℕ)
      → prepare c expression timezone after ≡ ok (fields, zone, library_next)
      → (parsed_fields c expression ≡ ok fields)
        × (parse_zone timezone ≡ some zone)
        × (parse_cron expression zone after ≡ some library_next)
  unfolding prepare
  prepare-inv expression timezone fields zone library_next h = ground arith

  resume-inv :
      (p : Result RecurrenceError (CronFields × Tz × ℕ)) (n : ℕ)
      → resume c after p ≡ some (ok n)
      → (fields : CronFields) × (zone : Tz) × (library_next : ℕ) × (p
          ≡ ok (fields, zone, library_next))
        × (first_utc_match c fields zone after library_next ≡ some (ok n))
  unfolding resume
  resume-inv (err e) n h = cc
  resume-inv (ok (fields, zone, library_next)) n h =
      (fields, zone, library_next, refl, settle-inv fields zone library_next n h)

module _ (c : Calendar) (expression timezone : Text) (after : ℕ) where
  open c use {Tz, parse_zone, parse_cron}

  -- Every call ends within its fuel, with a result or an error.
  pub next_cron_occurrence-ne-none : next_cron_occurrence c expression timezone after ≢ none
  unfolding next_cron_occurrence
  next_cron_occurrence-ne-none = resume-ne-none c after (prepare c expression timezone after)

  -- If `cron_parser` answers with a later instant, as it documents, then a result of
  -- `next_cron_occurrence` is later than `after` and not later than that answer, it is that answer
  -- or an instant whose wall clock matches the five fields, and of the 1560 whole minutes after
  -- `after` none that comes before the result matches.
  pub next_cron_occurrence-IsFirstMatch :
      (n : ℕ)
      → ((zone : Tz) (t u : ℕ) → parse_cron expression zone t ≡ some u → t < u)
      → next_cron_occurrence c expression timezone after ≡ some (ok n)
      → (fields : CronFields) × (zone : Tz) × (library_next : ℕ) × (parsed_fields c expression
          ≡ ok fields)
        × (parse_zone timezone ≡ some zone)
        × (parse_cron expression zone after ≡ some library_next)
        × IsFirstMatch c fields zone after library_next n
  unfolding next_cron_occurrence
  next_cron_occurrence-IsFirstMatch n later h =
      let (fields, zone, library_next, ready, found) =
        resume-inv c after (prepare c expression timezone after) n h in
      let (e, z, l) = prepare-inv c after expression timezone fields zone library_next ready in
      (
        fields,
        zone,
        library_next,
        e,
        z,
        l,
        first_utc_match_sound c fields zone after library_next n (later zone after library_next l)
            found,
      )
