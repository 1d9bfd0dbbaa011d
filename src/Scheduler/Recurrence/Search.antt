-- ===== src/Scheduler/Recurrence/Search.antt =====
-- The scan of `first_utc_match`: it ends within its fuel, and what it returns is the first match.
use crono.Prelude.{
  ℕ, zero, suc, ◌+◌, ◌*◌, ◌≤◌, ◌<◌, ◌≡◌, ◌≢◌, refl, true, false, ◌⊎◌, inl, inr, none, some, arith,
  leb, leb→le, Bool-cases, ok,
}
use crono.Scheduler.Recurrence.{
  Calendar, CronFields, matches, nanos_per_minute, scan, scan_fuel, search_end_of, next_minute,
  first_utc_match,
}

search_end-le :
    (c : Calendar) (after library_next : ℕ) → search_end_of c after library_next ≤ library_next
search_end-le c after library_next = ground arith

search_end-bound :
    (c : Calendar) (after library_next : ℕ)
    → (search_end_of c after library_next < next_minute after + 1560 * nanos_per_minute)
      ⊎ (c.max_utc < next_minute after + 1560 * nanos_per_minute)
search_end-bound c after library_next = ground arith

-- The first 1560 whole minutes lie within the search, if they come before the library's answer.
covered-le :
    (c : Calendar) (after library_next k : ℕ)
    → next_minute after + k * nanos_per_minute < library_next
    → k < 1560
    → next_minute after + k * nanos_per_minute ≤ search_end_of c after library_next
covered-le c after library_next k lt covered = ground arith

next_minute-bounds :
    (after : ℕ) → (after < next_minute after) × (next_minute after ≤ after + nanos_per_minute)
next_minute-bounds after = omega arith

-- What the scan owes for an instant `after` and the library's answer `library_next`.
pub record IsFirstMatch (c : Calendar) (fields : CronFields) (zone : Calendar.Tz c)
    (after library_next n : ℕ) : Type 0 where
  pub later : after < n
  pub no_later_than : n ≤ library_next
  pub matching : (n ≡ library_next) ⊎ (matches fields (Calendar.with_timezone c zone n) ≡ true)
  -- no minute that matches is passed over
  pub first :
      (k : ℕ)
      → next_minute after + k * nanos_per_minute < n
      → k < 1560
      → matches fields (Calendar.with_timezone c zone (next_minute after + k * nanos_per_minute))
        ≡ false

module _ (c : Calendar) (fields : CronFields) (zone : Calendar.Tz c) where
  open c use {with_timezone}

  scan-ne-none :
      (k search_end library_next candidate : ℕ)
      → candidate ≤ c.max_utc
      → (search_end < candidate + k * nanos_per_minute)
        ⊎ (c.max_utc < candidate + k * nanos_per_minute)
      → scan c (suc k) fields zone search_end library_next candidate ≢ none
  unfolding scan
  scan-ne-none zero search_end library_next candidate fits h = ground arith
  scan-ne-none (suc k) search_end library_next candidate fits h =
      ground (arith, scan-ne-none k search_end library_next (candidate + nanos_per_minute))

  -- What is found is the library's answer, or a match within the search.
  scan_found :
      (fuel search_end library_next candidate n : ℕ)
      → scan c fuel fields zone search_end library_next candidate ≡ some (ok n)
      → (n ≡ library_next)
        ⊎ ((candidate ≤ n) × (n ≤ search_end) × (matches fields (with_timezone zone n) ≡ true))
  unfolding scan
  scan_found zero search_end library_next candidate n h = ground arith
  scan_found (suc fuel) search_end library_next candidate n h =
      ground (arith, scan_found fuel search_end library_next (candidate + nanos_per_minute) n)

  -- Every minute before what is found was tried, and does not match.
  scan_skips :
      (fuel search_end library_next candidate k n m : ℕ)
      → m ≡ candidate + k * nanos_per_minute
      → scan c fuel fields zone search_end library_next candidate ≡ some (ok n)
      → m < n
      → m ≤ search_end
      → matches fields (with_timezone zone m) ≡ false
  unfolding scan
  scan_skips zero search_end library_next candidate k n m e h lt le = ground arith
  scan_skips (suc fuel) search_end library_next candidate zero n m e h lt le =
      let same : m ≡ candidate = omega arith in ground arith
  scan_skips (suc fuel) search_end library_next candidate (suc k) n m e h lt le =
      ground (arith, scan_skips fuel search_end library_next (candidate + nanos_per_minute) k n m)

  -- 26 hours of minutes, and one round more for the failing test, are fuel enough.
  pub first_utc_match-ne-none :
      (after library_next : ℕ) → first_utc_match c fields zone after library_next ≢ none
  unfolding first_utc_match
  first_utc_match-ne-none after library_next =
      elim (Bool-cases (leb (next_minute after) c.max_utc)) [
        | inl fits ↦ rw fits (
            scan-ne-none 1560 (search_end_of c after library_next) library_next (next_minute after)
              (leb→le _ _ fits) (search_end-bound c after library_next))
        | inr past ↦ rw past (λ e. cc)
      ]

  -- What `first_utc_match` returns is the library's answer or a match within 26 hours, and none of
  -- the whole minutes before it that the search covers matches.
  pub first_utc_match_sound :
      (after library_next n : ℕ)
      → after < library_next
      → first_utc_match c fields zone after library_next ≡ some (ok n)
      → IsFirstMatch c fields zone after library_next n
  unfolding first_utc_match
  first_utc_match_sound after library_next n later h =
      elim (Bool-cases (leb (next_minute after) c.max_utc)) [
        | inl fits ↦
            let found = rw fits at h in
            let kind = scan_found scan_fuel _ library_next (next_minute after) n found in
            let early = next_minute-bounds after in
            let bound = search_end-le c after library_next in
            record {
              later = omega arith;
              no_later_than = omega arith;
              matching = ground arith;
              first = λ k lt covered.
                  scan_skips scan_fuel (search_end_of c after library_next) library_next
                    (next_minute after) k n _ refl found lt
                    (covered-le c after library_next k (omega arith) covered);
            }
        | inr past ↦ absurd (cc (rw past at h))
      ]
