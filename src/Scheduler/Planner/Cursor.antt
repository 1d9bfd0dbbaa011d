-- ===== src/Scheduler/Planner/Cursor.antt =====
-- Planning moves forward: the occurrences of a plan are in order, due, bounded in number, and all
-- before the next due instant, which lies after `now`.
use Prim.Native.String.{String}
use crono.Prelude.{
  ℕ, zero, suc, ◌+◌, ◌-◌, ◌*◌, ◌≤◌, ◌<◌, max, ◌≡◌, refl, sym, ap, ◌∙◌, false, ◌&&◌, ◌⊎◌, inl, inr,
  Option, none, some, List, [], ◌∷◌, ◌++◌, arith, length, length-append, All, All-append, ltb, leb,
  ltb→lt, leb→le, Bool-cases, Text, Result, ok, ◌>>=◌, >>=-ok,
}
use crono.Domain.Schedule.{CatchupPolicy, ScheduleTiming, Schedule, PlannedOccurrence, SchedulePlan}
use crono.Scheduler.Misfire.{nanos_per_second}
use crono.Scheduler.Recurrence.{Calendar, RecurrenceError, next_cron_occurrence}
use crono.Scheduler.Recurrence.Next.{next_cron_occurrence-IsFirstMatch}
use crono.Scheduler.Planner.{
  occurrence, skipped, skip_summary, age_summary, excess_summary, Progress, catch_up_loop,
  summarize_old, summarize_excess, catch_up, plan_cron, plan_timing, plan_from, plan,
  or_out_of_range,
}

-- Strictly ascending instants, from `low` on, and all before `high`.
abbrev pub Ascending : ℕ → List PlannedOccurrence → ℕ → Type 0
Ascending low [] high = low ≤ high
Ascending low (o ∷ os) high = (low ≤ o.scheduled_at) × Ascending (suc o.scheduled_at) os high

abbrev pub IsDue : ℕ → PlannedOccurrence → Type 0
IsDue now o = o.scheduled_at ≤ now

Ascending-snoc :
    (low : ℕ) (os : List PlannedOccurrence) (cursor high : ℕ) (o : PlannedOccurrence)
    → Ascending low os cursor
    → cursor ≤ o.scheduled_at
    → o.scheduled_at < high
    → Ascending low (os ++ o ∷ []) high
Ascending-snoc low [] cursor high o h le lt = omega arith
Ascending-snoc low (p ∷ os) cursor high o h le lt =
    (h.0, Ascending-snoc (suc p.scheduled_at) os cursor high o h.1 le lt)

scheduled_at-occurrence :
    (s : Schedule) (t now : ℕ) (reason : Option String)
    → (occurrence s t now reason).scheduled_at ≡ t
unfolding occurrence
scheduled_at-occurrence s t now reason = ground arith

scheduled_at-skipped : (t now : ℕ) (reason : String) → (skipped t now reason).scheduled_at ≡ t
unfolding skipped
scheduled_at-skipped t now reason = refl

-- What holds of the occurrences collected so far and the cursor.
record Collected (now low : ℕ) (p : Progress) : Type 0 where
  ordered : Ascending low p.0 p.1
  due : All (IsDue now) p.0

module _ (next : ℕ → Result RecurrenceError ℕ) (later : (t u : ℕ) → next t ≡ ok u → t < u)
    (schedule : Schedule) (now : ℕ) where
  push-Collected :
      (low cursor u : ℕ) (os : List PlannedOccurrence) (o : PlannedOccurrence)
      → o.scheduled_at ≡ cursor
      → cursor ≤ now
      → cursor < u
      → Collected now low (os, cursor)
      → Collected now low (os ++ o ∷ [], u)
  push-Collected low cursor u os o same due lt h = record {
    ordered = Ascending-snoc low os cursor u o h.ordered (omega arith) (omega arith);
    due = All-append (IsDue now) os (o ∷ []) h.due (omega arith);
  }

  -- `limit` rounds are fuel enough: the loop ends by its own test.
  catch_up_loop_lem :
      (fuel limit low cursor : ℕ) (os : List PlannedOccurrence) (p : Progress)
      → catch_up_loop next schedule now fuel limit (os, cursor) ≡ ok p
      → limit ≤ fuel + length os
      → Collected now low (os, cursor)
      → Collected now low p
        × (length p.0 ≤ max limit (length os))
        × ((now < p.1) ⊎ (limit ≤ length p.0))
  unfolding catch_up_loop
  catch_up_loop_lem zero limit low cursor os p h enough inv =
      let same : ◌≡◌ {A = Progress} (os, cursor) p = cc in
      rw (← same) (inv, omega arith, inr (omega arith))
  catch_up_loop_lem (suc fuel) limit low cursor os p h enough inv =
      elim (Bool-cases (leb cursor now && ltb (length os) limit)) [
        | inl more ↦
            let (u, at, rest) = >>=-ok (next cursor) _ (rw more at h) in
            let o = occurrence schedule cursor now none in
            let due : (cursor ≤ now) × (length os < limit) = ground arith in
            let room = length-append os (o ∷ []) in
            let (inv', bound, exit) =
              catch_up_loop_lem fuel limit low u (os ++ o ∷ []) p rest (omega arith) (
                push-Collected low cursor u os o (scheduled_at-occurrence schedule cursor now none)
                  due.0 (later cursor u at) inv) in
            (inv', omega arith, exit)
        | inr done ↦
            let same : ◌≡◌ {A = Progress} (os, cursor) p = cc (rw done at h) in
            rw (← same) (inv, omega arith, ground arith)
      ]

  summarize_old_lem :
      (first_due : ℕ) (p : Progress)
      → first_due ≤ now
      → summarize_old next schedule now first_due ≡ ok p
      → Collected now first_due p × (length p.0 ≤ 1)
  unfolding summarize_old skipped
  summarize_old_lem first_due p due h =
      let oldest = now - schedule.max_catchup_age_seconds * nanos_per_second in
      elim (Bool-cases (ltb first_due oldest)) [
        | inl old ↦
            let (u, at, rest) = >>=-ok (next oldest) _ (rw old at h) in
            let same : ◌≡◌ {A = Progress} (skipped first_due now age_summary ∷ [], u) p = cc rest in
            let after = later oldest u at in
            let past = ltb→lt first_due oldest old in
            rw (← same) (record { ordered = omega arith; due = omega arith }, omega arith)
        | inr recent ↦
            let same : ◌≡◌ {A = Progress} ([], first_due) p = cc (rw recent at h) in
            rw (← same) (record { ordered = omega arith; due = tt }, omega arith)
      ]

  summarize_excess_lem :
      (low : ℕ) (os : List PlannedOccurrence) (cursor : ℕ) (p : Progress)
      → summarize_excess next schedule now (os, cursor) ≡ ok p
      → Collected now low (os, cursor)
      → Collected now low p × (now < p.1) × (length p.0 ≤ suc (length os))
  unfolding summarize_excess skipped
  summarize_excess_lem low os cursor p h inv = elim (Bool-cases (leb cursor now)) [
    | inl due ↦
        let (u, at, rest) = >>=-ok (next now) _ (rw due at h) in
        let o = skipped cursor now excess_summary in
        let same : ◌≡◌ {A = Progress} (os ++ o ∷ [], u) p = cc rest in
        let after = later now u at in
        let reached = leb→le cursor now due in
        let grown = length-append os (o ∷ []) in
        rw (← same)
          (push-Collected low cursor u os o refl reached (omega arith) inv, after, omega arith)
    | inr caught_up ↦
        let same : ◌≡◌ {A = Progress} (os, cursor) p = cc (rw caught_up at h) in
        rw (← same) (inv, ground arith, omega arith)
  ]

  -- One occurrence, and the cursor moved past `now`.
  single_lem :
      (o : PlannedOccurrence) (first_due : ℕ) (p : Progress)
      → o.scheduled_at ≡ first_due
      → first_due ≤ now
      → (next now >>= λ u. ok (o ∷ [], u)) ≡ ok p
      → Collected now first_due p × (now < p.1) × (length p.0 ≤ 1)
  single_lem o first_due p at due h =
      let (u, e, rest) = >>=-ok (next now) _ h in
      let same : ◌≡◌ {A = Progress} (o ∷ [], u) p = cc rest in
      let after = later now u e in
      rw (← same) (record { ordered = omega arith; due = omega arith }, after, omega arith)

  catch_up_lem :
      (policy : CatchupPolicy) (first_due : ℕ) (p : Progress)
      → first_due ≤ now
      → catch_up next schedule now policy first_due ≡ ok p
      → Collected now first_due p
        × (now < p.1)
        × (length p.0 ≤ suc (max schedule.max_catchup_runs 1))
  unfolding catch_up
  catch_up_lem CatchupPolicy.skip first_due p due h =
      let (inv, after, one) =
        single_lem (skipped first_due now skip_summary) first_due p
          (scheduled_at-skipped first_due now skip_summary) due h in
      (inv, after, omega arith)
  catch_up_lem CatchupPolicy.run_once first_due p due h =
      let (inv, after, one) =
        single_lem _ first_due p (scheduled_at-occurrence schedule first_due now _) due h in
      (inv, after, omega arith)
  catch_up_lem CatchupPolicy.catch_up first_due p due h =
      let limit = schedule.max_catchup_runs in
      let (q, old, rest) = >>=-ok (summarize_old next schedule now first_due) _ h in
      let (r, loop, last) = >>=-ok (catch_up_loop next schedule now limit limit q) _ rest in
      let (inv, one) = summarize_old_lem first_due q due old in
      let (inv', bound, _) =
        catch_up_loop_lem limit limit first_due q.1 q.0 r loop (omega arith) inv in
      let (inv'', after, grown) = summarize_excess_lem first_due r.0 r.1 p last inv' in
      (inv'', after, omega arith)

-- What a plan for the Schedule's due instant promises.
pub record IsForward (now first_due limit : ℕ) (p : SchedulePlan) : Type 0 where
  pub cursor : ℕ
  pub stored : p.next_run_at ≡ some cursor
  pub after_now : now < cursor
  pub ordered : Ascending first_due p.occurrences cursor
  pub due : All (IsDue now) p.occurrences
  pub bounded : length p.occurrences ≤ suc (max limit 1)
  pub kept : p.disable ≡ false

module _ (next : ℕ → Result RecurrenceError ℕ) (later : (t u : ℕ) → next t ≡ ok u → t < u)
    (schedule : Schedule) (now owner first_due : ℕ) where
  pub plan_cron-IsForward :
      (p : SchedulePlan)
      → first_due ≤ now
      → plan_cron next schedule now owner first_due ≡ ok p
      → IsForward now first_due schedule.max_catchup_runs p
  unfolding plan_cron
  plan_cron-IsForward p due h =
      let (q, at, rest) =
        >>=-ok (catch_up next schedule now schedule.catchup_policy first_due) _ h in
      let (inv, after, bound) =
        catch_up_lem next later schedule now schedule.catchup_policy first_due q due at in
      let same : ◌≡◌ {A = SchedulePlan}
          (record {
            schedule_id = schedule.id;
            owner = owner;
            occurrences = q.0;
            next_run_at = some q.1;
            disable = false;
          })
          p =
        cc rest in
      rw (← same) (record {
        cursor = q.1;
        stored = refl;
        after_now = after;
        ordered = inv.ordered;
        due = inv.due;
        bounded = bound;
        kept = refl;
      })

answered :
    (o : Option (Result RecurrenceError ℕ)) (u : ℕ) → or_out_of_range o ≡ ok u → o ≡ some (ok u)
answered (some r) u h = ap some h
answered none u h = cc

-- the closure over `next_cron_occurrence` inherits what it promises
next_later :
    (c : Calendar) (expression timezone : Text) (t u : ℕ)
    → ((zone : Calendar.Tz c) (a b : ℕ) → Calendar.parse_cron c expression zone a ≡ some b → a < b)
    → or_out_of_range (next_cron_occurrence c expression timezone t) ≡ ok u
    → t < u
next_later c expression timezone t u later h =
    let (fields, zone, library_next, e, z, l, found) =
      next_cron_occurrence-IsFirstMatch c expression timezone t u later (answered _ u h) in
    found.later

-- If `cron_parser` answers with a later instant, then a plan of a cron Schedule that is due at
-- `now` stores a next instant after `now` and keeps the Schedule enabled; its occurrences are
-- strictly ascending, begin no earlier than the due instant, lie at or before `now` and before the
-- next instant; and they number at most `max_catchup_runs` (taken as 1 if it is 0) and one more.
pub plan-IsForward :
    (c : Calendar) (schedule : Schedule) (owner now first_due : ℕ) (expression timezone : Text)
    (p : SchedulePlan)
    → ((zone : Calendar.Tz c) (a b : ℕ) → Calendar.parse_cron c expression zone a ≡ some b → a < b)
    → schedule.timing ≡ ScheduleTiming.cron expression timezone
    → schedule.next_run_at ≡ some first_due
    → first_due ≤ now
    → plan c schedule owner now ≡ ok p
    → IsForward now first_due schedule.max_catchup_runs p
unfolding plan plan_from plan_timing
plan-IsForward c schedule owner now first_due expression timezone p later timed stored due h =
    plan_cron-IsForward _ (λ t u. next_later c expression timezone t u later) schedule now owner
      first_due p due
      (sym (ap (plan_timing c schedule owner now first_due) timed)
        ∙ sym (ap (plan_from c schedule owner now) stored)
        ∙ h)
