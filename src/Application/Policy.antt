-- ===== src/Application/Policy.antt =====
-- The table of Permissions over the events that came before a call.
use crono.Prelude.{ℕ, Bool, List, Memᴰ, Result, ok}
use crono.Domain.Schedule.{TargetSelection}
use crono.Dispatch.Tables.{StoreError}
use crono.Authorization.Capabilities.{Capability, ResourceScope}
use crono.Authorization.Grants.{VisibilityScope}
use crono.Authorization.Policy.{AuthorizationError}
use crono.Application.Model.{ScheduleRecord}
use crono.Application.Program.{Call, Answer}
use crono.Application.Permissions

-- A decision of the authorizer, a visibility that it computed, or a call that the store answered.
pub data Event : Type 0 where
  asked : Capability → ResourceScope → Result AuthorizationError (Unit {0}) → Event
  saw : Capability → Result AuthorizationError VisibilityScope → Event
  called : (c : Call) → Result StoreError (Answer c) → Event

-- the latest event first
abbrev pub History : Type 0
History = List Event

module _ (h : History) where
  abbrev pub Granted : Capability → ResourceScope → Type 0
  Granted capability resource = Memᴰ (Event.asked capability resource (ok tt)) h

  abbrev pub Saw : Capability → VisibilityScope → Type 0
  Saw capability visibility = Memᴰ (Event.saw capability (ok visibility)) h

  abbrev pub Answered : (c : Call) → Answer c → Type 0
  Answered c answer = Memᴰ (Event.called c (ok answer)) h

  abbrev pub Usable : TargetSelection → Type 0
  Usable = Permissions.Usable Granted Saw Answered

  abbrev pub Readable : List ℕ → Type 0
  Readable = Permissions.Readable Granted Saw Answered

  abbrev pub Enabling : Bool → ScheduleRecord → Type 0
  Enabling = Permissions.Enabling Granted Saw Answered

  abbrev pub Allowed : Call → Type 0
  Allowed = Permissions.Allowed Granted Saw Answered
