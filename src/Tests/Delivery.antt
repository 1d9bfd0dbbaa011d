-- ===== src/Tests/Delivery.antt =====
-- The delivery of the first dispatch of the story.
use crono.Prelude.{◌≡◌, [], refl, some, none, arith}
use crono.Dispatch.Tables.{Outbox}
use crono.Dispatch.Create.{
  create_normal_run, insert_run, create_attempt_and_outbox, insert_run_event, new_outbox,
}
use crono.Dispatch.Moves.History.{Steps}
use crono.Dispatch.Guarantees.{Steps-IsConsistent}
use crono.Dispatch.Delivery.{Delivers, dispatch_delivered}
use crono.Tests.Story.{fresh, created, world, to_created}

abbrev new_row : Outbox
new_row = new_outbox 0 fresh 1 5 none

new_row_stored : created.outbox 100 ≡ some new_row
unfolding create_normal_run insert_run create_attempt_and_outbox insert_run_event
new_row_stored = refl

dispatch_delivered_example : Delivers created 100 new_row 7 "worker-1" 1 2 3 9 30 40
dispatch_delivered_example =
    dispatch_delivered created 100 new_row 7 "worker-1" 1 2 3 9 30 40
      (Steps-IsConsistent (world created []) (Steps.next _ _ _ to_created (Steps.done _)))
      new_row_stored refl (omega arith) (omega arith)
