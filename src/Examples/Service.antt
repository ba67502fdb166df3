-- ===== src/Examples/Service.antt =====
-- A service of the staff in memory: the theorems on runs of all the handlers, at concrete inputs.
use spotq_queue_service.Base.{List, [], ◌∷◌, ◌≡◌, refl, some}
use spotq_queue_service.Errors.{skipped}
use spotq_queue_service.World.{World}
use spotq_queue_service.Repository.Twins.{NoTwins}
use spotq_queue_service.UseCases.Skip as Skip
use spotq_queue_service.UseCases.Machine.{
  Command, registers, seats, assigns, cancels, skips, rings, perform_all, log, Steps, board,
  status_of,
}
use spotq_queue_service.UseCases.Machine.Refined.{perform_all-Steps}
use spotq_queue_service.UseCases.Machine.Final.{AreDistinct, perform_all-final}
use spotq_queue_service.UseCases.Machine.Kept.{perform_all-NoTwins}
use spotq_queue_service.Examples.{memory, memory-Lawful, healthy, evening, anna, ben}
use spotq_queue_service.Examples.Witnesses.{seat_anna, assign_anna, cancel_ben, register_carl}
use spotq_queue_service.Examples.Runs.{ring_anna}

abbrev skip_ben : Skip.Input
skip_ben = record {
  restaurant_id = "bistro";
  queue_entry_id = "ticket-2";
  staff_user_id = "staff";
  reason = "away";
  skip_positions = some 1;
}

-- The second assignment is for a party that is seated, and refused.
abbrev service : List Command
service =
    registers register_carl
    ∷ rings ring_anna
    ∷ skips skip_ben
    ∷ seats seat_anna
    ∷ assigns assign_anna
    ∷ cancels cancel_ben
    ∷ []

perform_all-Steps_example :
    Steps
      (log healthy memory service evening)
      (board evening.tables)
      (board (perform_all healthy memory service evening).tables)
perform_all-Steps_example = perform_all-Steps healthy memory-Lawful service evening

perform_all-NoTwins_example :
    AreDistinct (board (perform_all healthy memory service evening).tables)
    × NoTwins (perform_all healthy memory service evening).tables.entries
perform_all-NoTwins_example =
    perform_all-NoTwins healthy memory-Lawful service evening (refl, (refl, tt))
      ((refl, tt), (tt, tt))

-- The evening, with the first party skipped.
abbrev later : World
later = record evening {
  tables = record evening.tables { entries = record anna { status = skipped } ∷ ben ∷ [] };
}

perform_all-final_example :
    status_of "ticket-1" (board (perform_all healthy memory service later).tables) ≡ some skipped
perform_all-final_example =
    perform_all-final healthy memory-Lawful service later "ticket-1" skipped refl refl
