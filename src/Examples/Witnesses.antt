-- ===== src/Examples/Witnesses.antt =====
-- The theorems at concrete inputs, and runs of the handlers.
use spotq_queue_service.Base.{
  true, if◌then◌else◌, ◌==◌, ℕ, ◌≡◌, refl, ◌+◌, ◌-◌, min, ◌/◌, ◌≤◌, max, none, some, List, [], ◌∷◌,
  ◌++◌, map, sum_by, All, false,
}
use spotq_queue_service.Errors.{no_show, online, other_error, ok}
use spotq_queue_service.Exec.{raise}
use spotq_queue_service.Exec.Rules.{Post}
use spotq_queue_service.Entity.{
  QueueEntry, CreateProps, as_no_show, is_waiting, seat, create, calculate_wait_duration_minutes,
}
use spotq_queue_service.Entity.Number.{
  generate_queue_number, read_queue_number, read_queue_number-generate_queue_number,
}
use spotq_queue_service.Entity.Lifecycle.{
  Call, seats, skips, cancels, repositions, rings, run, step, outcome, refusal, IsConsistent,
  run-create-IsConsistent, run_terminal, duration_frozen, SameParty, outcome-SameParty,
}
use spotq_queue_service.Push.{Attempt, delivered, rejected, Delivery, send}
use spotq_queue_service.Push.Retries.{IsDelivery, send-IsDelivery}
use spotq_queue_service.Recalculator.{entry_inputs, recalculate}
use spotq_queue_service.Recalculator.Order.{entry_inputs-append}
use spotq_queue_service.Recalculator.Keeps.{recalculate-view}
use spotq_queue_service.Repository.Calls.{run as run_call}
use spotq_queue_service.Repository.View.{view}
use spotq_queue_service.Repository.Failures.{IsShielded, run-IsShielded}
use spotq_queue_service.UseCases.Occupancy.{assignment_payload}
use spotq_queue_service.UseCases.Occupancy.Bounds.{
  assignment_payload-total, assignment_payload-fair,
}
use spotq_queue_service.UseCases.Skip.Splice.{
  find_index, element_at, target_index, shifted, renumber,
}
use spotq_queue_service.UseCases.Skip.Splice.Order.{IsShift, shift_lem, place_update}
use spotq_queue_service.UseCases.Register as Register
use spotq_queue_service.UseCases.Register.Atomic as Registering
use spotq_queue_service.UseCases.Assign as Assign
use spotq_queue_service.UseCases.Assign.Atomic as Assigning
use spotq_queue_service.UseCases.Seat as Seat
use spotq_queue_service.UseCases.Skip as Skip
use spotq_queue_service.UseCases.Skip.Effect as Skipping
use spotq_queue_service.UseCases.Cancel as Cancel
use spotq_queue_service.UseCases.Cancel.Effect as Cancelling
use spotq_queue_service.UseCases.Seat.Atomic as Seating
use spotq_queue_service.Examples.{memory, memory-Lawful, healthy, anna, ben, evening}

abbrev pub seat_anna : Seat.Input
seat_anna = record {
  restaurant_id = "bistro";
  queue_entry_id = "ticket-1";
  staff_user_id = "staff";
  table_ids = "t1" ∷ "t2" ∷ [];
}

seat_atomic_example :
    Post
      (Seating.Outcome healthy memory seat_anna evening.tables)
      (Seating.Failed healthy memory seat_anna evening.tables)
      (Seat.execute healthy memory seat_anna evening)
seat_atomic_example = Seating.seat_atomic healthy memory-Lawful seat_anna evening

abbrev pub assign_anna : Assign.Input
assign_anna = record {
  restaurant_id = "bistro";
  queue_entry_id = "ticket-1";
  staff_user_id = "staff";
  tables = ("t1", 2) ∷ ("t2", 2) ∷ [];
}

assign_exact_example :
    Post
      (Assigning.Outcome healthy memory assign_anna evening.tables)
      (λ t. t ≡ evening.tables)
      (Assign.execute healthy memory assign_anna evening)
assign_exact_example = Assigning.assign_exact healthy memory-Lawful assign_anna evening

abbrev pub register_carl : Register.Input
register_carl = record {
  restaurant_id = "bistro";
  user_id = some "carl";
  staff_user_id = none;
  guest_name = "Carl";
  guest_phone = "333";
  party_size = 4;
  special_notes = none;
  fid = none;
  registration_type = none;
}

register_exact_example :
    Post
      (Registering.Outcome healthy memory register_carl evening.tables)
      (λ t. t ≡ evening.tables)
      (Register.execute healthy memory register_carl evening)
register_exact_example = Registering.register_exact healthy memory-Lawful register_carl evening

recalculate-view_example :
    view (recalculate healthy memory "bistro" evening).1.tables ≡ view evening.tables
recalculate-view_example = recalculate-view healthy memory-Lawful "bistro" evening

run-IsShielded_example :
    IsShielded {A = ℕ} (raise other_error evening) (run_call (raise other_error) evening)
run-IsShielded_example = run-IsShielded (raise other_error) evening

abbrev dora : CreateProps
dora = record {
  id = none;
  restaurant_id = "bistro";
  user_id = none;
  guest_name = "Dora";
  phone = "444";
  queue_number = "W-003";
  party_size = 2;
  special_notes = none;
  registration_type = none;
  position = 3;
  estimated_wait_minutes = 10;
  fid = none;
}

abbrev calls : List Call
calls = repositions 5 2 none ∷ rings 6 6 ∷ cancels 7 7 as_no_show ∷ skips 8 ∷ []

run-create-IsConsistent_example : IsConsistent (run (create "ticket-3" 4 dora) calls)
run-create-IsConsistent_example = run-create-IsConsistent "ticket-3" 4 dora calls

abbrev gone : QueueEntry
gone = record anna { status = no_show; position = none; cancelled_at = some 500 }

run_terminal_example : (run gone calls ≡ gone) × All (λ c. outcome c gone ≡ refusal c gone) calls
run_terminal_example = run_terminal gone calls refl

gone_is_gone : is_waiting (run gone []).status ≡ false
unfolding run
gone_is_gone = refl

anna_sits : outcome (seats 9 9) anna ≡ ok (step anna (seats 9 9))
unfolding seat
anna_sits = refl

anna_found : find_index "ticket-1" (anna ∷ ben ∷ []) ≡ some 0
unfolding find_index
anna_found = refl

duration_frozen_example :
    calculate_wait_duration_minutes 900000 (run gone ([] ++ calls))
    ≡ calculate_wait_duration_minutes 5 (run gone [])
duration_frozen_example = duration_frozen gone [] calls 900000 5 gone_is_gone

outcome-SameParty_example : SameParty anna (step anna (seats 9 9))
outcome-SameParty_example = outcome-SameParty (seats 9 9) anna (step anna (seats 9 9)) anna_sits

shift_lem_example :
    (e : QueueEntry) × (e.id ≡ "ticket-1")
    × IsShift 0
        (target_index 0 5 2)
        e
        (anna ∷ ben ∷ [])
        (shifted 0 (target_index 0 5 2) (anna ∷ ben ∷ []))
    × (element_at
          (target_index 0 5 2)
          (renumber 0 (shifted 0 (target_index 0 5 2) (anna ∷ ben ∷ [])))
        ≡ some (place_update "ticket-1" (target_index 0 5 2 + 1)))
    × (target_index 0 5 2 ≡ min (0 + 5) (2 - 1))
    × (0 ≤ target_index 0 5 2)
shift_lem_example = shift_lem "ticket-1" 5 0 (anna ∷ ben ∷ []) anna_found

entry_inputs-append_example :
    entry_inputs 0 0 ((anna ∷ []) ++ ben ∷ [])
    ≡ entry_inputs 0 0 (anna ∷ [])
      ++ record { entry = ben; new_position = 1 + 1; people_ahead = 3 + 0 }
        ∷ entry_inputs (1 + 1) (3 + 0 + 2) []
entry_inputs-append_example = entry_inputs-append (anna ∷ []) ben []

assignment_payload-total_example :
    sum_by (λ a. a.1) (assignment_payload 5 ("t1" ∷ "t2" ∷ [])) ≡ max 5 2
assignment_payload-total_example = assignment_payload-total 5 "t1" ("t2" ∷ [])

assignment_payload-fair_example :
    (map (λ a. a.0) (assignment_payload 5 ("t1" ∷ "t2" ∷ [])) ≡ "t1" ∷ "t2" ∷ [])
    × All
        (λ a. (1 ≤ a.1) × (5 / 2 ≤ a.1) × (a.1 ≤ 5 / 2 + 1))
        (assignment_payload 5 ("t1" ∷ "t2" ∷ []))
assignment_payload-fair_example = assignment_payload-fair 5 ("t1" ∷ "t2" ∷ [])

read_queue_number_example :
    read_queue_number (generate_queue_number online 1234) ≡ some (online, 1234)
read_queue_number_example = read_queue_number-generate_queue_number online 1234

abbrev skip_anna : Skip.Input
skip_anna = record {
  restaurant_id = "bistro";
  queue_entry_id = "ticket-1";
  staff_user_id = "staff";
  reason = "not here";
  skip_positions = some 1;
}

abbrev pub cancel_ben : Cancel.Input
cancel_ben = record {
  restaurant_id = "bistro";
  queue_entry_id = "ticket-2";
  staff_user_id = "staff";
  reason = " NO_SHOW ";
  notes = none;
}

cancel_effect_example :
    Post
      (Cancelling.Outcome healthy memory cancel_ben evening.tables)
      (Cancelling.Failed healthy memory cancel_ben evening.tables)
      (Cancel.execute healthy memory cancel_ben evening)
cancel_effect_example = Cancelling.cancel_effect healthy memory-Lawful cancel_ben evening

-- The service is unavailable once, then the message is sent.
abbrev flaky : ℕ → Attempt
flaky n = if n == 1 then rejected "messaging/unavailable" "try later" else delivered "m-1"

send-IsDelivery_example :
    (d : Delivery) × (send true (some "device") 3 500 flaky ≡ some d) × IsDelivery 3 500 flaky 0 d
send-IsDelivery_example = send-IsDelivery "device" 3 500 flaky refl
