-- ===== src/Examples/Web.antt =====
-- The theorems on requests and on the cache at concrete inputs.
use spotq_queue_service.Base.{
  ltb, ◌+◌, ◌*◌, List, ◌≡◌, refl, String, Bool, true, not, ◌&&◌, none, some, [], ◌∷◌, str_eq,
  eq_iff, trim, is_empty, arith, if◌then◌else◌,
}
use spotq_queue_service.Errors.{ok}
use spotq_queue_service.Exec.{◌>>◌}
use spotq_queue_service.Services.{save_live_entry, get_live_entry, remove_live_entry}
use spotq_queue_service.Services.Cached.{get_live_entry-save_live_entry}
use spotq_queue_service.Socket.Auth.{one, absent}
use spotq_queue_service.Requests.{has_space, send_error_response}
use spotq_queue_service.Requests.Replies.{send_error_response_lem}
use spotq_queue_service.Requests.Gate.{Request}
use spotq_queue_service.Requests.Bodies.{seat_party_body, assign_tables_body, all_positive}
use spotq_queue_service.Requests.Bodies.Duplicates.{are_tables, bodies_exact}
use spotq_queue_service.Requests.Staff.{
  Setting, StaffCall, seat_party, ring_customer, handle_staff_request,
}
use spotq_queue_service.Requests.Staff.Service.{Serves, handle_all, handle_all-Steps}
use spotq_queue_service.UseCases.Machine.{Command, perform_all, log, Steps, board}
use spotq_queue_service.Requests.Staff.Owned.{IsTight}
use spotq_queue_service.Requests.Staff.Owned.Routes.{IsRightful, handle_staff_request-IsRightful}
use spotq_queue_service.Requests.Guests.{GuestBody, handle_join, handle_walk_in}
use spotq_queue_service.Requests.Guests.Fit.{AreFit, requests-AreFit}
use spotq_queue_service.Examples.{
  memory, memory-Lawful, healthy, healthy-IsDependable, third_of_bistro, evening,
}

-- A test in place of the one for UUIDs: a text without white space around it.
abbrev is_id : String → Bool
is_id s = not (is_empty s) && str_eq (trim s) s

is_id-IsTight : IsTight is_id
is_id-IsTight s h = ground (arith, eq_iff (trim s) s)

abbrev test_setting : Setting
test_setting = record { is_uuid = is_id; text_length = λ s. 5; is_production = true }

abbrev sam_request : Request
sam_request = record {
  x_user_id = one "sam";
  x_user_role = one "staff";
  x_user_email = absent;
  x_restaurant_id = one "bistro";
  restaurant_id = one "bistro";
}

abbrev seat_call : StaffCall
seat_call = seat_party (some "ticket-1") (some ("table-1" ∷ []))

handle_staff_request-IsRightful_example :
    IsRightful healthy sam_request seat_call evening.tables
      (handle_staff_request healthy memory test_setting sam_request seat_call evening).1.tables
handle_staff_request-IsRightful_example =
    handle_staff_request-IsRightful healthy memory memory-Lawful test_setting is_id-IsTight
      sam_request seat_call evening

abbrev staff_requests : List (Request × StaffCall)
staff_requests = (sam_request, ring_customer (some "ticket-1")) ∷ (sam_request, seat_call) ∷ []

handle_all-Steps_example :
    (cs : List Command) × Serves staff_requests cs
    × (handle_all healthy memory test_setting staff_requests evening
        ≡ perform_all healthy memory cs evening)
    × Steps
        (log healthy memory cs evening)
        (board evening.tables)
        (board (handle_all healthy memory test_setting staff_requests evening).tables)
handle_all-Steps_example =
    handle_all-Steps healthy memory-Lawful test_setting staff_requests evening

abbrev carl_body : GuestBody
carl_body = record {
  guest_name = "Carl";
  guest_phone = "333";
  party_size = 4;
  special_notes = none;
  fid = none;
}

requests-AreFit_example :
    AreFit
      (handle_join healthy memory test_setting is_id sam_request (some carl_body) evening).1.tables
    × AreFit
        (handle_walk_in healthy memory test_setting is_id sam_request
          (some carl_body)
          evening).1.tables
requests-AreFit_example =
    requests-AreFit healthy memory memory-Lawful test_setting is_id sam_request (some carl_body)
      evening (refl, (refl, tt))

bodies_exact_example :
    (seat_party_body is_id (some ("a" ∷ "a" ∷ []))
      ≡ (if are_tables is_id ("a" ∷ "a" ∷ []) then some ("a" ∷ "a" ∷ []) else none))
    × (assign_tables_body is_id (some (("a", 2) ∷ [])) ≡ (
        if are_tables is_id ("a" ∷ []) && all_positive (("a", 2) ∷ [])
        then some (("a", 2) ∷ [])
        else none))
bodies_exact_example = bodies_exact is_id ("a" ∷ "a" ∷ []) (("a", 2) ∷ [])

send_error_response_example :
    (send_error_response "VALIDATION_ERROR" (some "Validation failed") 422
      ≡ record { status = 422; code = "VALIDATION_ERROR"; message = "Validation failed" })
    × (send_error_response "Validation failed" (some "VALIDATION_ERROR") 422
        ≡ record { status = 422; code = "VALIDATION_ERROR"; message = "Validation failed" })
unfolding has_space
send_error_response_example =
    send_error_response_lem "VALIDATION_ERROR" "Validation failed" 422 refl refl refl

get_live_entry-save_live_entry_example :
    (((save_live_entry healthy "ticket-1" "bistro" 3 12 >> get_live_entry healthy "ticket-1")
        evening).0
      ≡ (if str_eq "ticket-1" "ticket-1"
          then ok (
              if ltb (healthy.redis_time 2) (healthy.redis_time 1 + 24 * 60 * 60 * 1000)
              then some third_of_bistro
              else none)
          else (get_live_entry healthy "ticket-1" (record evening { calls = 2 })).0))
    × (((remove_live_entry healthy "ticket-1" >> get_live_entry healthy "ticket-1") evening).0 ≡ (
        if str_eq "ticket-1" "ticket-1"
        then ok none
        else (get_live_entry healthy "ticket-1" (record evening { calls = 1 })).0))
get_live_entry-save_live_entry_example =
    get_live_entry-save_live_entry healthy healthy-IsDependable "ticket-1" "ticket-1" "bistro" 3 12
      evening (refl, refl) refl refl refl
