-- ===== src/Examples/Live.antt =====
-- The theorems on sockets at concrete inputs: a member of staff who follows a ticket.
use spotq_queue_service.Base.{
  String, ◌≡◌, refl, true, not, ◌&&◌, none, some, List, [], ◌∷◌, filter, str_eq, eq_iff, arith,
  trim, trim_start, trim_end, is_space,
}
use spotq_queue_service.World.{to_ticket}
use spotq_queue_service.Repository.Calls.{find_by_id, run, query, call_db}
use spotq_queue_service.Socket.{
  SocketUser, Socket, Adapter, LawfulAdapter, has_room, is_authorized_restaurant_member,
}
use spotq_queue_service.Socket.Auth.{
  Handshake, absent, one, get_header_value, get_param_value, user_of, socket_auth_middleware,
}
use spotq_queue_service.Socket.Names.{tickets}
use spotq_queue_service.Socket.Handlers.{
  join_ticket, join_queue, emit_success, joined, decide_ticket, on_join_ticket, dispatch, on_event,
  run_events, join_own_rooms, handle_socket_connection,
}
use spotq_queue_service.Socket.Grants.{Held, MayEnter}
use spotq_queue_service.Socket.Grants.Runs.{run_events-MayEnter}
use spotq_queue_service.Socket.Audience.{is_addressed-MayHear, MayHear}
use spotq_queue_service.Socket.Answers.{on_event-IsAnswered, IsAnswered}
use spotq_queue_service.Examples.{memory, memory-Lawful, healthy, evening}

abbrev without_room : String → List String → List String
without_room x rooms = filter (λ r. not (str_eq x r)) rooms

abbrev rooms_in_memory : Adapter
rooms_in_memory = record { join = λ x rooms. x ∷ rooms; leave = without_room }

without_room_lem :
    (r x : String) (rooms : List String)
    → has_room r (without_room x rooms) ≡ not (str_eq x r) && has_room r rooms
without_room_lem r x [] = ground arith
without_room_lem r x (y ∷ rooms) =
    ground (arith, without_room_lem r x rooms, eq_iff x r, eq_iff x y, eq_iff y r)

rooms_in_memory-Lawful : LawfulAdapter rooms_in_memory
rooms_in_memory-Lawful = record { join = λ r x rooms. refl; leave = without_room_lem }

abbrev sam : Handshake
sam = record {
  x_user_id = one "sam";
  x_user_role = one "STAFF";
  x_restaurant_id = one " bistro ";
  x_ticket_id = absent;
  x_user_email = absent;
  query_ticket_id = absent;
  query_restaurant_id = absent;
}

abbrev fresh_socket : Socket
fresh_socket = record {
  user = none;
  rooms = [];
  emitted = [];
  acknowledged = [];
  is_connected = true;
}

abbrev sam_user : SocketUser
sam_user = record {
  user_id = "sam";
  role = "STAFF";
  restaurant_id = some "bistro";
  ticket_id = none;
  email = none;
}

abbrev sam_socket : Socket
sam_socket = record fresh_socket { user = some sam_user }

run_events-MayEnter_example :
    MayEnter sam_user (Held ((join_ticket (some "ticket-1") true, evening) ∷ [])) tickets "ticket-1"
unfolding run_events on_event dispatch on_join_ticket decide_ticket joined emit_success find_by_id
    run query call_db handle_socket_connection join_own_rooms is_authorized_restaurant_member
run_events-MayEnter_example =
    run_events-MayEnter rooms_in_memory rooms_in_memory-Lawful healthy memory memory-Lawful true
      sam_user sam_socket refl (λ k id. refl) ((join_ticket (some "ticket-1") true, evening) ∷ [])
      tickets "ticket-1" refl

is_addressed-MayHear_example :
    (u : String) × (get_header_value sam.x_user_id ≡ some u)
    × MayHear healthy sam
        (user_of healthy sam u)
        (Held ((join_ticket (some "ticket-1") true, evening) ∷ []))
        (to_ticket "ticket-1")
unfolding run_events on_event dispatch on_join_ticket decide_ticket joined emit_success find_by_id
    run query call_db handle_socket_connection join_own_rooms is_authorized_restaurant_member
    socket_auth_middleware get_header_value get_param_value user_of trim trim_start trim_end
    is_space
is_addressed-MayHear_example =
    is_addressed-MayHear rooms_in_memory rooms_in_memory-Lawful healthy memory memory-Lawful true
      sam fresh_socket sam_socket refl (λ k id. refl)
      ((join_ticket (some "ticket-1") true, evening) ∷ []) (to_ticket "ticket-1") refl

on_event-IsAnswered_example :
    IsAnswered rooms_in_memory true sam_socket
      (on_event rooms_in_memory healthy memory true
        (join_queue (some "grill") true)
        sam_socket
        evening).0
on_event-IsAnswered_example =
    on_event-IsAnswered rooms_in_memory healthy memory true sam_user
      (join_queue (some "grill") true) sam_socket evening refl
