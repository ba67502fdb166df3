-- ===== src/Socket/Handlers.antt =====
-- src/presentation/websocket/handlers: the connection of a socket, and the six events by which a
-- client joins and leaves rooms. An event has the id of its data, absent where it is no text, and
-- whether the client asked for an acknowledgement.
use spotq_queue_service.Base.{
  String, Bool, true, false, ◌&&◌, ◌||◌, Option, none, some, List, [], ◌∷◌, ◌++◌, is_empty,
  is_truthy, if◌then◌else◌,
}
use spotq_queue_service.Errors.{Result, ok, err}
use spotq_queue_service.Entity.{QueueEntry}
use spotq_queue_service.World.{World, Env, Client}
use spotq_queue_service.Repository.Calls.{find_by_id}
use spotq_queue_service.Socket.{
  SocketUser, Socket, Adapter, RoomAck, restaurant_room, queue_room, ticket_room, user_room,
  is_admin, is_customer, is_staff_or_owner, same_text, is_authorized_restaurant_member,
  create_room_success_response, create_room_error_response,
}

pub data ClientEvent : Type 0 where
  join_restaurant leave_restaurant join_ticket : Option String → Bool → ClientEvent
  leave_ticket join_queue leave_queue : Option String → Bool → ClientEvent

abbrev send_to_socket : String → RoomAck → Socket → Socket
send_to_socket event response s = record s { emitted = s.emitted ++ (event, response) ∷ [] }

-- `callback?.(response)`
abbrev call_back : Bool → RoomAck → Socket → Socket
call_back asked response s = record s {
  acknowledged = if asked then s.acknowledged ++ response ∷ [] else s.acknowledged;
}

unfoldable pub emit_success : Socket → String → String → Bool → Socket
emit_success s event room asked =
    call_back asked (create_room_success_response room)
      (send_to_socket event (create_room_success_response room) s)

unfoldable pub emit_error : Socket → String → Bool → Bool → Socket
emit_error s error asked true =
    call_back asked (create_room_error_response error)
      (send_to_socket "error" (create_room_error_response error) s)
emit_error s error asked false = call_back asked (create_room_error_response error) s

-- `data?.id`, if it is a text that is not empty.
abbrev pub required : Option String → Option String
required none = none
required (some id) = if is_empty id then none else some id

-- A ticket that is not found, and a failure of the search, which is logged.
abbrev pub found_ticket : Result (Option QueueEntry) → Option QueueEntry
found_ticket (ok found) = found
found_ticket (err x) = none

-- Whether a member of staff or an owner may follow an entry, and whether a customer may.
abbrev pub serves : SocketUser → QueueEntry → Bool
serves user ticket =
    is_staff_or_owner user
    && is_truthy user.restaurant_id
    && same_text user.restaurant_id ticket.restaurant_id

abbrev pub holds : SocketUser → QueueEntry → Bool
holds user ticket =
    is_customer user && is_truthy (some user.user_id) && same_text ticket.user_id user.user_id

module _ (adapter : Adapter) where
  abbrev pub join : String → Socket → Socket
  join room s = record s { rooms = adapter.join room s.rooms }

  abbrev pub leave : String → Socket → Socket
  leave room s = record s { rooms = adapter.leave room s.rooms }

  -- The end of each handler that joins: the room, and the answer.
  unfoldable pub joined : String → Bool → Socket → Socket
  unfolding emit_success
  joined room asked s = emit_success (join room s) "room:joined" room asked

  unfoldable pub left : String → Bool → Socket → Socket
  unfolding emit_success
  left room asked s = emit_success (leave room s) "room:left" room asked

  unfoldable pub on_join_restaurant : SocketUser → Option String → Bool → Socket → Socket
  unfolding joined emit_error is_authorized_restaurant_member
  on_join_restaurant user none asked s = emit_error s "restaurantId is required" asked true
  on_join_restaurant user (some id) asked s =
      if is_authorized_restaurant_member (some user) id
      then joined (restaurant_room id) asked s
      else emit_error s "Unauthorized: Cannot access this restaurant queue" asked true

  unfoldable pub on_join_queue : SocketUser → Option String → Bool → Socket → Socket
  unfolding joined emit_error is_authorized_restaurant_member
  on_join_queue user none asked s = emit_error s "queueId is required" asked true
  on_join_queue user (some id) asked s =
      if is_admin user || is_customer user || is_authorized_restaurant_member (some user) id
      then joined (queue_room id) asked s
      else emit_error s "Unauthorized: Cannot access this queue" asked true

  -- The leave events: an id that is missing is only acknowledged.
  unfoldable pub on_leave : (String → String) → String → Option String → Bool → Socket → Socket
  unfolding left emit_error
  on_leave room_of missing none asked s = emit_error s missing asked false
  on_leave room_of missing (some id) asked s = left (room_of id) asked s

  abbrev pub refuse_ticket : Bool → Socket → Socket
  refuse_ticket asked s = emit_error s "Unauthorized: Cannot access this ticket" asked true

  -- After the search for the ticket; a customer who holds it has it as his own from now on.
  unfoldable pub decide_ticket : SocketUser → String → Bool → Socket → Option QueueEntry → Socket
  unfolding joined emit_error
  decide_ticket user id asked s none = refuse_ticket asked s
  decide_ticket user id asked s (some ticket) =
      if serves user ticket
      then joined (ticket_room id) asked s
      else if holds user ticket
      then joined (ticket_room id) asked
          (record s { user = some (record user { ticket_id = some id }) })
      else refuse_ticket asked s

  module _ (env : Env) (client : Client) where
    abbrev pub search_ticket : String → World → Option QueueEntry × World
    search_ticket id w = let (r, w') = find_by_id env client id w in (found_ticket r, w')

    -- `JOIN_TICKET`; `bound` says whether a repository is bound.
    unfoldable pub on_join_ticket :
        Bool → SocketUser → Option String → Bool → Socket → World → Socket × World
    unfolding joined emit_error decide_ticket
    on_join_ticket bound user none asked s w = (emit_error s "ticketId is required" asked true, w)
    on_join_ticket bound user (some id) asked s w =
        if is_admin user || (is_customer user && same_text user.ticket_id id)
        then (joined (ticket_room id) asked s, w)
        else if bound
        then (let (found, w') = search_ticket id w in (decide_ticket user id asked s found, w'))
        else (refuse_ticket asked s, w)

    unfoldable pub dispatch : Bool → SocketUser → ClientEvent → Socket → World → Socket × World
    unfolding on_join_restaurant on_join_queue on_leave on_join_ticket
    dispatch bound user (join_restaurant id asked) s w =
        (on_join_restaurant user (required id) asked s, w)
    dispatch bound user (leave_restaurant id asked) s w =
        (on_leave restaurant_room "restaurantId is required" (required id) asked s, w)
    dispatch bound user (join_ticket id asked) s w =
        on_join_ticket bound user (required id) asked s w
    dispatch bound user (leave_ticket id asked) s w =
        (on_leave ticket_room "ticketId is required" (required id) asked s, w)
    dispatch bound user (join_queue id asked) s w = (on_join_queue user (required id) asked s, w)
    dispatch bound user (leave_queue id asked) s w =
        (on_leave queue_room "queueId is required" (required id) asked s, w)

    abbrev pub for_user :
        Option SocketUser → (SocketUser → Socket × World) → Socket × World → Socket × World
    for_user none f otherwise = otherwise
    for_user (some user) f otherwise = f user

    -- `registerRoomHandlers`: without a user no event is listened to.
    unfoldable pub on_event : Bool → ClientEvent → Socket → World → Socket × World
    unfolding dispatch
    on_event bound e s w = for_user s.user (λ user. dispatch bound user e s w) (s, w)

    -- The events of a client, each at the database as it is then.
    unfoldable pub run_events : Bool → List (ClientEvent × World) → Socket → Socket
    unfolding on_event
    run_events bound [] s = s
    run_events bound ((e, w) ∷ rest) s = run_events bound rest (on_event bound e s w).0

  -- The room of an id, joined if the id is there.
  abbrev pub join_of : (String → String) → Option String → Socket → Socket
  join_of room_of none s = s
  join_of room_of (some id) s = join (room_of id) s

  -- The room that the user's restaurant stands for: of its members, or of its queue.
  abbrev pub home_room : SocketUser → String → String
  home_room user id =
      if is_authorized_restaurant_member (some user) id then restaurant_room id else queue_room id

  unfoldable pub join_own_rooms : SocketUser → Socket → Socket
  unfolding is_authorized_restaurant_member
  join_own_rooms user s =
      join_of (home_room user) (required user.restaurant_id)
        (join_of ticket_room (required user.ticket_id) (join (user_room user.user_id) s))

  abbrev pub connect_as : Option SocketUser → Socket → Socket
  connect_as none s = record s { is_connected = false }
  connect_as (some user) s = join_own_rooms user s

  -- `handleSocketConnection`: without a user the socket is disconnected.
  unfoldable pub handle_socket_connection : Socket → Socket
  unfolding join_own_rooms
  handle_socket_connection s = connect_as s.user s
