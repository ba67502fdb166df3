-- ===== src/Socket.antt =====
-- The WebSocket side: src/shared/constants/websocket.constants.ts, and the state of a socket. The
-- rooms of a socket are kept by the socket library, whose `join` and `leave` are the parameter
-- `Adapter`. Log lines are left out.
pub mod Auth
pub mod Handlers
pub mod Names
pub mod Grants
pub mod Audience
pub mod Answers
use Prim.Native.String.{◌++◌ as str_append}
use spotq_queue_service.Base.{
  String, Bool, true, false, not, ◌&&◌, ◌||◌, ◌≡◌, Option, none, some, List, [], ◌∷◌, str_eq,
  if◌then◌else◌,
}

-- `AuthenticatedSocketUser`
pub record SocketUser : Type 0 where
  pub user_id : String
  pub role : String
  pub restaurant_id : Option String
  pub ticket_id : Option String
  pub email : Option String

-- `WEBSOCKET_ROOMS`
abbrev pub restaurant_room : String → String
restaurant_room id = str_append "restaurant:" id

abbrev pub restaurant_queue_room : String → String
restaurant_queue_room id = str_append "restaurant:" (str_append id ":queue")

abbrev pub queue_room : String → String
queue_room id = str_append "queue:" id

abbrev pub ticket_room : String → String
ticket_room id = str_append "ticket:" id

abbrev pub queue_entry_room : String → String
queue_entry_room id = str_append "queue-entry:" id

abbrev pub user_room : String → String
user_room id = str_append "user:" id

abbrev pub is_admin : SocketUser → Bool
is_admin user = str_eq user.role "ADMIN"

abbrev pub is_customer : SocketUser → Bool
is_customer user = str_eq user.role "CUSTOMER"

-- A member of a restaurant's staff, or its owner.
abbrev pub is_staff_or_owner : SocketUser → Bool
is_staff_or_owner user = str_eq user.role "STAFF" || str_eq user.role "RESTAURANT_OWNER"

-- `a === b` where `a` may be absent.
abbrev pub same_text : Option String → String → Bool
same_text none b = false
same_text (some a) b = str_eq a b

-- `isAuthorizedRestaurantMember`
unfoldable pub is_authorized_restaurant_member : Option SocketUser → String → Bool
is_authorized_restaurant_member none requested = false
is_authorized_restaurant_member (some user) requested =
    is_admin user || (is_staff_or_owner user && same_text user.restaurant_id requested)

-- `RoomAckResponse`
pub record RoomAck : Type 0 where
  pub success : Bool
  pub room : Option String
  pub error : Option String

abbrev pub create_room_success_response : String → RoomAck
create_room_success_response room = record { success = true; room = some room; error = none }

abbrev pub create_room_error_response : String → RoomAck
create_room_error_response error = record { success = false; room = none; error = some error }

-- What a socket holds: its user, its rooms, the events sent to it and the acknowledgements.
pub record Socket : Type 0 where
  pub user : Option SocketUser
  pub rooms : List String
  pub emitted : List (String × RoomAck)
  pub acknowledged : List RoomAck
  pub is_connected : Bool

-- Whether a room is among some rooms.
abbrev pub has_room : String → List String → Bool
has_room r [] = false
has_room r (x ∷ xs) = str_eq x r || has_room r xs

-- The rooms of a socket after `socket.join` and `socket.leave`.
pub record Adapter : Type 0 where
  pub join : String → List String → List String
  pub leave : String → List String → List String

-- After joining or leaving a room, a socket is in the rooms it was in, and in that one, or not.
pub record LawfulAdapter (adapter : Adapter) : Type 0 where
  pub join :
      (r x : String) (rooms : List String)
      → has_room r (adapter.join x rooms) ≡ str_eq x r || has_room r rooms
  pub leave :
      (r x : String) (rooms : List String)
      → has_room r (adapter.leave x rooms) ≡ not (str_eq x r) && has_room r rooms
