-- ===== src/Socket/Grants.antt =====
-- Which rooms a socket may be in: the authorisation of
-- src/presentation/websocket/handlers/room.handler.ts, over any events of a client.
pub mod Events
pub mod Runs
use mathlib.Core.Path.{subst}
use spotq_queue_service.Base.{
  String, ◌≡◌, refl, sym, ap, ◌∙◌, ◌⊎◌, inl, inr, Bool, true, false, not, ◌&&◌, ◌||◌, Option, none,
  some, List, [], ◌∷◌, str_eq, eq_iff, arith, is_truthy, if◌then◌else◌, Bool-cases, Option-cases,
}
use spotq_queue_service.Entity.{QueueEntry}
use spotq_queue_service.World.{World, Env, Client}
use spotq_queue_service.Repository.Laws.{Lawful, row_with}
use spotq_queue_service.Repository.Calls.{find_by_id, run, query, call_db}
use spotq_queue_service.Socket.{
  SocketUser, Socket, Adapter, LawfulAdapter, has_room, restaurant_room, queue_room, ticket_room,
  user_room, is_admin, is_customer, is_staff_or_owner, same_text, is_authorized_restaurant_member,
}
use spotq_queue_service.Socket.Names.{
  RoomKind, restaurants, queues, tickets, queue_entries, users, room, room-injective,
}
use spotq_queue_service.Socket.Handlers.{
  ClientEvent, join_restaurant, leave_restaurant, join_ticket, leave_ticket, join_queue,
  leave_queue, required, found_ticket, serves, holds, emit_success, emit_error, joined, left,
  on_join_restaurant, on_join_queue, on_leave, decide_ticket, on_join_ticket, dispatch, on_event,
  run_events, join_own_rooms, handle_socket_connection, home_room, search_ticket, join_of, join,
}

-- The database held an entry under an id as one of the events was handled.
abbrev pub Held : List (ClientEvent × World) → String → QueueEntry → Type 0
Held [] id e = ⊥
Held ((m, w) ∷ rest) id e = (row_with id w.tables.entries ≡ some e) ⊎ Held rest id e

-- What it takes to follow a ticket: to be an administrator, to have connected with it, or that the
-- database held its entry, at the restaurant of the member of staff or of the customer's own.
abbrev pub MayFollow : SocketUser → (String → QueueEntry → Type 0) → String → Type 0
MayFollow user H id =
    (is_admin user ≡ true)
    ⊎ (user.ticket_id ≡ some id)
    ⊎ ((e : QueueEntry) × H id e
        × ((is_staff_or_owner user ≡ true) × (user.restaurant_id ≡ some e.restaurant_id)
            ⊎ (is_customer user ≡ true) × (e.user_id ≡ some user.user_id)))

-- What it takes to be in a room.
abbrev pub MayEnter : SocketUser → (String → QueueEntry → Type 0) → RoomKind → String → Type 0
MayEnter user H restaurants id = is_authorized_restaurant_member (some user) id ≡ true
MayEnter user H queues id =
    (is_admin user || is_customer user || is_authorized_restaurant_member (some user) id ≡ true)
    ⊎ (user.restaurant_id ≡ some id)
MayEnter user H tickets id = MayFollow user H id
MayEnter user H queue_entries id = ⊥
MayEnter user H users id = id ≡ user.user_id

module _ (user : SocketUser) (H : String → QueueEntry → Type 0) where
  -- The user of a socket is still the one of the connection, but for the ticket, which he may follow.
  abbrev pub IsSame : SocketUser → Type 0
  IsSame now =
      (now.user_id ≡ user.user_id)
      × (now.role ≡ user.role)
      × (now.restaurant_id ≡ user.restaurant_id)
      × ((id : String) → now.ticket_id ≡ some id → MayFollow user H id)

  abbrev pub HasUser : Option SocketUser → Type 0
  HasUser none = ⊥
  HasUser (some now) = IsSame now

  abbrev pub IsGranted : List String → Type 0
  IsGranted rooms =
      (k : RoomKind) (id : String) → has_room (room k id) rooms ≡ true → MayEnter user H k id

  abbrev pub IsAuthorised : Socket → Type 0
  IsAuthorised s = HasUser s.user × IsGranted s.rooms

  pub error-IsAuthorised :
      (s : Socket) (text : String) (asked sent : Bool)
      → IsAuthorised s
      → IsAuthorised (emit_error s text asked sent)
  unfolding emit_error
  error-IsAuthorised s text asked true h = h
  error-IsAuthorised s text asked false h = h

  module _ (adapter : Adapter) (lawful : LawfulAdapter adapter) where
    IsGranted-join :
        (k : RoomKind) (id : String) (rooms : List String)
        → MayEnter user H k id
        → IsGranted rooms
        → IsGranted (adapter.join (room k id) rooms)
    IsGranted-join k id rooms m g l b h = elim (Bool-cases (str_eq (room k id) (room l b))) [
      | inl same ↦
          let (p, q) = room-injective k l id b ((eq_iff (room k id) (room l b)).0 same) in
          subst (λ j. MayEnter user H j b) p (subst (MayEnter user H k) q m)
      | inr other ↦ g l b (ground (arith, lawful.join (room l b) (room k id) rooms))
    ]

    pub IsGranted-leave :
        (x : String) (rooms : List String) → IsGranted rooms → IsGranted (adapter.leave x rooms)
    IsGranted-leave x rooms g l b h =
        g l b (ground (arith, lawful.leave (room l b) x rooms, Bool-cases (str_eq x (room l b))))

    pub joined-IsAuthorised :
        (k : RoomKind) (id : String) (asked : Bool) (s : Socket)
        → MayEnter user H k id
        → IsAuthorised s
        → IsAuthorised (joined adapter (room k id) asked s)
    unfolding joined emit_success
    joined-IsAuthorised k id asked s m h = (h.0, IsGranted-join k id s.rooms m h.1)
