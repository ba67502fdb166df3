-- ===== src/Socket/Audience.antt =====
-- Who is in the rooms that an event is sent to: src/infrastructure/websocket/socket-broadcaster.ts.
use Prim.Native.String.{◌++◌ as str_append}
use spotq_queue_service.Base.{
  String, ◌≡◌, refl, ◌⊎◌, inl, inr, Bool, true, false, ◌||◌, some, List, [], ◌∷◌, eq_iff, str_eq,
  arith, is_empty, Bool-cases, Option-cases,
}
use spotq_queue_service.Entity.{QueueEntry}
use spotq_queue_service.World.{World, Env, Client, Audience, to_restaurant, to_ticket}
use spotq_queue_service.Repository.Laws.{Lawful}
use spotq_queue_service.Socket.{
  SocketUser, Socket, Adapter, LawfulAdapter, has_room, restaurant_room, restaurant_queue_room,
  ticket_room, queue_entry_room, is_authorized_restaurant_member,
}
use spotq_queue_service.Socket.Auth.{
  Handshake, role_of, header_restaurant, is_bound_role, user_of, socket_auth_middleware,
  get_header_value,
}
use spotq_queue_service.Socket.Names.{RoomKind, restaurants, tickets, queue_entries, room}
use spotq_queue_service.Socket.Handlers.{ClientEvent, run_events, handle_socket_connection}
use spotq_queue_service.Socket.Grants.{Held, MayFollow, MayEnter}
use spotq_queue_service.Socket.Grants.Events.{same_text-some}
use spotq_queue_service.Socket.Grants.Runs.{run_events-MayEnter}

-- The rooms of `broadcastToRestaurant`
abbrev rooms_of_restaurant : String → List String
rooms_of_restaurant id = restaurant_room id ∷ restaurant_queue_room id ∷ []

-- The rooms of `sendToTicket`
abbrev rooms_of_ticket : String → List String
rooms_of_ticket id = ticket_room id ∷ queue_entry_room id ∷ []

abbrev pub rooms_of : Audience → List String
rooms_of (to_restaurant id) = rooms_of_restaurant id
rooms_of (to_ticket id) = rooms_of_ticket id

abbrev in_any : List String → List String → Bool
in_any [] rooms = false
in_any (r ∷ rs) rooms = has_room r rooms || in_any rs rooms

-- Whether an event for an audience is sent to a socket.
abbrev pub is_addressed : Audience → Socket → Bool
is_addressed a s = in_any (rooms_of a) s.rooms

-- What it takes to be sent the events of an audience, for a user who connected with a handshake: to
-- be an administrator, or of the staff by the gateway's header; and to be allowed the ticket.
abbrev pub MayHear :
    Env → Handshake → SocketUser → (String → QueueEntry → Type 0) → Audience → Type 0
MayHear env h user H (to_restaurant id) =
    (role_of env h ≡ "ADMIN")
    ⊎ ((is_bound_role (role_of env h) ≡ true)
        × ((header_restaurant h ≡ some id) ⊎ (header_restaurant h ≡ some (str_append id ":queue"))))
MayHear env h user H (to_ticket id) = MayFollow user H id

bound-restaurant :
    (env : Env) (h : Handshake) (user_id : String)
    → is_bound_role (role_of env h) ≡ true
    → (user_of env h user_id).restaurant_id ≡ header_restaurant h
unfolding user_of
bound-restaurant env h user_id b = rw b refl

member_of :
    (env : Env) (h : Handshake) (user_id id : String)
    → is_authorized_restaurant_member (some (user_of env h user_id)) id ≡ true
    → (role_of env h ≡ "ADMIN")
      ⊎ ((is_bound_role (role_of env h) ≡ true) × (header_restaurant h ≡ some id))
unfolding is_authorized_restaurant_member user_of
member_of env h user_id id m = elim (Bool-cases (str_eq (role_of env h) "ADMIN")) [
  | inl admin ↦ inl ((eq_iff (role_of env h) "ADMIN").0 admin)
  | inr other ↦ elim (Bool-cases (is_bound_role (role_of env h))) [
    | inl b ↦ inr (b, same_text-some (header_restaurant h) id (ground (arith, m, other, b)))
    | inr free ↦ absurd (ground (arith, m, other, free))
  ]
]

hears-member :
    (env : Env) (h : Handshake) (user_id id : String) (H : String → QueueEntry → Type 0)
    → (is_authorized_restaurant_member (some (user_of env h user_id)) id ≡ true)
      ⊎ (is_authorized_restaurant_member (some (user_of env h user_id)) (str_append id ":queue")
          ≡ true)
    → MayHear env h (user_of env h user_id) H (to_restaurant id)
hears-member env h user_id id H (inl m) = ground (arith, member_of env h user_id id m)
hears-member env h user_id id H (inr m) =
    ground (arith, member_of env h user_id (str_append id ":queue") m)

in_two :
    (a b : String) (rooms : List String)
    → in_any (a ∷ b ∷ []) rooms ≡ true
    → (has_room a rooms ≡ true) ⊎ (has_room b rooms ≡ true)
in_two a b rooms h = ground (arith, h)

authenticated :
    (env : Env) (h : Handshake) (s t : Socket)
    → socket_auth_middleware env h s ≡ some t
    → (u : String) × (get_header_value h.x_user_id ≡ some u)
      × (t.user ≡ some (user_of env h u))
      × (t.rooms ≡ s.rooms)
unfolding socket_auth_middleware
authenticated env h s t e = elim (Option-cases (get_header_value h.x_user_id)) [
  | inl missing ↦ absurd (ground (arith, missing, e))
  | inr (u, given) ↦ (
    u,
    given,
    ground (arith, given, e, Bool-cases (is_empty u)),
    ground (arith, given, e, Bool-cases (is_empty u)),
  )
]

-- A socket that is in rooms only as its user may be is sent no other events.
may_hear :
    (env : Env) (h : Handshake) (u : String) (H : String → QueueEntry → Type 0) (a : Audience)
    (s : Socket)
    → is_addressed a s ≡ true
    → ((k : RoomKind) (id : String)
        → has_room (room k id) s.rooms ≡ true
        → MayEnter (user_of env h u) H k id)
    → MayHear env h (user_of env h u) H a
may_hear env h u H (to_restaurant id) s sent may =
    hears-member env h u id H
      (elim (in_two (restaurant_room id) (restaurant_queue_room id) s.rooms sent) [
        | inl own ↦ inl (may restaurants id own)
        | inr queue ↦ inr (may restaurants (str_append id ":queue") queue)
      ])
may_hear env h u H (to_ticket id) s sent may =
    elim (in_two (ticket_room id) (queue_entry_room id) s.rooms sent) [
      | inl own ↦ may tickets id own
      | inr entry ↦ absurd (may queue_entries id entry)
    ]

-- If a socket that is in none of the rooms of the service passes the authentication and connects,
-- then, after any events of its client, the events for the staff of a restaurant are sent to it only
-- if its role is that of an administrator, or that of staff or an owner and the gateway's header names
-- the restaurant, or it with `:queue` after it; and the events of a ticket only if the user connected
-- with the ticket, is an administrator, or the database held its entry as his or his restaurant's.
pub is_addressed-MayHear :
    (adapter : Adapter)
    → LawfulAdapter adapter
    → (env : Env) (client : Client) → Lawful client
    → (bound : Bool) (h : Handshake) (s t : Socket) → socket_auth_middleware env h s ≡ some t
    → ((k : RoomKind) (id : String) → has_room (room k id) s.rooms ≡ false)
    → (visits : List (ClientEvent × World)) (a : Audience)
    → is_addressed a
        (run_events adapter env client bound visits (handle_socket_connection adapter t))
      ≡ true
    → (u : String) × (get_header_value h.x_user_id ≡ some u)
      × MayHear env h (user_of env h u) (Held visits) a
is_addressed-MayHear adapter lawful env client cl bound h s t e fresh visits a sent =
    let (u, given, same, rooms) = authenticated env h s t e in
    (
      u,
      given,
      may_hear env h u (Held visits) a
          (run_events adapter env client bound visits (handle_socket_connection adapter t)) sent
          (run_events-MayEnter adapter lawful env client cl bound (user_of env h u) t same
            (λ k id. rw rooms (fresh k id)) visits),
    )
