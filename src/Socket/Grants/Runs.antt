-- ===== src/Socket/Grants/Runs.antt =====
-- A socket from its connection on, over any events of its client:
-- src/presentation/websocket/handlers.
use mathlib.Core.Path.{subst}
use spotq_queue_service.Base.{
  String, ◌≡◌, refl, sym, All, inl, inr, Bool, true, false, Option, none, some, List, [], ◌∷◌,
  arith, is_empty, Bool-cases,
}
use spotq_queue_service.Entity.{QueueEntry}
use spotq_queue_service.World.{World, Env, Client}
use spotq_queue_service.Repository.Laws.{Lawful, row_with}
use spotq_queue_service.Socket.{
  SocketUser, Socket, Adapter, LawfulAdapter, has_room, restaurant_room, queue_room, ticket_room,
  is_authorized_restaurant_member,
}
use spotq_queue_service.Socket.Names.{RoomKind, restaurants, queues, tickets, users, room}
use spotq_queue_service.Socket.Handlers.{
  ClientEvent, join_restaurant, leave_restaurant, join_ticket, leave_ticket, join_queue,
  leave_queue, required, dispatch, on_event, run_events, join_own_rooms, handle_socket_connection,
  home_room, for_user, connect_as, join_of, join,
}
use spotq_queue_service.Socket.Grants.{
  Held, MayEnter, IsSame, HasUser, IsGranted, IsAuthorised, IsGranted-join,
}
use spotq_queue_service.Socket.Grants.Events.{
  on_join_restaurant-IsAuthorised, on_join_queue-IsAuthorised, on_leave-IsAuthorised,
  on_join_ticket-IsAuthorised,
}

required-some : (o : Option String) (id : String) → required o ≡ some id → o ≡ some id
required-some none id h = cc
required-some (some s) id h = ground (arith, Bool-cases (is_empty s))

module _ (adapter : Adapter) (lawful : LawfulAdapter adapter) (env : Env) (client : Client)
    (cl : Lawful client) (bound : Bool) (user : SocketUser) (H : String → QueueEntry → Type 0) where
  -- That what the database holds at an event is known to have been held.
  abbrev Covers : World → Type 0
  Covers w = (i : String) (e : QueueEntry) → row_with i w.tables.entries ≡ some e → H i e

  dispatch-IsAuthorised :
      (now : SocketUser) (m : ClientEvent) (s : Socket) (w : World)
      → Covers w
      → IsSame user H now
      → IsAuthorised user H s
      → IsAuthorised user H (dispatch adapter env client bound now m s w).0
  unfolding dispatch
  dispatch-IsAuthorised now (join_restaurant id asked) s w c same h =
      on_join_restaurant-IsAuthorised user H adapter lawful now (required id) asked s same h
  dispatch-IsAuthorised now (leave_restaurant id asked) s w c same h =
      on_leave-IsAuthorised user H adapter lawful restaurant_room "restaurantId is required"
        (required id) asked s h
  dispatch-IsAuthorised now (join_ticket id asked) s w c same h =
      on_join_ticket-IsAuthorised user H adapter lawful env client cl bound now (required id) asked
        s w c same h
  dispatch-IsAuthorised now (leave_ticket id asked) s w c same h =
      on_leave-IsAuthorised user H adapter lawful ticket_room "ticketId is required" (required id)
        asked s h
  dispatch-IsAuthorised now (join_queue id asked) s w c same h =
      on_join_queue-IsAuthorised user H adapter lawful now (required id) asked s same h
  dispatch-IsAuthorised now (leave_queue id asked) s w c same h =
      on_leave-IsAuthorised user H adapter lawful queue_room "queueId is required" (required id)
        asked s h

  on_event-IsAuthorised :
      (m : ClientEvent) (u : Option SocketUser) (s : Socket) (w : World)
      → s.user ≡ u
      → Covers w
      → IsAuthorised user H s
      → IsAuthorised user H (on_event adapter env client bound m s w).0
  unfolding on_event
  on_event-IsAuthorised m none s w e c h = absurd (subst (HasUser user H) e h.0)
  on_event-IsAuthorised m (some now) s w e c h =
      subst
        (λ o.
          IsAuthorised user H
            (for_user adapter env client o (λ u. dispatch adapter env client bound u m s w)
              (s, w)).0)
        (sym e) (dispatch-IsAuthorised now m s w c (subst (HasUser user H) e h.0) h)

  join_of-IsAuthorised :
      (k : RoomKind) (o : Option String) (s : Socket)
      → ((id : String) → o ≡ some id → MayEnter user H k id)
      → IsAuthorised user H s
      → IsAuthorised user H (join_of adapter (room k) o s)
  join_of-IsAuthorised k none s may h = h
  join_of-IsAuthorised k (some id) s may h =
      (h.0, IsGranted-join user H adapter lawful k id s.rooms (may id refl) h.1)

  home-IsAuthorised :
      (o : Option String) (s : Socket)
      → ((id : String) → o ≡ some id → user.restaurant_id ≡ some id)
      → IsAuthorised user H s
      → IsAuthorised user H (join_of adapter (home_room adapter user) o s)
  home-IsAuthorised none s own h = h
  home-IsAuthorised (some id) s own h =
      elim (Bool-cases (is_authorized_restaurant_member (some user) id)) [
        | inl may ↦
            rw may (h.0, IsGranted-join user H adapter lawful restaurants id s.rooms may h.1)
        | inr other ↦
            rw other
              (h.0, IsGranted-join user H adapter lawful queues id s.rooms (inr (own id refl)) h.1)
      ]

  run_events-IsAuthorised :
      (visits : List (ClientEvent × World)) (s : Socket)
      → All (λ v. Covers v.1) visits
      → IsAuthorised user H s
      → IsAuthorised user H (run_events adapter env client bound visits s)
  unfolding run_events
  run_events-IsAuthorised [] s c h = h
  run_events-IsAuthorised ((m, w) ∷ rest) s c h =
      run_events-IsAuthorised rest _ c.1 (on_event-IsAuthorised m s.user s w refl c.0 h)

  connection-IsAuthorised :
      (s : Socket)
      → s.user ≡ some user
      → IsGranted user H s.rooms
      → IsAuthorised user H (handle_socket_connection adapter s)
  unfolding handle_socket_connection join_own_rooms
  connection-IsAuthorised s e g =
      let here : HasUser user H s.user =
        subst (HasUser user H) (sym e) (refl, refl, refl, λ id p. inr (inl p)) in
      let named : IsAuthorised user H (join adapter (room users user.user_id) s) =
        (here, IsGranted-join user H adapter lawful users user.user_id s.rooms refl g) in
      let ticketed =
        join_of-IsAuthorised tickets (required user.ticket_id) _
          (λ id p. inr (inl (required-some user.ticket_id id p))) named in
      subst (λ o. IsAuthorised user H (connect_as adapter o s)) (sym e)
        (home-IsAuthorised (required user.restaurant_id) _
          (λ id p. required-some user.restaurant_id id p) ticketed)

Held-covers :
    (visits : List (ClientEvent × World)) (H : String → QueueEntry → Type 0)
    → ((id : String) (e : QueueEntry) → Held visits id e → H id e)
    → All
        (λ v. (i : String) (e : QueueEntry) → row_with i v.1.tables.entries ≡ some e → H i e)
        visits
Held-covers [] H h = tt
Held-covers ((m, w) ∷ rest) H h =
    (λ i e p. h i e (inl p), Held-covers rest H (λ i e p. h i e (inr p)))

-- If a socket with a user connects in none of the rooms of the service, it is, after any events of
-- its client and whatever the database holds at each of them, only in rooms that the user may enter:
-- his own; those of restaurants where he is an administrator or of the staff; the queues of all
-- restaurants as a customer, or of the restaurant he connected with; and those of tickets that he
-- connected with, or whose entries the database held then as his or his restaurant's.
pub run_events-MayEnter :
    (adapter : Adapter)
    → LawfulAdapter adapter
    → (env : Env) (client : Client) → Lawful client
    → (bound : Bool) (user : SocketUser) (s : Socket) → s.user ≡ some user
    → ((k : RoomKind) (id : String) → has_room (room k id) s.rooms ≡ false)
    → (visits : List (ClientEvent × World)) (k : RoomKind) (id : String)
    → has_room
        (room k id)
        (run_events adapter env client bound visits (handle_socket_connection adapter s)).rooms
      ≡ true
    → MayEnter user (Held visits) k id
run_events-MayEnter adapter lawful env client cl bound user s e fresh visits k id h =
    (run_events-IsAuthorised adapter lawful env client cl bound user (Held visits) visits
        (handle_socket_connection adapter s) (Held-covers visits (Held visits) (λ i x p. p))
        (connection-IsAuthorised adapter lawful env client cl bound user (Held visits) s e
          (λ l i p. absurd (ground (arith, fresh l i, p))))).1
      k id h
