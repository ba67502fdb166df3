-- ===== src/Socket/Answers.antt =====
-- The acknowledgements of src/presentation/websocket/handlers/room.handler.ts.
use mathlib.Core.Path.{subst}
use spotq_queue_service.Base.{
  String, ◌≡◌, refl, sym, ◌⊎◌, inl, inr, Bool, true, false, ◌&&◌, ◌||◌, Option, none, some, [], ◌∷◌,
  ◌++◌, if◌then◌else◌, Bool-cases,
}
use spotq_queue_service.Entity.{QueueEntry}
use spotq_queue_service.World.{World, Env, Client}
use spotq_queue_service.Socket.{
  SocketUser, Socket, Adapter, RoomAck, restaurant_room, queue_room, ticket_room, is_admin,
  is_customer, same_text, is_authorized_restaurant_member,
}
use spotq_queue_service.Socket.Handlers.{
  ClientEvent, join_restaurant, leave_restaurant, join_ticket, leave_ticket, join_queue,
  leave_queue, required, serves, holds, emit_success, emit_error, joined, left, on_join_restaurant,
  on_join_queue, on_leave, decide_ticket, on_join_ticket, dispatch, on_event, for_user,
  search_ticket,
}

-- Whether the client asked for an acknowledgement of an event.
abbrev pub is_asked : ClientEvent → Bool
is_asked (join_restaurant id asked) = asked
is_asked (leave_restaurant id asked) = asked
is_asked (join_ticket id asked) = asked
is_asked (leave_ticket id asked) = asked
is_asked (join_queue id asked) = asked
is_asked (leave_queue id asked) = asked

module _ (adapter : Adapter) where
  -- A success names the one room that was joined or left, and a refusal changes neither the rooms nor
  -- the user.
  abbrev pub IsTrue : RoomAck → Socket → Socket → Type 0
  IsTrue r s t =
      ((r.success ≡ false) × (t.rooms ≡ s.rooms) × (t.user ≡ s.user))
      ⊎ ((r.success ≡ true)
          × ((x : String) × (r.room ≡ some x)
              × ((t.rooms ≡ adapter.join x s.rooms) ⊎ (t.rooms ≡ adapter.leave x s.rooms))))

  abbrev pub IsAnswered : Bool → Socket → Socket → Type 0
  IsAnswered asked s t =
      (r : RoomAck) × (t.acknowledged
        ≡ (if asked then s.acknowledged ++ r ∷ [] else s.acknowledged))
      × IsTrue r s t

  error-IsAnswered :
      (s : Socket) (text : String) (asked sent : Bool)
      → IsAnswered asked s (emit_error s text asked sent)
  unfolding emit_error
  error-IsAnswered s text asked true = (_, refl, inl (refl, refl, refl))
  error-IsAnswered s text asked false = (_, refl, inl (refl, refl, refl))

  joined-IsAnswered :
      (s : Socket) (x : String) (asked : Bool) → IsAnswered asked s (joined adapter x asked s)
  unfolding joined emit_success
  joined-IsAnswered s x asked = (_, refl, inr (refl, (x, refl, inl refl)))

  choice-IsAnswered :
      (b asked : Bool) (s u v : Socket)
      → IsAnswered asked s u
      → IsAnswered asked s v
      → IsAnswered asked s (if b then u else v)
  choice-IsAnswered true asked s u v hu hv = hu
  choice-IsAnswered false asked s u v hu hv = hv

  on_join_restaurant-IsAnswered :
      (now : SocketUser) (id : Option String) (asked : Bool) (s : Socket)
      → IsAnswered asked s (on_join_restaurant adapter now id asked s)
  unfolding on_join_restaurant
  on_join_restaurant-IsAnswered now none asked s =
      error-IsAnswered s "restaurantId is required" asked true
  on_join_restaurant-IsAnswered now (some id) asked s =
      choice-IsAnswered (is_authorized_restaurant_member (some now) id) asked s _ _
        (joined-IsAnswered s (restaurant_room id) asked)
        (error-IsAnswered s "Unauthorized: Cannot access this restaurant queue" asked true)

  on_join_queue-IsAnswered :
      (now : SocketUser) (id : Option String) (asked : Bool) (s : Socket)
      → IsAnswered asked s (on_join_queue adapter now id asked s)
  unfolding on_join_queue
  on_join_queue-IsAnswered now none asked s = error-IsAnswered s "queueId is required" asked true
  on_join_queue-IsAnswered now (some id) asked s =
      choice-IsAnswered _ asked s _ _ (joined-IsAnswered s (queue_room id) asked)
        (error-IsAnswered s "Unauthorized: Cannot access this queue" asked true)

  on_leave-IsAnswered :
      (room_of : String → String) (text : String) (id : Option String) (asked : Bool) (s : Socket)
      → IsAnswered asked s (on_leave adapter room_of text id asked s)
  unfolding on_leave left emit_success
  on_leave-IsAnswered room_of text none asked s = error-IsAnswered s text asked false
  on_leave-IsAnswered room_of text (some id) asked s =
      (_, refl, inr (refl, (room_of id, refl, inr refl)))

  decide_ticket-IsAnswered :
      (now : SocketUser) (id : String) (asked : Bool) (s : Socket) (found : Option QueueEntry)
      → IsAnswered asked s (decide_ticket adapter now id asked s found)
  unfolding decide_ticket joined emit_success
  decide_ticket-IsAnswered now id asked s none =
      error-IsAnswered s "Unauthorized: Cannot access this ticket" asked true
  decide_ticket-IsAnswered now id asked s (some e) =
      choice-IsAnswered (serves now e) asked s _ _ (joined-IsAnswered s (ticket_room id) asked) (
        choice-IsAnswered (holds now e) asked s _ _
          (_, refl, inr (refl, (ticket_room id, refl, inl refl)))
          (error-IsAnswered s "Unauthorized: Cannot access this ticket" asked true))

  on_join_ticket-IsAnswered :
      (env : Env) (client : Client) (bound : Bool) (now : SocketUser) (id : Option String)
      (asked : Bool) (s : Socket) (w : World)
      → IsAnswered asked s (on_join_ticket adapter env client bound now id asked s w).0
  unfolding on_join_ticket
  on_join_ticket-IsAnswered env client bound now none asked s w =
      error-IsAnswered s "ticketId is required" asked true
  on_join_ticket-IsAnswered env client bound now (some id) asked s w =
      elim (Bool-cases (is_admin now || (is_customer now && same_text now.ticket_id id))) [
        | inl may ↦ rw may (joined-IsAnswered s (ticket_room id) asked)
        | inr other ↦ rw other (elim (Bool-cases bound) [
          | inl b ↦
              rw b
                (decide_ticket-IsAnswered now id asked s (search_ticket adapter env client id w).0)
          | inr b ↦ rw b (error-IsAnswered s "Unauthorized: Cannot access this ticket" asked true)
        ])
      ]

  dispatch-IsAnswered :
      (env : Env) (client : Client) (bound : Bool) (now : SocketUser) (m : ClientEvent) (s : Socket)
      (w : World)
      → IsAnswered (is_asked m) s (dispatch adapter env client bound now m s w).0
  unfolding dispatch
  dispatch-IsAnswered env client bound now (join_restaurant id asked) s w =
      on_join_restaurant-IsAnswered now (required id) asked s
  dispatch-IsAnswered env client bound now (leave_restaurant id asked) s w =
      on_leave-IsAnswered restaurant_room "restaurantId is required" (required id) asked s
  dispatch-IsAnswered env client bound now (join_ticket id asked) s w =
      on_join_ticket-IsAnswered env client bound now (required id) asked s w
  dispatch-IsAnswered env client bound now (leave_ticket id asked) s w =
      on_leave-IsAnswered ticket_room "ticketId is required" (required id) asked s
  dispatch-IsAnswered env client bound now (join_queue id asked) s w =
      on_join_queue-IsAnswered now (required id) asked s
  dispatch-IsAnswered env client bound now (leave_queue id asked) s w =
      on_leave-IsAnswered queue_room "queueId is required" (required id) asked s

-- Each event of a client whose user is known is acknowledged once, if he asked for it: a success
-- names the one room that was joined or left, and a refusal changes neither the rooms nor the user.
pub on_event-IsAnswered :
    (adapter : Adapter) (env : Env) (client : Client) (bound : Bool) (now : SocketUser)
    (m : ClientEvent) (s : Socket) (w : World)
    → s.user ≡ some now
    → IsAnswered adapter (is_asked m) s (on_event adapter env client bound m s w).0
unfolding on_event
on_event-IsAnswered adapter env client bound now m s w e =
    subst
      (λ o.
        IsAnswered adapter (is_asked m) s
          (for_user adapter env client o (λ u. dispatch adapter env client bound u m s w) (s, w)).0)
      (sym e) (dispatch-IsAnswered adapter env client bound now m s w)
