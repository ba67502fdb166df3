-- ===== src/Socket/Grants/Events.antt =====
-- Each event of src/presentation/websocket/handlers/room.handler.ts keeps a socket authorised.
use mathlib.Core.Path.{subst}
use spotq_queue_service.Base.{
  String, ◌≡◌, refl, sym, ◌∙◌, inl, inr, Bool, true, false, ◌&&◌, ◌||◌, Option, none, some, eq_iff,
  arith, Bool-cases, Option-cases,
}
use spotq_queue_service.Entity.{QueueEntry}
use spotq_queue_service.World.{World, Env, Client}
use spotq_queue_service.Repository.Laws.{Lawful, row_with}
use spotq_queue_service.Repository.Calls.{find_by_id, run, query, call_db}
use spotq_queue_service.Socket.{
  SocketUser, Socket, Adapter, LawfulAdapter, is_admin, is_customer, is_staff_or_owner, same_text,
  is_authorized_restaurant_member,
}
use spotq_queue_service.Socket.Names.{restaurants, queues, tickets}
use spotq_queue_service.Socket.Handlers.{
  serves, holds, emit_success, left, on_join_restaurant, on_join_queue, on_leave, decide_ticket,
  on_join_ticket, search_ticket,
}
use spotq_queue_service.Socket.Grants.{
  MayFollow, IsSame, IsAuthorised, IsGranted-leave, joined-IsAuthorised, error-IsAuthorised,
}

pub same_text-some : (o : Option String) (b : String) → same_text o b ≡ true → o ≡ some b
same_text-some none b h = cc
same_text-some (some a) b h = ground (arith, eq_iff a b)

-- A ticket that is found is the row with its id.
search_ticket-row :
    (adapter : Adapter) (env : Env) (client : Client)
    → Lawful client
    → (id : String) (w : World) (e : QueueEntry)
    → (search_ticket adapter env client id w).0 ≡ some e
    → row_with id w.tables.entries ≡ some e
unfolding find_by_id run query call_db
search_ticket-row adapter env client cl id w e h =
    elim (Option-cases (env.database_fault w.calls)) [
      | inl sound ↦ ground (arith, sound, h, cl.find_unique id w.tables.entries)
      | inr (x, fault) ↦ ground (arith, fault, h)
    ]

module _ (user : SocketUser) (H : String → QueueEntry → Type 0) where
  module _ (adapter : Adapter) (lawful : LawfulAdapter adapter) where
    same_member :
        (now : SocketUser) (id : String)
        → IsSame user H now
        → is_authorized_restaurant_member (some now) id
          ≡ is_authorized_restaurant_member (some user) id
    unfolding is_authorized_restaurant_member
    same_member now id same = rw (same.1, same.2) refl

    pub on_join_restaurant-IsAuthorised :
        (now : SocketUser) (id : Option String) (asked : Bool) (s : Socket)
        → IsSame user H now
        → IsAuthorised user H s
        → IsAuthorised user H (on_join_restaurant adapter now id asked s)
    unfolding on_join_restaurant
    on_join_restaurant-IsAuthorised now none asked s same h =
        error-IsAuthorised user H s "restaurantId is required" asked true h
    on_join_restaurant-IsAuthorised now (some id) asked s same h =
        elim (Bool-cases (is_authorized_restaurant_member (some now) id)) [
          | inl may ↦ rw may (
              joined-IsAuthorised user H adapter lawful restaurants id asked s
                (sym (same_member now id same) ∙ may) h)
          | inr refused ↦ rw refused (
              error-IsAuthorised user H s "Unauthorized: Cannot access this restaurant queue" asked
                true h)
        ]

    pub on_join_queue-IsAuthorised :
        (now : SocketUser) (id : Option String) (asked : Bool) (s : Socket)
        → IsSame user H now
        → IsAuthorised user H s
        → IsAuthorised user H (on_join_queue adapter now id asked s)
    unfolding on_join_queue
    on_join_queue-IsAuthorised now none asked s same h =
        error-IsAuthorised user H s "queueId is required" asked true h
    on_join_queue-IsAuthorised now (some id) asked s same h =
        elim (Bool-cases
          (is_admin now || is_customer now || is_authorized_restaurant_member (some now) id)) [
            | inl may ↦ rw may (
                joined-IsAuthorised user H adapter lawful queues id asked s
                  (inl (ground (arith, same.1, may, same_member now id same))) h)
            | inr refused ↦
                rw refused (
                  error-IsAuthorised user H s "Unauthorized: Cannot access this queue" asked true h)
          ]

    pub on_leave-IsAuthorised :
        (room_of : String → String) (text : String) (id : Option String) (asked : Bool) (s : Socket)
        → IsAuthorised user H s
        → IsAuthorised user H (on_leave adapter room_of text id asked s)
    unfolding on_leave left emit_success
    on_leave-IsAuthorised room_of text none asked s h =
        error-IsAuthorised user H s text asked false h
    on_leave-IsAuthorised room_of text (some id) asked s h =
        (h.0, IsGranted-leave user H adapter lawful (room_of id) s.rooms h.1)

    serves-grant :
        (now : SocketUser) (e : QueueEntry)
        → IsSame user H now
        → serves now e ≡ true
        → (is_staff_or_owner user ≡ true) × (user.restaurant_id ≡ some e.restaurant_id)
    serves-grant now e same may =
        ground (arith, same.1, same.2, same_text-some now.restaurant_id e.restaurant_id)

    holds-grant :
        (now : SocketUser) (e : QueueEntry)
        → IsSame user H now
        → holds now e ≡ true
        → (is_customer user ≡ true) × (e.user_id ≡ some user.user_id)
    holds-grant now e same may =
        ground (arith, same.0, same.1, same_text-some e.user_id now.user_id)

    own_ticket :
        (now : SocketUser) (id : String)
        → IsSame user H now
        → is_admin now || (is_customer now && same_text now.ticket_id id) ≡ true
        → MayFollow user H id
    own_ticket now id same may = elim (Bool-cases (is_admin now)) [
      | inl admin ↦ inl (ground (arith, same.1))
      | inr other ↦ same.3 id (ground (arith, same_text-some now.ticket_id id))
    ]

    decide_ticket-IsAuthorised :
        (now : SocketUser) (id : String) (asked : Bool) (s : Socket) (found : Option QueueEntry)
        → ((e : QueueEntry) → found ≡ some e → H id e)
        → IsSame user H now
        → IsAuthorised user H s
        → IsAuthorised user H (decide_ticket adapter now id asked s found)
    unfolding decide_ticket
    decide_ticket-IsAuthorised now id asked s none held same h =
        error-IsAuthorised user H s "Unauthorized: Cannot access this ticket" asked true h
    decide_ticket-IsAuthorised now id asked s (some e) held same h =
        elim (Bool-cases (serves now e)) [
          | inl may ↦ rw may (
              joined-IsAuthorised user H adapter lawful tickets id asked s
                (inr (inr (e, held e refl, inl (serves-grant now e same may)))) h)
          | inr unserved ↦ rw unserved (elim (Bool-cases (holds now e)) [
            | inl may ↦
                let grant : MayFollow user H id =
                  inr (inr (e, held e refl, inr (holds-grant now e same may))) in
                rw may (
                  joined-IsAuthorised user H adapter lawful tickets id asked
                    (record s { user = some (record now { ticket_id = some id }) }) grant
                    (
                      (
                        same.0,
                        same.1,
                        same.2,
                        λ j p. subst (MayFollow user H) (ground (arith, p)) grant,
                      ),
                      h.1,
                    ))
            | inr refused ↦
                rw refused (
                  error-IsAuthorised user H s "Unauthorized: Cannot access this ticket" asked true
                    h)
          ])
        ]

    pub on_join_ticket-IsAuthorised :
        (env : Env) (client : Client)
        → Lawful client
        → (bound : Bool) (now : SocketUser) (id : Option String) (asked : Bool) (s : Socket)
          (w : World)
        → ((i : String) (e : QueueEntry) → row_with i w.tables.entries ≡ some e → H i e)
        → IsSame user H now
        → IsAuthorised user H s
        → IsAuthorised user H (on_join_ticket adapter env client bound now id asked s w).0
    unfolding on_join_ticket
    on_join_ticket-IsAuthorised env client cl bound now none asked s w held same h =
        error-IsAuthorised user H s "ticketId is required" asked true h
    on_join_ticket-IsAuthorised env client cl bound now (some id) asked s w held same h =
        elim (Bool-cases (is_admin now || (is_customer now && same_text now.ticket_id id))) [
          | inl may ↦ rw may (
              joined-IsAuthorised user H adapter lawful tickets id asked s
                (own_ticket now id same may) h)
          | inr other ↦ rw other (elim (Bool-cases bound) [
            | inl b ↦ rw b (
                decide_ticket-IsAuthorised now id asked s _
                  (λ e found. held id e (search_ticket-row adapter env client cl id w e found)) same
                  h)
            | inr b ↦
                rw b (
                  error-IsAuthorised user H s "Unauthorized: Cannot access this ticket" asked true
                    h)
          ])
        ]
