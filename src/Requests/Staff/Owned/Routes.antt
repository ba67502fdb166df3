-- ===== src/Requests/Staff/Owned/Routes.antt =====
-- Each route of src/presentation/http/routes/staff-queue.routes.ts for an entry.
use mathlib.Core.Path.{subst}
use spotq_queue_service.Base.{ℕ, String, ◌≡◌, refl, ◌⊎◌, inl, inr, Option, some, List, is_empty}
use spotq_queue_service.Entity.{QueueEntry}
use spotq_queue_service.World.{World, Tables, Env, Client}
use spotq_queue_service.Exec.{throw}
use spotq_queue_service.Errors.{unauthorized}
use spotq_queue_service.Repository.Laws.{Lawful}
use spotq_queue_service.Socket.Auth.{get_header_value}
use spotq_queue_service.UseCases.Lookup.Found.{IsOwned}
use spotq_queue_service.UseCases.Seat
use spotq_queue_service.UseCases.Skip
use spotq_queue_service.UseCases.Cancel
use spotq_queue_service.UseCases.Assign
use spotq_queue_service.UseCases.Ring
use spotq_queue_service.Requests.{Reply, Next}
use spotq_queue_service.Requests.Gate.{Request, RequestUser, staff_auth_middleware}
use spotq_queue_service.Requests.Bodies.{
  SkipBody, CancelBody, validate_request_params, validate_request_body, entry_params, both_params,
  seat_party_body, skip_party_body, cancel_queue_entry_body, assign_tables_body,
}
use spotq_queue_service.Requests.Staff.{
  Setting, StaffCall, seat_party, skip_party, cancel_queue_entry, assign_tables, ring_customer,
  path_param, through, handle_call, handle_staff_request, seat_party_controller,
  skip_party_controller, cancel_controller, assign_tables_controller, ring_customer_controller,
}
use spotq_queue_service.Requests.Staff.Owned.{
  IsKeptOrOwned, lookup-IsKeptOrOwned, choice-tables, guard-tables, IsAdmitted,
  staff_auth-IsAdmitted, through-tables, validated-goes, entry_params-some, pair-some, IsTight,
  same_restaurant,
}

-- The id in the path of a request.
abbrev pub id_of : StaffCall → Option String
id_of (seat_party id body) = id
id_of (skip_party id body) = id
id_of (cancel_queue_entry id body) = id
id_of (assign_tables id body) = id
id_of (ring_customer id) = id

module _ (env : Env) (client : Client) (lawful : Lawful client) (c : Setting)
    (tight : IsTight c.is_uuid) (r : Request) (user : RequestUser)
    (admitted : IsAdmitted env r user) where
  module _ (call : StaffCall) (s : Tables) where
    abbrev IsAllowed : Tables → Type 0
    IsAllowed t =
        (t ≡ s)
        ⊎ ((id : String) × (id_of call ≡ some id)
            × ((e : QueueEntry) × IsOwned user.restaurant_id id s e))

    weaken :
        (rid id : String) (t : Tables)
        → id_of call ≡ some id
        → rid ≡ user.restaurant_id
        → IsKeptOrOwned rid id s t
        → IsAllowed t
    weaken rid id t h e (inl kept) = inl kept
    weaken rid id t h e (inr (x, o)) = inr (id, h, (x, subst (λ v. IsOwned v id s x) e o))

    -- A route with the restaurant in its path.
    there :
        (id : Option String) (ids : String × String)
        → both_params c.is_uuid (path_param r.restaurant_id) id ≡ some ids
        → (id ≡ some ids.1) × (ids.0 ≡ user.restaurant_id)
    unfolding both_params
    there id (rid, i) h =
        let parts = pair-some _ _ rid i h in
        let here = entry_params-some c.is_uuid (path_param r.restaurant_id) rid parts.0 in
        (
          (entry_params-some c.is_uuid id i parts.1).0,
          same_restaurant c.is_uuid tight r.restaurant_id rid user.restaurant_id here.0 here.1
              admitted.here,
        )

    both-route :
        {A : Type 0} (body : Next A) (k : String × String → A → World → Reply × World) (w : World)
        → w.tables ≡ s
        → ((ids : String × String) (a : A) → IsKeptOrOwned ids.0 ids.1 s (k ids a w).1.tables)
        → IsAllowed
            (through
              (validate_request_params
                (both_params c.is_uuid (path_param r.restaurant_id) (id_of call)))
              (λ ids. through body (k ids))
              w).1.tables
    both-route body k w start h =
        through-tables IsAllowed
          (validate_request_params
            (both_params c.is_uuid (path_param r.restaurant_id) (id_of call)))
          (λ ids. through body (k ids)) w (inl start)
          λ ids p.
            let (known, same) = there (id_of call) ids (
              validated-goes "INVALID_PARAMETERS" "Invalid request parameters" 400
                (both_params c.is_uuid (path_param r.restaurant_id) (id_of call)) ids p) in
            through-tables IsAllowed body (k ids) w (inl start)
              λ a q. weaken ids.0 ids.1 (k ids a w).1.tables known same (h ids a)

    -- A route without, where the restaurant is that of the user.
    own-route :
        (k : String → World → Reply × World) (w : World)
        → w.tables ≡ s
        → ((id : String) → IsKeptOrOwned user.restaurant_id id s (k id w).1.tables)
        → IsAllowed
            (through (validate_request_params (entry_params c.is_uuid (id_of call))) k w).1.tables
    own-route k w start h =
        through-tables IsAllowed (validate_request_params (entry_params c.is_uuid (id_of call))) k w
          (inl start)
          λ id p.
            weaken user.restaurant_id id (k id w).1.tables
              (entry_params-some c.is_uuid (id_of call) id (
                validated-goes "INVALID_PARAMETERS" "Invalid request parameters" 400
                  (entry_params c.is_uuid (id_of call)) id p)).0
              refl (h id)

  seat-IsKeptOrOwned :
      (ids : String × String) (tables : List String) (w : World)
      → IsKeptOrOwned ids.0 ids.1 w.tables
          (seat_party_controller env client c user ids tables w).1.tables
  unfolding seat_party_controller Seat.execute
  seat-IsKeptOrOwned (rid, id) tables w =
      guard-tables (IsKeptOrOwned rid id w.tables) 200 c.is_production (is_empty user.user_id)
        (throw unauthorized) _ w (inl refl) (lookup-IsKeptOrOwned env client lawful rid id _ w)

  skip-IsKeptOrOwned :
      (ids : String × String) (body : SkipBody) (w : World)
      → IsKeptOrOwned ids.0 ids.1 w.tables
          (skip_party_controller env client c user ids body w).1.tables
  unfolding skip_party_controller Skip.execute
  skip-IsKeptOrOwned (rid, id) body w =
      guard-tables (IsKeptOrOwned rid id w.tables) 200 c.is_production (is_empty user.user_id)
        (throw unauthorized) _ w (inl refl) (lookup-IsKeptOrOwned env client lawful rid id _ w)

  cancel-IsKeptOrOwned :
      (ids : String × String) (body : CancelBody) (w : World)
      → IsKeptOrOwned ids.0 ids.1 w.tables (cancel_controller env client c user ids body w).1.tables
  unfolding cancel_controller Cancel.execute
  cancel-IsKeptOrOwned (rid, id) body w =
      guard-tables (IsKeptOrOwned rid id w.tables) 200 c.is_production (is_empty user.user_id)
        (throw unauthorized) _ w (inl refl) (lookup-IsKeptOrOwned env client lawful rid id _ w)

  assign-IsKeptOrOwned :
      (id : String) (tables : List (String × ℕ)) (w : World)
      → IsKeptOrOwned user.restaurant_id id w.tables
          (assign_tables_controller env client c user id tables w).1.tables
  unfolding assign_tables_controller Assign.execute
  assign-IsKeptOrOwned id tables w =
      guard-tables (IsKeptOrOwned user.restaurant_id id w.tables) 200 c.is_production
        (is_empty user.restaurant_id) (throw unauthorized) _ w (inl refl)
        (choice-tables (IsKeptOrOwned user.restaurant_id id w.tables) (is_empty user.user_id)
          (throw unauthorized) _ w (inl refl)
          (lookup-IsKeptOrOwned env client lawful user.restaurant_id id _ w))

  ring-IsKeptOrOwned :
      (id : String) (w : World)
      → IsKeptOrOwned user.restaurant_id id w.tables
          (ring_customer_controller env client c user id w).1.tables
  unfolding ring_customer_controller Ring.execute
  ring-IsKeptOrOwned id w =
      guard-tables (IsKeptOrOwned user.restaurant_id id w.tables) 200 c.is_production
        (is_empty user.restaurant_id) (throw unauthorized) _ w (inl refl)
        (choice-tables (IsKeptOrOwned user.restaurant_id id w.tables) (is_empty user.user_id)
          (throw unauthorized) _ w (inl refl)
          (lookup-IsKeptOrOwned env client lawful user.restaurant_id id _ w))

  handle_call-IsAllowed :
      (call : StaffCall) (w : World)
      → IsAllowed call w.tables (handle_call env client c r call user w).1.tables
  unfolding handle_call
  handle_call-IsAllowed (seat_party id body) w =
      both-route (seat_party id body) w.tables
        (validate_request_body (seat_party_body c.is_uuid body))
        (seat_party_controller env client c user) w refl (λ ids a. seat-IsKeptOrOwned ids a w)
  handle_call-IsAllowed (skip_party id body) w =
      both-route (skip_party id body) w.tables
        (validate_request_body (skip_party_body c.text_length body))
        (skip_party_controller env client c user) w refl (λ ids a. skip-IsKeptOrOwned ids a w)
  handle_call-IsAllowed (cancel_queue_entry id body) w =
      both-route (cancel_queue_entry id body) w.tables
        (validate_request_body (cancel_queue_entry_body env c.text_length body))
        (cancel_controller env client c user) w refl (λ ids a. cancel-IsKeptOrOwned ids a w)
  handle_call-IsAllowed (assign_tables id body) w =
      own-route (assign_tables id body) w.tables
        (λ i.
          through (validate_request_body (assign_tables_body c.is_uuid body))
            (assign_tables_controller env client c user i))
        w refl
        λ i.
          through-tables (IsKeptOrOwned user.restaurant_id i w.tables)
            (validate_request_body (assign_tables_body c.is_uuid body))
            (assign_tables_controller env client c user i) w (inl refl)
            (λ tables q. assign-IsKeptOrOwned i tables w)
  handle_call-IsAllowed (ring_customer id) w =
      own-route (ring_customer id) w.tables (ring_customer_controller env client c user) w refl
        (λ i. ring-IsKeptOrOwned i w)

-- The tables `t` are still `s`, or the gateway names a user of the staff and a restaurant, and the
-- entry of the request was there and of that restaurant.
abbrev pub IsRightful : Env → Request → StaffCall → Tables → Tables → Type 0
IsRightful env r call s t =
    (t ≡ s)
    ⊎ ((user : RequestUser) × IsAdmitted env r user
        × ((id : String) × (id_of call ≡ some id)
            × ((e : QueueEntry) × IsOwned user.restaurant_id id s e)))

-- If a UUID is not empty and has no white space around it, a request of the staff to seat, skip,
-- cancel or ring a party or to assign it tables, whatever its path, body and answer are, changes the
-- tables only if the gateway names a user with a role of the staff and a restaurant, and the entry in
-- the path was there and of that restaurant.
pub handle_staff_request-IsRightful :
    (env : Env) (client : Client)
    → Lawful client
    → (c : Setting) → IsTight c.is_uuid
    → (r : Request) (call : StaffCall) (w : World)
    → IsRightful env r call w.tables (handle_staff_request env client c r call w).1.tables
unfolding handle_staff_request staff_auth_middleware
handle_staff_request-IsRightful env client lawful c tight r call w =
    through-tables (IsRightful env r call w.tables) (staff_auth_middleware env r)
      (handle_call env client c r call) w (inl refl)
      λ user h.
        let admitted = staff_auth-IsAdmitted env r (get_header_value r.x_user_id) user refl h in
        elim (handle_call-IsAllowed env client lawful c tight r user admitted call w) [
          | inl kept ↦ inl kept
          | inr owned ↦ inr (user, admitted, owned)
        ]
