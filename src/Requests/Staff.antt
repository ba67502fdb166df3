-- ===== src/Requests/Staff.antt =====
-- The staff's requests that change an entry: src/presentation/http/routes/staff-queue.routes.ts with
-- src/presentation/http/controllers/staff-queue-actions.controller.ts and
-- src/presentation/http/controllers/staff-queue.controller.ts.
pub mod Owned
pub mod Performed
pub mod Service
use spotq_queue_service.Base.{
  ℕ, String, Bool, true, false, Option, none, some, List, is_empty, if◌then◌else◌,
}
use spotq_queue_service.Errors.{Failure, domain, unauthorized, Result, ok, err}
use spotq_queue_service.World.{World, Env, Client}
use spotq_queue_service.Exec.{Exec, throw}
use spotq_queue_service.Http.{ErrorResponse, threw, error_middleware}
use spotq_queue_service.Socket.Auth.{ParamValue, absent, one, many}
use spotq_queue_service.UseCases.Seat
use spotq_queue_service.UseCases.Skip
use spotq_queue_service.UseCases.Cancel
use spotq_queue_service.UseCases.Assign
use spotq_queue_service.UseCases.Ring
use spotq_queue_service.Requests.{
  ErrorBody, Reply, refused, succeeded, failed, unanswered, Next, stops, goes,
}
use spotq_queue_service.Requests.Gate.{Request, RequestUser, staff_auth_middleware}
use spotq_queue_service.Requests.Bodies.{
  SkipBody, CancelBody, seat_party_body, assign_tables_body, skip_party_body,
  cancel_queue_entry_body, validate_request_params, validate_request_body, entry_params,
  both_params,
}

-- What stands outside: the tests of the schema library, and whether the service runs in production.
pub record Setting : Type 0 where
  pub is_uuid : String → Bool
  pub text_length : String → ℕ
  pub is_production : Bool

-- A request for an entry, with the id of its path and its body.
pub data StaffCall : Type 0 where
  seat_party : Option String → Option (List String) → StaffCall
  skip_party : Option String → Option SkipBody → StaffCall
  cancel_queue_entry : Option String → Option CancelBody → StaffCall
  assign_tables : Option String → Option (List (String × ℕ)) → StaffCall
  ring_customer : Option String → StaffCall

-- A parameter of the path, which is one text.
abbrev pub path_param : ParamValue → Option String
path_param (one s) = some s
path_param _ = none

abbrev pub reply_to : Option ErrorResponse → Reply
reply_to none = unanswered
reply_to (some r) = failed r

-- The reply after the handler, at most by the error middleware.
unfoldable pub respond : {A : Type 0} → ℕ → Bool → Result A × World → Reply × World
unfolding error_middleware
respond status production (ok a, w) = (succeeded status, w)
respond status production (err x, w) =
    (reply_to (error_middleware production false 200 (threw x)), w)

-- A middleware before the rest.
abbrev pub through : {A : Type 0} → Next A → (A → World → Reply × World) → World → Reply × World
through (stops e) next w = (refused e, w)
through (goes a) next w = next a w

module _ (env : Env) (client : Client) (c : Setting) where
  -- `if (!staffUserId) throw new UnauthorizedError(…)`
  abbrev pub as_staff : {A : Type 0} → String → Exec A → Exec A
  as_staff user_id m = if is_empty user_id then throw unauthorized else m

  unfoldable pub seat_party_controller :
      RequestUser → String × String → List String → World → Reply × World
  unfolding respond
  seat_party_controller user (rid, id) table_ids w = respond 200 c.is_production (
      as_staff user.user_id
        (Seat.execute env client (record {
          restaurant_id = rid;
          queue_entry_id = id;
          staff_user_id = user.user_id;
          table_ids = table_ids;
        }))
        w)

  unfoldable pub skip_party_controller :
      RequestUser → String × String → SkipBody → World → Reply × World
  unfolding respond
  skip_party_controller user (rid, id) body w = respond 200 c.is_production (
      as_staff user.user_id
        (Skip.execute env client (record {
          restaurant_id = rid;
          queue_entry_id = id;
          staff_user_id = user.user_id;
          reason = body.reason;
          skip_positions = body.skip_positions;
        }))
        w)

  unfoldable pub cancel_controller :
      RequestUser → String × String → CancelBody → World → Reply × World
  unfolding respond
  cancel_controller user (rid, id) body w = respond 200 c.is_production (
      as_staff user.user_id
        (Cancel.execute env client (record {
          restaurant_id = rid;
          queue_entry_id = id;
          staff_user_id = user.user_id;
          reason = body.reason;
          notes = body.notes;
        }))
        w)

  -- `if (!restaurantId || !staffUserId) throw new UnauthorizedError(…)`
  abbrev pub as_member : {A : Type 0} → RequestUser → Exec A → Exec A
  as_member user m =
      if is_empty user.restaurant_id then throw unauthorized else as_staff user.user_id m

  unfoldable pub assign_tables_controller :
      RequestUser → String → List (String × ℕ) → World → Reply × World
  unfolding respond
  assign_tables_controller user id tables w = respond 200 c.is_production (
      as_member user
        (Assign.execute env client (record {
          restaurant_id = user.restaurant_id;
          queue_entry_id = id;
          staff_user_id = user.user_id;
          tables = tables;
        }))
        w)

  unfoldable pub ring_customer_controller : RequestUser → String → World → Reply × World
  unfolding respond
  ring_customer_controller user id w = respond 200 c.is_production (
      as_member user
        (Ring.execute env client
          (record { restaurant_id = user.restaurant_id; queue_entry_id = id }))
        w)

  -- The routes after the authentication: the parameters, the body, the controller.
  unfoldable pub handle_call : Request → StaffCall → RequestUser → World → Reply × World
  unfolding seat_party_controller skip_party_controller cancel_controller assign_tables_controller
      ring_customer_controller seat_party_body skip_party_body cancel_queue_entry_body
      assign_tables_body entry_params both_params
  handle_call r (seat_party id body) user =
      through (validate_request_params (both_params c.is_uuid (path_param r.restaurant_id) id))
        λ ids.
          through (validate_request_body (seat_party_body c.is_uuid body))
            (seat_party_controller user ids)
  handle_call r (skip_party id body) user =
      through (validate_request_params (both_params c.is_uuid (path_param r.restaurant_id) id))
        λ ids.
          through (validate_request_body (skip_party_body c.text_length body))
            (skip_party_controller user ids)
  handle_call r (cancel_queue_entry id body) user =
      through (validate_request_params (both_params c.is_uuid (path_param r.restaurant_id) id))
        λ ids.
          through (validate_request_body (cancel_queue_entry_body env c.text_length body))
            (cancel_controller user ids)
  handle_call r (assign_tables id body) user =
      through (validate_request_params (entry_params c.is_uuid id)) λ entry_id.
        through (validate_request_body (assign_tables_body c.is_uuid body))
          (assign_tables_controller user entry_id)
  handle_call r (ring_customer id) user =
      through (validate_request_params (entry_params c.is_uuid id)) (ring_customer_controller user)

  -- `staffQueueRouter`
  unfoldable pub handle_staff_request : Request → StaffCall → World → Reply × World
  unfolding handle_call staff_auth_middleware
  handle_staff_request r call = through (staff_auth_middleware env r) (handle_call r call)
