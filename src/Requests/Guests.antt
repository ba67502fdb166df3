-- ===== src/Requests/Guests.antt =====
-- The requests that register a guest, and those that only read: the controllers of
-- src/presentation/http/controllers with their routes and schemas. A phone number is tested by the
-- runtime's regular expressions, and a text measured by it: both are parameters.
pub mod Fit
use spotq_queue_service.Base.{
  ℕ, String, Bool, not, ◌&&◌, Option, none, some, leb, is_empty, trim, or_null, if◌then◌else◌,
}
use spotq_queue_service.Errors.{QueueStatus, online, walk_in}
use spotq_queue_service.World.{World, Env, Client}
use spotq_queue_service.Socket.Auth.{trimmed}
use spotq_queue_service.UseCases.Register
use spotq_queue_service.UseCases.QueueEta
use spotq_queue_service.UseCases.StaffQueue
use spotq_queue_service.Requests.{Reply}
use spotq_queue_service.Requests.Gate.{
  Request, RequestUser, staff_auth_middleware, customer_auth_middleware,
}
use spotq_queue_service.Requests.Bodies.{
  validate_request_params, validate_request_body, entry_params, is_short,
}
use spotq_queue_service.Requests.Staff.{Setting, path_param, respond, through, as_staff}

-- The body of a registration; a walk-in has no device.
pub record GuestBody : Type 0 where
  pub guest_name : String
  pub guest_phone : String
  pub party_size : ℕ
  pub special_notes : Option String
  pub fid : Option String

-- `PARTY_SIZE_LIMITS`
abbrev pub is_party_size : ℕ → Bool
is_party_size n = leb 1 n && leb n 20

abbrev pub is_name : (String → ℕ) → String → Bool
is_name text_length name = not (is_empty name) && leb (text_length name) 100

abbrev pub is_guest : (String → ℕ) → (String → Bool) → GuestBody → Bool
is_guest text_length is_phone body =
    is_name text_length (trim body.guest_name)
    && is_phone (trim body.guest_phone)
    && is_party_size body.party_size
    && is_short text_length (trimmed body.special_notes)

-- `val && val.length > 0 ? val : null`, of a trimmed text.
abbrev pub text_or_null : Option String → Option String
text_or_null none = none
text_or_null (some s) = or_null (trim s)

-- `joinQueueBodySchema`
unfoldable pub join_queue_body :
    (String → ℕ) → (String → Bool) → Option GuestBody → Option GuestBody
join_queue_body text_length is_phone none = none
join_queue_body text_length is_phone (some body) =
    if is_guest text_length is_phone body
    then some (record {
      guest_name = trim body.guest_name;
      guest_phone = trim body.guest_phone;
      party_size = body.party_size;
      special_notes = text_or_null body.special_notes;
      fid = text_or_null body.fid;
    })
    else none

-- `registerWalkInBodySchema`
unfoldable pub register_walk_in_body :
    (String → ℕ) → (String → Bool) → Option GuestBody → Option GuestBody
register_walk_in_body text_length is_phone none = none
register_walk_in_body text_length is_phone (some body) =
    if is_guest text_length is_phone body
    then some (record {
      guest_name = trim body.guest_name;
      guest_phone = trim body.guest_phone;
      party_size = body.party_size;
      special_notes = trimmed body.special_notes;
      fid = none;
    })
    else none

-- `getEtaQuerySchema`
unfoldable pub get_eta_query : Option ℕ → Option ℕ
get_eta_query none = none
get_eta_query (some n) = if is_party_size n then some n else none

module _ (env : Env) (client : Client) (c : Setting) (is_phone : String → Bool) where
  unfoldable pub join_queue_controller : RequestUser → String → GuestBody → World → Reply × World
  unfolding respond
  join_queue_controller user rid body w = respond 201 c.is_production (
      Register.execute env client
        (record {
          restaurant_id = rid;
          user_id = some user.user_id;
          staff_user_id = none;
          guest_name = body.guest_name;
          guest_phone = body.guest_phone;
          party_size = body.party_size;
          special_notes = body.special_notes;
          fid = body.fid;
          registration_type = some online;
        })
        w)

  unfoldable pub register_walk_in_controller :
      RequestUser → String → GuestBody → World → Reply × World
  unfolding respond
  register_walk_in_controller user rid body w = respond 201 c.is_production (
      as_staff env client c user.user_id
        (Register.execute env client (record {
          restaurant_id = rid;
          user_id = none;
          staff_user_id = some user.user_id;
          guest_name = body.guest_name;
          guest_phone = body.guest_phone;
          party_size = body.party_size;
          special_notes = body.special_notes;
          fid = none;
          registration_type = some walk_in;
        }))
        w)

  -- The two routes that register: `joinQueue` for a customer, `registerWalkIn` for the staff.
  unfoldable pub handle_join : Request → Option GuestBody → World → Reply × World
  unfolding join_queue_controller join_queue_body entry_params customer_auth_middleware
  handle_join r body = through (customer_auth_middleware env r) λ user.
      through (validate_request_params (entry_params c.is_uuid (path_param r.restaurant_id))) λ rid.
        through (validate_request_body (join_queue_body c.text_length is_phone body))
          (join_queue_controller user rid)

  unfoldable pub handle_walk_in : Request → Option GuestBody → World → Reply × World
  unfolding register_walk_in_controller register_walk_in_body entry_params staff_auth_middleware
  handle_walk_in r body = through (staff_auth_middleware env r) λ user.
      through (validate_request_params (entry_params c.is_uuid (path_param r.restaurant_id))) λ rid.
        through (validate_request_body (register_walk_in_body c.text_length is_phone body))
          (register_walk_in_controller user rid)

  -- `getEta` and `getLiveQueue`, which only read.
  unfoldable pub handle_get_eta : Request → Option ℕ → World → Reply × World
  unfolding get_eta_query entry_params customer_auth_middleware respond
  handle_get_eta r size = through (customer_auth_middleware env r) λ user.
      through (validate_request_params (entry_params c.is_uuid (path_param r.restaurant_id))) λ rid.
        through (validate_request_params (get_eta_query size))
          λ n w. respond 200 c.is_production (QueueEta.get_queue_eta env client rid n w)

  unfoldable pub handle_live_queue :
      (String → String → Bool)
      → Request
      → Option QueueStatus
      → Option StaffQueue.PartySizeBucket
      → World
      → Reply × World
  unfolding entry_params staff_auth_middleware respond
  handle_live_queue id_le r status bucket = through (staff_auth_middleware env r) λ user.
      through (validate_request_params (entry_params c.is_uuid (path_param r.restaurant_id)))
        λ rid w. respond 200 c.is_production (
          StaffQueue.get_staff_queue env client id_le
            (record { restaurant_id = rid; status = status; party_size_bucket = bucket }) w)
