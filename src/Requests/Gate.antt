-- ===== src/Requests/Gate.antt =====
-- Who may make a request: src/presentation/http/middleware/staff.auth.middleware.ts and
-- src/presentation/http/middleware/customer.auth.middleware.ts.
use spotq_queue_service.Base.{
  String, Bool, false, not, ◌&&◌, ◌||◌, Option, none, some, str_eq, is_empty, if◌then◌else◌,
}
use spotq_queue_service.World.{Env}
use spotq_queue_service.Socket.Auth.{ParamValue, get_header_value, trimmed, text_or}
use spotq_queue_service.Requests.{ErrorBody, api_error, Next, stops, goes}

-- The headers of a request, and its parameter `restaurantId`, absent where the route has none.
pub record Request : Type 0 where
  pub x_user_id : ParamValue
  pub x_user_role : ParamValue
  pub x_user_email : ParamValue
  pub x_restaurant_id : ParamValue
  pub restaurant_id : ParamValue

-- `req.user`
pub record RequestUser : Type 0 where
  pub user_id : String
  pub restaurant_id : String
  pub email : String
  pub role : String

abbrev pub unauthorized_from_gateway : ErrorBody
unauthorized_from_gateway = api_error "Unauthorized request from gateway" "UNAUTHORIZED" 401

abbrev pub staff_forbidden : ErrorBody
staff_forbidden = api_error "Forbidden: Staff access required" "FORBIDDEN" 403

abbrev pub access_forbidden : ErrorBody
access_forbidden = api_error "Forbidden: You do not have access to this restaurant" "FORBIDDEN" 403

-- `role?.toLowerCase()`, which must be one of two.
abbrev pub is_staff_role : Env → Option String → Bool
is_staff_role env none = false
is_staff_role env (some role) =
    str_eq (env.to_lower role) "staff" || str_eq (env.to_lower role) "admin"

-- `paramRestaurantId && paramRestaurantId !== restaurantId`
abbrev pub is_elsewhere : Option String → String → Bool
is_elsewhere none restaurant_id = false
is_elsewhere (some param) restaurant_id = not (is_empty param) && not (str_eq param restaurant_id)

unfoldable pub enter_restaurant : Request → String → Option String → Next RequestUser
unfolding get_header_value
enter_restaurant r user_id none = stops access_forbidden
enter_restaurant r user_id (some restaurant_id) =
    if is_empty restaurant_id
      || is_elsewhere (trimmed (get_header_value r.restaurant_id)) restaurant_id
    then stops access_forbidden
    else goes (record {
      user_id = user_id;
      restaurant_id = restaurant_id;
      email = text_or (get_header_value r.x_user_email) "";
      role = text_or (get_header_value r.x_user_role) "STAFF";
    })

unfoldable pub enter_staff : Env → Request → Option String → Next RequestUser
unfolding get_header_value enter_restaurant
enter_staff env r none = stops unauthorized_from_gateway
enter_staff env r (some user_id) =
    if is_empty user_id
    then stops unauthorized_from_gateway
    else if is_staff_role env (get_header_value r.x_user_role)
    then enter_restaurant r user_id (trimmed (get_header_value r.x_restaurant_id))
    else stops staff_forbidden

-- `staffAuthMiddleware`
unfoldable pub staff_auth_middleware : Env → Request → Next RequestUser
unfolding get_header_value enter_staff
staff_auth_middleware env r = enter_staff env r (get_header_value r.x_user_id)

unfoldable pub enter_customer : Env → Request → Option String → Next RequestUser
unfolding get_header_value
enter_customer env r none = stops unauthorized_from_gateway
enter_customer env r (some user_id) =
    if is_empty user_id
    then stops unauthorized_from_gateway
    else goes (record {
      user_id = user_id;
      restaurant_id = "";
      email = text_or (get_header_value r.x_user_email) "";
      role = env.to_upper (text_or (get_header_value r.x_user_role) "CUSTOMER");
    })

-- `customerAuthMiddleware`; a customer has no restaurant.
unfoldable pub customer_auth_middleware : Env → Request → Next RequestUser
unfolding get_header_value enter_customer
customer_auth_middleware env r = enter_customer env r (get_header_value r.x_user_id)
