-- ===== src/Socket/Auth.antt =====
-- src/presentation/websocket/middleware/socket-auth.middleware.ts: the user of a socket, from the
-- headers of the gateway and the parameters of the query. A header or a parameter is absent, or one
-- text, or several; a parameter of another kind counts as absent.
use spotq_queue_service.Base.{
  String, Bool, ◌||◌, Option, none, some, List, [], ◌∷◌, str_eq, trim, or_null, is_empty,
  if◌then◌else◌,
}
use spotq_queue_service.World.{Env}
use spotq_queue_service.Socket.{SocketUser, Socket}

pub data ParamValue : Type 0 where
  absent : ParamValue
  one : String → ParamValue
  many : List String → ParamValue

-- `getHeaderValue`
unfoldable pub get_header_value : ParamValue → Option String
get_header_value absent = none
get_header_value (one s) = some s
get_header_value (many []) = none
get_header_value (many (s ∷ rest)) = some s

-- `getParamValue`
unfoldable pub get_param_value : ParamValue → Option String
get_param_value absent = none
get_param_value (one s) = or_null (trim s)
get_param_value (many []) = none
get_param_value (many (s ∷ rest)) = or_null (trim s)

-- The handshake of a connection: its headers, and its query.
pub record Handshake : Type 0 where
  pub x_user_id : ParamValue
  pub x_user_role : ParamValue
  pub x_restaurant_id : ParamValue
  pub x_ticket_id : ParamValue
  pub x_user_email : ParamValue
  pub query_ticket_id : ParamValue
  pub query_restaurant_id : ParamValue

-- `s?.trim()`
abbrev pub trimmed : Option String → Option String
trimmed none = none
trimmed (some s) = some (trim s)

-- `a || b`, of two texts that may be absent.
abbrev pub first_given : Option String → Option String → Option String
first_given none b = b
first_given (some s) b = if is_empty s then b else some s

-- `a || b`, of a text that may be absent and one that is not.
abbrev pub text_or : Option String → String → String
text_or none b = b
text_or (some s) b = if is_empty s then b else s

-- Whether a role is one of the two whose restaurant comes from the gateway only.
abbrev pub is_bound_role : String → Bool
is_bound_role role = str_eq role "STAFF" || str_eq role "RESTAURANT_OWNER"

-- `role` and `trimmedHeaderRestaurantId` of `socketAuthMiddleware`
abbrev pub role_of : Env → Handshake → String
role_of env h = env.to_upper (text_or (get_header_value h.x_user_role) "CUSTOMER")

abbrev pub header_restaurant : Handshake → Option String
header_restaurant h = trimmed (get_header_value h.x_restaurant_id)

-- `user` of `socketAuthMiddleware`
unfoldable pub user_of : Env → Handshake → String → SocketUser
unfolding get_header_value get_param_value
user_of env h user_id = record {
  user_id = user_id;
  role = role_of env h;
  restaurant_id =
      if is_bound_role (role_of env h)
      then header_restaurant h
      else first_given (header_restaurant h) (get_param_value h.query_restaurant_id);
  ticket_id =
      first_given (trimmed (get_header_value h.x_ticket_id)) (get_param_value h.query_ticket_id);
  email = get_header_value h.x_user_email;
}

-- `socketAuthMiddleware`: the socket with its user, or `none` where it is rejected.
unfoldable pub socket_auth_middleware : Env → Handshake → Socket → Option Socket
unfolding get_header_value user_of
socket_auth_middleware env h s = elim (get_header_value h.x_user_id) [
  | none ↦ none
  | some id ↦ if is_empty id then none else some (record s { user = some (user_of env h id) })
]
