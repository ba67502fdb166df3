-- ===== src/Requests/Bodies.antt =====
-- The schemas of src/presentation/http/validators for the requests of the staff, and
-- src/presentation/http/middleware/validation.middleware.ts. The schema library gives values of the
-- types below or issues of its own, `none`; whether a text is a UUID, and the
-- length of a text, are parameters.
pub mod Duplicates
use spotq_queue_service.Base.{
  ℕ, ◌+◌, String, Bool, true, false, not, ◌&&◌, ◌||◌, Option, none, some, List, [], ◌∷◌, map,
  length, ltb, leb, str_eq, trim, is_empty, if◌then◌else◌,
}
use spotq_queue_service.World.{Env}
use spotq_queue_service.Socket.Auth.{trimmed}
use spotq_queue_service.Requests.{send_error_response, Next, stops, goes}

-- `seen.has(id)`
abbrev pub is_seen : String → List String → Bool
is_seen id [] = false
is_seen id (x ∷ xs) = str_eq x id || is_seen id xs

-- The places of the ids that `superRefine` reports: those that were seen before.
unfoldable pub duplicate_issues : List String → ℕ → List String → List ℕ
duplicate_issues seen index [] = []
duplicate_issues seen index (id ∷ ids) =
    let rest = duplicate_issues (id ∷ seen) (index + 1) ids in
    if is_seen id seen then index ∷ rest else rest

abbrev pub has_none : List ℕ → Bool
has_none [] = true
has_none (n ∷ ns) = false

abbrev pub all_of : (String → Bool) → List String → Bool
all_of p [] = true
all_of p (x ∷ xs) = p x && all_of p xs

-- `seatPartyBodySchema`: the ids of one table at least, none of them twice.
unfoldable pub seat_party_body : (String → Bool) → Option (List String) → Option (List String)
unfolding duplicate_issues
seat_party_body is_uuid none = none
seat_party_body is_uuid (some table_ids) =
    if leb 1 (length table_ids)
      && all_of is_uuid table_ids
      && has_none (duplicate_issues [] 0 table_ids)
    then some table_ids
    else none

-- `assignTablesBodySchema`: the same of the tables with their numbers of seats.
abbrev pub all_positive : List (String × ℕ) → Bool
all_positive [] = true
all_positive ((id, count) ∷ tables) = ltb 0 count && all_positive tables

unfoldable pub assign_tables_body :
    (String → Bool) → Option (List (String × ℕ)) → Option (List (String × ℕ))
unfolding duplicate_issues
assign_tables_body is_uuid none = none
assign_tables_body is_uuid (some tables) =
    let ids = map (λ t. t.0) tables in
    if leb 1 (length ids)
      && all_of is_uuid ids
      && all_positive tables
      && has_none (duplicate_issues [] 0 ids)
    then some tables
    else none

pub record SkipBody : Type 0 where
  pub reason : String
  pub skip_positions : Option ℕ

abbrev pub is_positive : Option ℕ → Bool
is_positive none = true
is_positive (some n) = ltb 0 n

-- `skipPartyBodySchema`
unfoldable pub skip_party_body : (String → ℕ) → Option SkipBody → Option SkipBody
skip_party_body text_length none = none
skip_party_body text_length (some body) =
    if not (is_empty (trim body.reason))
      && leb (text_length (trim body.reason)) 500
      && is_positive body.skip_positions
    then some (record { reason = trim body.reason; skip_positions = body.skip_positions })
    else none

pub record CancelBody : Type 0 where
  pub reason : String
  pub notes : Option String

abbrev pub is_cancel_reason : String → Bool
is_cancel_reason s =
    str_eq s "NO_SHOW" || str_eq s "GUEST_CANCELLED" || str_eq s "WALK_OUT" || str_eq s "OTHER"

abbrev pub is_short : (String → ℕ) → Option String → Bool
is_short text_length none = true
is_short text_length (some s) = leb (text_length s) 500

-- `cancelQueueEntryBodySchema`: the reason is trimmed and put in capitals first.
unfoldable pub cancel_queue_entry_body : Env → (String → ℕ) → Option CancelBody → Option CancelBody
cancel_queue_entry_body env text_length none = none
cancel_queue_entry_body env text_length (some body) =
    let reason = env.to_upper (trim body.reason) in
    if is_cancel_reason reason && is_short text_length (trimmed body.notes)
    then some (record { reason = reason; notes = trimmed body.notes })
    else none

-- `validateRequestParams` and `validateRequestBody`
abbrev pub validated : {A : Type 0} → String → String → ℕ → Option A → Next A
validated code message status none = stops (send_error_response code (some message) status)
validated code message status (some a) = goes a

abbrev pub validate_request_params : {A : Type 0} → Option A → Next A
validate_request_params = validated "INVALID_PARAMETERS" "Invalid request parameters" 400

abbrev pub validate_request_body : {A : Type 0} → Option A → Next A
validate_request_body = validated "VALIDATION_ERROR" "Validation failed" 422

-- The schemas of the parameters of a route: an entry's id, and with it a restaurant's.
unfoldable pub entry_params : (String → Bool) → Option String → Option String
entry_params is_uuid none = none
entry_params is_uuid (some id) = if is_uuid id then some id else none

abbrev pub pair : Option String → Option String → Option (String × String)
pair (some a) (some b) = some (a, b)
pair _ _ = none

unfoldable pub both_params :
    (String → Bool) → Option String → Option String → Option (String × String)
unfolding entry_params
both_params is_uuid restaurant_id queue_entry_id =
    pair (entry_params is_uuid restaurant_id) (entry_params is_uuid queue_entry_id)
