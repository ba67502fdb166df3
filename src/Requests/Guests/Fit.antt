-- ===== src/Requests/Guests/Fit.antt =====
-- What the requests of src/presentation/http/controllers that register a guest let into the table.
use mathlib.Core.Path.{subst}
use spotq_queue_service.Base.{
  ℕ, String, ◌≡◌, sym, inl, inr, Bool, true, not, ◌&&◌, Option, none, some, [], ◌∷◌, All,
  All-append, is_some, is_empty, arith, Bool-cases,
}
use spotq_queue_service.Errors.{unauthorized}
use spotq_queue_service.Entity.{QueueEntry, is_walk_in, create}
use spotq_queue_service.World.{World, Tables, Env, Client}
use spotq_queue_service.Exec.{throw}
use spotq_queue_service.Exec.Rules.{Post-same, Post-weaken}
use spotq_queue_service.Repository.Laws.{Lawful}
use spotq_queue_service.Repository.Creation.{created_tables}
use spotq_queue_service.UseCases.Register
use spotq_queue_service.UseCases.Register.{Input, props_of, resolved_type}
use spotq_queue_service.UseCases.Register.Atomic.{IsRegistration, register_exact}
use spotq_queue_service.Requests.{Reply}
use spotq_queue_service.Requests.Gate.{
  Request, RequestUser, staff_auth_middleware, customer_auth_middleware,
}
use spotq_queue_service.Requests.Bodies.{
  validate_request_params, validate_request_body, entry_params,
}
use spotq_queue_service.Requests.Staff.{Setting, path_param, through}
use spotq_queue_service.Requests.Staff.Owned.{
  through-tables, validated-goes, guard-tables, respond-world,
}
use spotq_queue_service.Requests.Guests.{
  GuestBody, is_party_size, is_guest, join_queue_body, register_walk_in_body, join_queue_controller,
  register_walk_in_controller, handle_join, handle_walk_in,
}

-- A party of the size allowed, which has a user only if it registered online.
abbrev pub is_fit : QueueEntry → Bool
is_fit r = is_party_size r.party_size && not (is_walk_in r.registration_type && is_some r.user_id)

abbrev pub AreFit : Tables → Type 0
AreFit t = All (λ r. is_fit r ≡ true) t.entries

-- A request of which the same is true.
abbrev is_fit_input : Input → Bool
is_fit_input input =
    is_party_size input.party_size
    && not (is_walk_in (resolved_type input) && is_some input.user_id)

registration-AreFit :
    (env : Env) (client : Client) (input : Input) (s t : Tables)
    → is_fit_input input ≡ true
    → AreFit s
    → IsRegistration env client input s t
    → AreFit t
unfolding created_tables create props_of resolved_type
registration-AreFit env client input s t f h r = subst AreFit (sym r.tables) (
    All-append (λ x. is_fit x ≡ true) s.entries
      (create r.uuid r.now (props_of input r.metrics r.eta) ∷ []) h (f, tt))

module _ (env : Env) (client : Client) (lawful : Lawful client) where
  register-AreFit :
      (input : Input) (w : World)
      → is_fit_input input ≡ true
      → AreFit w.tables
      → AreFit (Register.execute env client input w).1.tables
  register-AreFit input w f h = Post-same AreFit (Register.execute env client input w) (
      Post-weaken (λ o t q. registration-AreFit env client input w.tables t f h q.0)
        (λ t p. subst AreFit (sym p) h) (Register.execute env client input w)
        (register_exact env lawful input w))

guest-size :
    (text_length : String → ℕ) (is_phone : String → Bool) (body : GuestBody)
    → is_guest text_length is_phone body ≡ true
    → is_party_size body.party_size ≡ true
guest-size text_length is_phone body h = ground (arith, h)

join_body-size :
    (text_length : String → ℕ) (is_phone : String → Bool) (o : Option GuestBody) (body : GuestBody)
    → join_queue_body text_length is_phone o ≡ some body
    → is_party_size body.party_size ≡ true
unfolding join_queue_body
join_body-size text_length is_phone none body h = ground (arith, h)
join_body-size text_length is_phone (some b) body h =
    elim (Bool-cases (is_guest text_length is_phone b)) [
      | inl good ↦ ground (arith, h, good, guest-size text_length is_phone b)
      | inr bad ↦ absurd (ground (arith, h, bad))
    ]

walk_in_body-size :
    (text_length : String → ℕ) (is_phone : String → Bool) (o : Option GuestBody) (body : GuestBody)
    → register_walk_in_body text_length is_phone o ≡ some body
    → is_party_size body.party_size ≡ true
unfolding register_walk_in_body
walk_in_body-size text_length is_phone none body h = ground (arith, h)
walk_in_body-size text_length is_phone (some b) body h =
    elim (Bool-cases (is_guest text_length is_phone b)) [
      | inl good ↦ ground (arith, h, good, guest-size text_length is_phone b)
      | inr bad ↦ absurd (ground (arith, h, bad))
    ]

module _ (env : Env) (client : Client) (lawful : Lawful client) (c : Setting)
    (is_phone : String → Bool) (user : RequestUser) (rid : String) (body : GuestBody)
    (size : is_party_size body.party_size ≡ true) (w : World) (fit : AreFit w.tables) where
  join-AreFit : AreFit (join_queue_controller env client c is_phone user rid body w).1.tables
  unfolding join_queue_controller resolved_type
  join-AreFit =
      subst (λ v. AreFit v.tables) (sym (respond-world 201 c.is_production _))
        (register-AreFit env client lawful _ w (ground (arith, size)) fit)

  walk_in-AreFit :
      AreFit (register_walk_in_controller env client c is_phone user rid body w).1.tables
  unfolding register_walk_in_controller resolved_type
  walk_in-AreFit =
      guard-tables AreFit 201 c.is_production (is_empty user.user_id) (throw unauthorized) _ w fit
        (register-AreFit env client lawful _ w (ground (arith, size)) fit)

module _ (env : Env) (client : Client) (lawful : Lawful client) (c : Setting)
    (is_phone : String → Bool) (r : Request) (body : Option GuestBody) (w : World)
    (fit : AreFit w.tables) where
  -- After the authentication: the path, the body, and the controller.
  route-AreFit :
      (parsed : Option GuestBody) (k : String → GuestBody → World → Reply × World)
      → ((b : GuestBody) → parsed ≡ some b → is_party_size b.party_size ≡ true)
      → ((rid : String) (b : GuestBody)
          → is_party_size b.party_size ≡ true
          → AreFit (k rid b w).1.tables)
      → AreFit
          (through
            (validate_request_params (entry_params c.is_uuid (path_param r.restaurant_id)))
            (λ rid. through (validate_request_body parsed) (k rid))
            w).1.tables
  route-AreFit parsed k sized h =
      through-tables AreFit
        (validate_request_params (entry_params c.is_uuid (path_param r.restaurant_id)))
        (λ rid. through (validate_request_body parsed) (k rid)) w fit
        λ rid p. through-tables AreFit (validate_request_body parsed) (k rid) w fit λ b q.
          h rid b (sized b (validated-goes "VALIDATION_ERROR" "Validation failed" 422 parsed b q))

  handle_join-AreFit : AreFit (handle_join env client c is_phone r body w).1.tables
  unfolding handle_join
  handle_join-AreFit = through-tables AreFit (customer_auth_middleware env r) _ w fit λ user p.
      route-AreFit (join_queue_body c.text_length is_phone body)
        (join_queue_controller env client c is_phone user)
        (join_body-size c.text_length is_phone body)
        (λ rid b size. join-AreFit env client lawful c is_phone user rid b size w fit)

  handle_walk_in-AreFit : AreFit (handle_walk_in env client c is_phone r body w).1.tables
  unfolding handle_walk_in
  handle_walk_in-AreFit = through-tables AreFit (staff_auth_middleware env r) _ w fit λ user p.
      route-AreFit (register_walk_in_body c.text_length is_phone body)
        (register_walk_in_controller env client c is_phone user)
        (walk_in_body-size c.text_length is_phone body)
        (λ rid b size. walk_in-AreFit env client lawful c is_phone user rid b size w fit)

-- If every party in the table is of one to twenty people and has a user only if it registered online,
-- the same holds after a request to register, of a customer or for a walk-in, whatever it brings and
-- however it is answered.
pub requests-AreFit :
    (env : Env) (client : Client)
    → Lawful client
    → (c : Setting) (is_phone : String → Bool) (r : Request) (body : Option GuestBody) (w : World)
    → AreFit w.tables
    → AreFit (handle_join env client c is_phone r body w).1.tables
      × AreFit (handle_walk_in env client c is_phone r body w).1.tables
requests-AreFit env client lawful c is_phone r body w fit = (
  handle_join-AreFit env client lawful c is_phone r body w fit,
  handle_walk_in-AreFit env client lawful c is_phone r body w fit,
)
