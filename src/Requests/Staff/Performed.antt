-- ===== src/Requests/Staff/Performed.antt =====
-- The requests of the staff, as the routes of src/presentation/http/routes/staff-queue.routes.ts pass
-- them on, against the queue of UseCases/Machine.
use mathlib.Core.Path.{sym, subst}
use spotq_queue_service.Base.{
  ℕ, String, Bool, true, false, ◌≡◌, refl, ◌⊎◌, inl, inr, Option, some, none, List, is_empty,
  if◌then◌else◌,
}
use spotq_queue_service.Errors.{Result, unauthorized}
use spotq_queue_service.World.{World, Env, Client}
use spotq_queue_service.Exec.{Exec, throw}
use spotq_queue_service.UseCases.Machine.{
  Command, registers, seats, assigns, cancels, skips, rings, perform,
}
use spotq_queue_service.UseCases.Machine.Refined.{outcome_of-world}
use spotq_queue_service.Requests.{Reply, Next, stops, goes}
use spotq_queue_service.Requests.Gate.{Request, RequestUser, staff_auth_middleware}
use spotq_queue_service.Requests.Bodies.{
  SkipBody, CancelBody, validate_request_params, validate_request_body, entry_params, both_params,
  seat_party_body, skip_party_body, cancel_queue_entry_body, assign_tables_body,
}
use spotq_queue_service.Requests.Staff.{
  Setting, StaffCall, seat_party, skip_party, cancel_queue_entry, assign_tables, ring_customer,
  path_param, through, as_staff, as_member, respond, handle_call, handle_staff_request,
  seat_party_controller, skip_party_controller, cancel_controller, assign_tables_controller,
  ring_customer_controller,
}
use spotq_queue_service.Requests.Staff.Owned.{
  respond-world, validated-goes, entry_params-some, pair-some,
}
use spotq_queue_service.Requests.Staff.Owned.Routes.{id_of}

-- The ticket that a request to a handler names.
abbrev pub ticket_of : Command → Option String
ticket_of (registers input) = none
ticket_of (seats input) = some input.queue_entry_id
ticket_of (assigns input) = some input.queue_entry_id
ticket_of (cancels input) = some input.queue_entry_id
ticket_of (skips input) = some input.queue_entry_id
ticket_of (rings input) = some input.queue_entry_id

module _ (env : Env) (client : Client) where
  -- The world is as before, or as one of the handlers left it, called for a ticket.
  abbrev pub IsPerformed : Option String → World → World → Type 0
  IsPerformed id w w' =
      (w' ≡ w) ⊎ ((c : Command) × (ticket_of c ≡ id) × (w' ≡ (perform env client c w).1))

  staffed :
      {A : Type 0} (id : Option String) (b : Bool) (m : Exec A) (w : World) (c : Command)
      → ticket_of c ≡ id
      → (m w).1 ≡ (perform env client c w).1
      → IsPerformed id w ((if b then throw unauthorized else m) w).1
  staffed id true m w c h e = inl refl
  staffed id false m w c h e = inr (c, h, e)

  responded :
      {A : Type 0} (id : Option String) (status : ℕ) (production : Bool) (r : Result A × World)
      (w : World)
      → IsPerformed id w r.1
      → IsPerformed id w (respond status production r).1
  responded id status production r w h =
      subst (IsPerformed id w) (sym (respond-world status production r)) h

  passed :
      {A : Type 0} (id : Option String) (n : Next A) (next : A → World → Reply × World) (w : World)
      → ((a : A) → n ≡ goes a → IsPerformed id w (next a w).1)
      → IsPerformed id w (through n next w).1
  passed id (stops e) next w h = inl refl
  passed id (goes a) next w h = h a refl

  module _ (c : Setting) (r : Request) (user : RequestUser) where
    -- A route with the restaurant in its path, and one without.
    both-IsPerformed :
        {A : Type 0} (id : Option String) (body : Next A)
        (k : String × String → A → World → Reply × World) (w : World)
        → ((ids : String × String) (a : A) → IsPerformed (some ids.1) w (k ids a w).1)
        → IsPerformed id w
            (through
              (validate_request_params (both_params c.is_uuid (path_param r.restaurant_id) id))
              (λ ids. through body (k ids))
              w).1
    unfolding both_params
    both-IsPerformed id body k w h =
        passed id (validate_request_params (both_params c.is_uuid (path_param r.restaurant_id) id))
          (λ ids. through body (k ids)) w
          λ ids p.
            passed id body (k ids) w
              λ a q. subst (λ o. IsPerformed o w (k ids a w).1) (sym (known ids p)) (h ids a)
      where
        known :
            (ids : String × String)
            → validate_request_params (both_params c.is_uuid (path_param r.restaurant_id) id)
              ≡ goes ids
            → id ≡ some ids.1
        known ids p =
            (entry_params-some c.is_uuid id ids.1
              (pair-some _ _ ids.0 ids.1 (
                validated-goes "INVALID_PARAMETERS" "Invalid request parameters" 400
                  (both_params c.is_uuid (path_param r.restaurant_id) id) ids p)).1).0

    own-IsPerformed :
        (id : Option String) (k : String → World → Reply × World) (w : World)
        → ((i : String) → IsPerformed (some i) w (k i w).1)
        → IsPerformed id w (through (validate_request_params (entry_params c.is_uuid id)) k w).1
    own-IsPerformed id k w h =
        passed id (validate_request_params (entry_params c.is_uuid id)) k w λ i p.
          subst (λ o. IsPerformed o w (k i w).1)
            (sym
              (entry_params-some c.is_uuid id i (
                validated-goes "INVALID_PARAMETERS" "Invalid request parameters" 400
                  (entry_params c.is_uuid id) i p)).0)
            (h i)

    seat-IsPerformed :
        (ids : String × String) (tables : List String) (w : World)
        → IsPerformed (some ids.1) w (seat_party_controller env client c user ids tables w).1
    unfolding seat_party_controller
    seat-IsPerformed (rid, id) tables w = responded (some id) 200 c.is_production _ w (
        staffed (some id) (is_empty user.user_id) _ w
          (seats (record {
            restaurant_id = rid;
            queue_entry_id = id;
            staff_user_id = user.user_id;
            table_ids = tables;
          }))
          refl (sym (outcome_of-world _)))

    skip-IsPerformed :
        (ids : String × String) (body : SkipBody) (w : World)
        → IsPerformed (some ids.1) w (skip_party_controller env client c user ids body w).1
    unfolding skip_party_controller
    skip-IsPerformed (rid, id) body w = responded (some id) 200 c.is_production _ w (
        staffed (some id) (is_empty user.user_id) _ w
          (skips (record {
            restaurant_id = rid;
            queue_entry_id = id;
            staff_user_id = user.user_id;
            reason = body.reason;
            skip_positions = body.skip_positions;
          }))
          refl (sym (outcome_of-world _)))

    cancel-IsPerformed :
        (ids : String × String) (body : CancelBody) (w : World)
        → IsPerformed (some ids.1) w (cancel_controller env client c user ids body w).1
    unfolding cancel_controller
    cancel-IsPerformed (rid, id) body w = responded (some id) 200 c.is_production _ w (
        staffed (some id) (is_empty user.user_id) _ w
          (cancels (record {
            restaurant_id = rid;
            queue_entry_id = id;
            staff_user_id = user.user_id;
            reason = body.reason;
            notes = body.notes;
          }))
          refl (sym (outcome_of-world _)))

    -- Both the restaurant and the user are asked for.
    membered :
        {A : Type 0} (id : String) (m : Exec A) (w : World) (d : Command)
        → ticket_of d ≡ some id
        → (m w).1 ≡ (perform env client d w).1
        → IsPerformed (some id) w (as_member env client c user m w).1
    membered id m w d h e = asked (is_empty user.restaurant_id)
      where
        asked :
            (b : Bool)
            → IsPerformed
                (some id)
                w
                ((if b then throw unauthorized else as_staff env client c user.user_id m) w).1
        asked true = inl refl
        asked false = staffed (some id) (is_empty user.user_id) m w d h e

    assign-IsPerformed :
        (id : String) (tables : List (String × ℕ)) (w : World)
        → IsPerformed (some id) w (assign_tables_controller env client c user id tables w).1
    unfolding assign_tables_controller
    assign-IsPerformed id tables w = responded (some id) 200 c.is_production _ w (
        membered id _ w
          (assigns (record {
            restaurant_id = user.restaurant_id;
            queue_entry_id = id;
            staff_user_id = user.user_id;
            tables = tables;
          }))
          refl (sym (outcome_of-world _)))

    ring-IsPerformed :
        (id : String) (w : World)
        → IsPerformed (some id) w (ring_customer_controller env client c user id w).1
    unfolding ring_customer_controller
    ring-IsPerformed id w = responded (some id) 200 c.is_production _ w (
        membered id _ w (rings (record { restaurant_id = user.restaurant_id; queue_entry_id = id }))
          refl (sym (outcome_of-world _)))

    handle_call-IsPerformed :
        (call : StaffCall) (w : World)
        → IsPerformed (id_of call) w (handle_call env client c r call user w).1
    unfolding handle_call
    handle_call-IsPerformed (seat_party id body) w =
        both-IsPerformed id (validate_request_body (seat_party_body c.is_uuid body))
          (seat_party_controller env client c user) w (λ ids a. seat-IsPerformed ids a w)
    handle_call-IsPerformed (skip_party id body) w =
        both-IsPerformed id (validate_request_body (skip_party_body c.text_length body))
          (skip_party_controller env client c user) w (λ ids a. skip-IsPerformed ids a w)
    handle_call-IsPerformed (cancel_queue_entry id body) w =
        both-IsPerformed id (validate_request_body (cancel_queue_entry_body env c.text_length body))
          (cancel_controller env client c user) w (λ ids a. cancel-IsPerformed ids a w)
    handle_call-IsPerformed (assign_tables id body) w =
        own-IsPerformed id
          (λ i.
            through (validate_request_body (assign_tables_body c.is_uuid body))
              (assign_tables_controller env client c user i))
          w
          λ i.
            passed (some i) (validate_request_body (assign_tables_body c.is_uuid body))
              (assign_tables_controller env client c user i) w
              (λ tables q. assign-IsPerformed i tables w)
    handle_call-IsPerformed (ring_customer id) w =
        own-IsPerformed id (ring_customer_controller env client c user) w
          (λ i. ring-IsPerformed i w)

  pub handle_staff_request-IsPerformed :
      (c : Setting) (r : Request) (call : StaffCall) (w : World)
      → IsPerformed (id_of call) w (handle_staff_request env client c r call w).1
  unfolding handle_staff_request
  handle_staff_request-IsPerformed c r call w =
      passed (id_of call) (staff_auth_middleware env r) (handle_call env client c r call) w
        (λ user p. handle_call-IsPerformed c r user call w)
