-- ===== src/Requests/Staff/Owned.antt =====
-- Whose entries the requests of src/presentation/http/routes/staff-queue.routes.ts change.
pub mod Routes
use mathlib.Core.Path.{subst}
use spotq_queue_service.Base.{
  ℕ, ℕ, String, ◌≡◌, refl, sym, ap, ◌∙◌, ◌⊎◌, inl, inr, Bool, true, false, not, ◌&&◌, ◌||◌, Option,
  none, some, List, str_eq, eq_iff, is_empty, trim, arith, if◌then◌else◌, Bool-cases, Option-cases,
}
use spotq_queue_service.Errors.{Result, ok, err}
use spotq_queue_service.Entity.{QueueEntry}
use spotq_queue_service.World.{World, Tables, Env, Client}
use spotq_queue_service.Exec.{Exec, ◌>>=◌}
use spotq_queue_service.Exec.Rules.{Post, Ensures, Ensures-bind}
use spotq_queue_service.Repository.Laws.{Lawful, row_with}
use spotq_queue_service.Socket.Auth.{ParamValue, absent, one, many, get_header_value, trimmed}
use spotq_queue_service.UseCases.Lookup.{require_entry}
use spotq_queue_service.UseCases.Lookup.Found.{IsOwned, require_entry-Ensures}
use spotq_queue_service.Requests.{ErrorBody, Reply, Next, stops, goes}
use spotq_queue_service.Requests.Gate.{
  Request, RequestUser, is_staff_role, is_elsewhere, enter_restaurant, enter_staff,
  staff_auth_middleware,
}
use spotq_queue_service.Requests.Bodies.{validated, entry_params, pair}
use spotq_queue_service.Requests.Staff.{
  Setting, StaffCall, seat_party, skip_party, cancel_queue_entry, assign_tables, ring_customer,
  path_param, respond, through, as_staff, as_member, handle_call, handle_staff_request,
}

-- The tables `t` are still `s`, or the entry was there and of the restaurant.
abbrev pub IsKeptOrOwned : String → String → Tables → Tables → Type 0
IsKeptOrOwned rid id s t = (t ≡ s) ⊎ ((e : QueueEntry) × IsOwned rid id s e)

module _ {A : Type 0} where
  any-Post :
      (P : Tables → Type 0) → ((t : Tables) → P t) → (r : Result A × World) → Post (λ _. P) P r
  any-Post P h (ok a, w) = h w.tables
  any-Post P h (err f, w) = h w.tables

  Post-both : (P : Tables → Type 0) (r : Result A × World) → Post (λ _. P) P r → P r.1.tables
  Post-both P (ok a, w) p = p
  Post-both P (err x, w) p = p

module _ (env : Env) (client : Client) (lawful : Lawful client) where
  -- A handler that begins by looking its entry up writes only if that is of the restaurant.
  pub lookup-IsKeptOrOwned :
      {B : Type 0} (rid id : String) (rest : QueueEntry → Exec B) (w : World)
      → IsKeptOrOwned rid id w.tables ((require_entry env client rid id >>= rest) w).1.tables
  lookup-IsKeptOrOwned rid id rest w =
      Post-both (IsKeptOrOwned rid id w.tables) ((require_entry env client rid id >>= rest) w) (
        (Ensures-bind {R = λ b t. IsKeptOrOwned rid id w.tables t}
            (require_entry-Ensures w.tables (inl refl) env lawful rid id)
            (λ e. record { at = λ v p. any-Post _ (λ t. inr (e, p.1)) (rest e v) })).at
          w refl)

module _ {A : Type 0} where
  pub respond-world :
      (status : ℕ) (production : Bool) (r : Result A × World)
      → (respond status production r).1 ≡ r.1
  unfolding respond
  respond-world status production (ok a, w) = refl
  respond-world status production (err x, w) = refl

  pub choice-tables :
      (P : Tables → Type 0) (b : Bool) (m n : Exec A) (w : World)
      → P (m w).1.tables
      → P (n w).1.tables
      → P ((if b then m else n) w).1.tables
  choice-tables P true m n w hm hn = hm
  choice-tables P false m n w hm hn = hn

  -- What an action with these rights keeps, it keeps where the user is asked for first.
  pub guard-tables :
      (P : Tables → Type 0) (status : ℕ) (production b : Bool) (m n : Exec A) (w : World)
      → P (m w).1.tables
      → P (n w).1.tables
      → P (respond status production ((if b then m else n) w)).1.tables
  guard-tables P status production b m n w hm hn =
      subst (λ v. P v.tables) (sym (respond-world status production ((if b then m else n) w)))
        (choice-tables P b m n w hm hn)

-- The user that the gateway names is of the staff, and of the restaurant in the path, if one is.
pub record IsAdmitted (env : Env) (r : Request) (user : RequestUser) : Type 0 where
  pub id : get_header_value r.x_user_id ≡ some user.user_id
  pub role : is_staff_role env (get_header_value r.x_user_role) ≡ true
  pub restaurant : trimmed (get_header_value r.x_restaurant_id) ≡ some user.restaurant_id
  pub here : is_elsewhere (trimmed (get_header_value r.restaurant_id)) user.restaurant_id ≡ false

enter_restaurant-goes :
    (r : Request) (user_id : String) (o : Option String) (user : RequestUser)
    → enter_restaurant r user_id o ≡ goes user
    → (user.user_id ≡ user_id)
      × (o ≡ some user.restaurant_id)
      × (is_elsewhere (trimmed (get_header_value r.restaurant_id)) user.restaurant_id ≡ false)
unfolding enter_restaurant
enter_restaurant-goes r user_id none user h = ground (arith, h)
enter_restaurant-goes r user_id (some rid) user h =
    elim (Bool-cases
      (is_empty rid || is_elsewhere (trimmed (get_header_value r.restaurant_id)) rid)) [
        | inl bad ↦ ground (arith, h, bad)
        | inr good ↦ ground (arith, h, good)
      ]

pub staff_auth-IsAdmitted :
    (env : Env) (r : Request) (o : Option String) (user : RequestUser)
    → get_header_value r.x_user_id ≡ o
    → enter_staff env r o ≡ goes user
    → IsAdmitted env r user
unfolding enter_staff
staff_auth-IsAdmitted env r none user e h = ground (arith, h)
staff_auth-IsAdmitted env r (some id) user e h = elim (Bool-cases (is_empty id)) [
  | inl bad ↦ absurd (ground (arith, h, bad))
  | inr given ↦ elim (Bool-cases (is_staff_role env (get_header_value r.x_user_role))) [
    | inl staff ↦
        let k =
          enter_restaurant-goes r id (trimmed (get_header_value r.x_restaurant_id)) user
            (ground (arith, h, given, staff)) in
        record { id = ground (arith, e, k.0); role = staff; restaurant = k.1; here = k.2 }
    | inr other ↦ absurd (ground (arith, h, given, other))
  ]
]

module _ {A : Type 0} where
  pub through-tables :
      (P : Tables → Type 0) (n : Next A) (next : A → World → Reply × World) (w : World)
      → P w.tables
      → ((a : A) → n ≡ goes a → P (next a w).1.tables)
      → P (through n next w).1.tables
  through-tables P (stops e) next w kept h = kept
  through-tables P (goes a) next w kept h = h a refl

  pub validated-goes :
      (code message : String) (status : ℕ) (o : Option A) (a : A)
      → validated code message status o ≡ goes a
      → o ≡ some a
  validated-goes code message status none a h = ground (arith, h)
  validated-goes code message status (some b) a h = ground (arith, h)

pub entry_params-some :
    (p : String → Bool) (o : Option String) (id : String)
    → entry_params p o ≡ some id
    → (o ≡ some id) × (p id ≡ true)
unfolding entry_params
entry_params-some p none id h = ground (arith, h)
entry_params-some p (some s) id h = elim (Bool-cases (p s)) [
  | inl b ↦ ground (arith, h, b)
  | inr b ↦ ground (arith, h, b)
]

pub pair-some :
    (a b : Option String) (x y : String) → pair a b ≡ some (x, y) → (a ≡ some x) × (b ≡ some y)
pair-some none b x y h = ground (arith, h)
pair-some (some a) none x y h = ground (arith, h)
pair-some (some a) (some b) x y h = ground (arith, h)

-- A UUID is not empty, and there is no white space around it.
abbrev pub IsTight : (String → Bool) → Type 0
IsTight p = (s : String) → p s ≡ true → (trim s ≡ s) × (is_empty s ≡ false)

pub same_restaurant :
    (p : String → Bool)
    → IsTight p
    → (v : ParamValue) (rid here : String) → path_param v ≡ some rid
    → p rid ≡ true
    → is_elsewhere (trimmed (get_header_value v)) here ≡ false
    → rid ≡ here
unfolding get_header_value
same_restaurant p tight absent rid here h u e = ground (arith, h)
same_restaurant p tight (many l) rid here h u e = ground (arith, h)
same_restaurant p tight (one s) rid here h u e =
    let same : s ≡ rid = ground (arith, h) in
    let there : is_elsewhere (some rid) here ≡ false =
      subst (λ x. is_elsewhere (some x) here ≡ false) (ap trim same ∙ (tight rid u).0) e in
    ground (arith, (tight rid u).1, there, eq_iff rid here)
