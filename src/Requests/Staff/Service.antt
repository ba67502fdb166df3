-- ===== src/Requests/Staff/Service.antt =====
-- Any requests of the staff, through src/presentation/http/routes/staff-queue.routes.ts, against the
-- queue of UseCases/Machine.
use mathlib.Core.Path.{ap, sym}
use spotq_queue_service.Base.{◌≡◌, refl, ◌∙◌, ◌⊎◌, inl, inr, List, [], ◌∷◌}
use spotq_queue_service.World.{World, Env, Client}
use spotq_queue_service.Repository.Laws.{Lawful}
use spotq_queue_service.UseCases.Machine.{Command, perform_all, log, Steps, board}
use spotq_queue_service.UseCases.Machine.Refined.{perform_all-Steps}
use spotq_queue_service.Requests.Gate.{Request}
use spotq_queue_service.Requests.Staff.{Setting, StaffCall, handle_staff_request}
use spotq_queue_service.Requests.Staff.Owned.Routes.{id_of}
use spotq_queue_service.Requests.Staff.Performed.{
  ticket_of, IsPerformed, handle_staff_request-IsPerformed,
}

unfoldable pub handle_all : Env → Client → Setting → List (Request × StaffCall) → World → World
handle_all env client c [] w = w
handle_all env client c ((r, call) ∷ xs) w =
    handle_all env client c xs (handle_staff_request env client c r call w).1

-- In their order, each request comes to no call of a handler, or to one for its ticket.
abbrev pub Serves : List (Request × StaffCall) → List Command → Type 0
Serves [] cs = cs ≡ []
Serves ((r, call) ∷ xs) cs =
    Serves xs cs
    ⊎ ((d : Command) × (ds : List Command) × (cs ≡ d ∷ ds)
        × (ticket_of d ≡ id_of call)
        × Serves xs ds)

abbrev IsServed : Env → Client → Setting → List (Request × StaffCall) → World → Type 0
IsServed env client c xs w =
    (cs : List Command) × Serves xs cs
    × (handle_all env client c xs w ≡ perform_all env client cs w)

module _ (env : Env) (client : Client) (c : Setting) where
  served :
      (r : Request) (call : StaffCall) (xs : List (Request × StaffCall)) (w w' : World)
      → w' ≡ (handle_staff_request env client c r call w).1
      → IsPerformed env client (id_of call) w w'
      → IsServed env client c xs w'
      → IsServed env client c ((r, call) ∷ xs) w
  unfolding handle_all perform_all
  served r call xs w w' e (inl kept) (cs, s, p) =
      (cs, inl s, ap (handle_all env client c xs) (sym e) ∙ p ∙ ap (perform_all env client cs) kept)
  served r call xs w w' e (inr (d, h, done)) (cs, s, p) = (
    d ∷ cs,
    inr (d, cs, refl, h, s),
    ap (handle_all env client c xs) (sym e) ∙ p ∙ ap (perform_all env client cs) done,
  )

  handle_all-IsServed : (xs : List (Request × StaffCall)) (w : World) → IsServed env client c xs w
  unfolding handle_all perform_all
  handle_all-IsServed [] w = ([], refl, refl)
  handle_all-IsServed ((r, call) ∷ xs) w =
      served r call xs w (handle_staff_request env client c r call w).1 refl
        (handle_staff_request-IsPerformed env client c r call w)
        (handle_all-IsServed xs (handle_staff_request env client c r call w).1)

-- Whatever requests of the staff come in, the world is as after calls of the handlers, at most one
-- for each request and for its ticket, in the order of the requests; and the tickets and their
-- statuses go the steps of the abstract queue that these calls ask for.
pub handle_all-Steps :
    (env : Env) {client : Client}
    → Lawful client
    → (c : Setting) (xs : List (Request × StaffCall)) (w : World)
    → (cs : List Command) × Serves xs cs
      × (handle_all env client c xs w ≡ perform_all env client cs w)
      × Steps (log env client cs w) (board w.tables) (board (handle_all env client c xs w).tables)
handle_all-Steps env {client} lawful c xs w =
    let (cs, s, p) = handle_all-IsServed env client c xs w in
    (cs, s, p, rw p (perform_all-Steps env lawful cs w))
