-- ===== src/UseCases/Machine/Final.antt =====
-- What the steps of the queue of UseCases/Machine keep.
use mathlib.Core.Path.{ap, sym}
use spotq_queue_service.Base.{
  String, Bool, true, false, ◌≡◌, refl, ◌∙◌, inl, inr, none, some, List, [], ◌∷◌, ◌++◌, str_eq,
  arith, eq_iff, Bool-cases,
}
use spotq_queue_service.Errors.{QueueStatus, waiting}
use spotq_queue_service.Entity.{is_waiting}
use spotq_queue_service.World.{World, Env, Client}
use spotq_queue_service.Repository.Laws.{Lawful}
use spotq_queue_service.UseCases.Machine.{
  Board, status_of, set_status, Move, joins, turns, Changes, Step, Steps, board, Command, log,
  perform_all,
}
use spotq_queue_service.UseCases.Machine.Refined.{perform_all-Steps}

status_of-append :
    (id i : String) (st s : QueueStatus) (b : Board)
    → status_of id b ≡ some st
    → status_of id (b ++ (i, s) ∷ []) ≡ some st
status_of-append id i st s [] h = ground arith
status_of-append id i st s ((j, old) ∷ b) h = ground (arith, h, status_of-append id i st s b)

-- A ticket that waits is another one than a ticket that does not.
status_of-set_status :
    (id i : String) (st s : QueueStatus) (b : Board)
    → str_eq id i ≡ false
    → status_of id b ≡ some st
    → status_of id (set_status i s b) ≡ some st
status_of-set_status id i st s [] e h = ground arith
status_of-set_status id i st s ((j, old) ∷ b) e h =
    ground (arith, e, h, status_of-set_status id i st s b e, eq_iff id i, eq_iff j i, eq_iff j id)

two_tickets :
    (id i : String) (st : QueueStatus) (b : Board)
    → is_waiting st ≡ false
    → status_of id b ≡ some st
    → status_of i b ≡ some waiting
    → str_eq id i ≡ false
two_tickets id i st b gone h k = elim (Bool-cases (str_eq id i)) [
  | inl same ↦ ground (arith, gone, sym h ∙ ap (λ x. status_of x b) ((eq_iff id i).0 same) ∙ k)
  | inr apart ↦ apart
]

Changes-final :
    (m : Move) (b b' : Board) (id : String) (st : QueueStatus)
    → is_waiting st ≡ false
    → status_of id b ≡ some st
    → Changes m b b'
    → status_of id b' ≡ some st
Changes-final joins b b' id st gone h (i, free, e) = rw e (status_of-append id i st waiting b h)
Changes-final (turns i sts) b b' id st gone h (waits, (s, m, e)) =
    rw e (status_of-set_status id i st s b (two_tickets id i st b gone h waits) h)

Step-final :
    (x : Bool × Move) (b b' : Board) (id : String) (st : QueueStatus)
    → is_waiting st ≡ false
    → status_of id b ≡ some st
    → Step x b b'
    → status_of id b' ≡ some st
Step-final (true, m) b b' id st gone h c = Changes-final m b b' id st gone h c
Step-final (false, m) b b' id st gone h (inl e) = rw e h
Step-final (false, m) b b' id st gone h (inr c) = Changes-final m b b' id st gone h c

Steps-final :
    (xs : List (Bool × Move)) (b b' : Board) (id : String) (st : QueueStatus)
    → is_waiting st ≡ false
    → status_of id b ≡ some st
    → Steps xs b b'
    → status_of id b' ≡ some st
Steps-final [] b b' id st gone h e = rw e h
Steps-final (x ∷ xs) b b'' id st gone h (b', one, rest) =
    Steps-final xs b' b'' id st gone (Step-final x b b' id st gone h one) rest

-- No two tickets have the same id.
abbrev pub AreDistinct : Board → Type 0
AreDistinct [] = Unit
AreDistinct ((i, st) ∷ b) = (status_of i b ≡ none) × AreDistinct b

absent-set_status :
    (id i : String) (s : QueueStatus) (b : Board)
    → status_of id b ≡ none
    → status_of id (set_status i s b) ≡ none
absent-set_status id i s [] h = refl
absent-set_status id i s ((j, old) ∷ b) h = ground (arith, h, absent-set_status id i s b)

absent-append :
    (id i : String) (s : QueueStatus) (b : Board)
    → status_of id b ≡ none
    → str_eq i id ≡ false
    → status_of id (b ++ (i, s) ∷ []) ≡ none
absent-append id i s [] h k = ground (arith, k)
absent-append id i s ((j, old) ∷ b) h k = ground (arith, h, k, absent-append id i s b)

AreDistinct-set_status :
    (i : String) (s : QueueStatus) (b : Board) → AreDistinct b → AreDistinct (set_status i s b)
AreDistinct-set_status i s [] d = tt
AreDistinct-set_status i s ((j, old) ∷ b) (fresh, d) =
    (absent-set_status j i s b fresh, AreDistinct-set_status i s b d)

absent-head :
    (i j : String) (old : QueueStatus) (b : Board)
    → status_of i ((j, old) ∷ b) ≡ none
    → (str_eq i j ≡ false) × (status_of i b ≡ none)
absent-head i j old b h = (ground (arith, h, eq_iff i j, eq_iff j i), ground (arith, h))

AreDistinct-append :
    (i : String) (s : QueueStatus) (b : Board)
    → status_of i b ≡ none
    → AreDistinct b
    → AreDistinct (b ++ (i, s) ∷ [])
AreDistinct-append i s [] h d = (refl, tt)
AreDistinct-append i s ((j, old) ∷ b) h (fresh, d) =
    let (apart, free) = absent-head i j old b h in
    (absent-append j i s b fresh apart, AreDistinct-append i s b free d)

Changes-AreDistinct : (m : Move) (b b' : Board) → AreDistinct b → Changes m b b' → AreDistinct b'
Changes-AreDistinct joins b b' d (i, free, e) = rw e (AreDistinct-append i waiting b free d)
Changes-AreDistinct (turns i sts) b b' d (waits, (s, m, e)) = rw e (AreDistinct-set_status i s b d)

pub Step-AreDistinct :
    (x : Bool × Move) (b b' : Board) → AreDistinct b → Step x b b' → AreDistinct b'
Step-AreDistinct (true, m) b b' d c = Changes-AreDistinct m b b' d c
Step-AreDistinct (false, m) b b' d (inl e) = rw e d
Step-AreDistinct (false, m) b b' d (inr c) = Changes-AreDistinct m b b' d c

-- A ticket that no longer waits has the same status for good, whatever requests to register, seat,
-- assign tables, cancel, skip and ring come in, for it or for others, and whatever fails.
pub perform_all-final :
    (env : Env) {client : Client}
    → Lawful client
    → (cs : List Command) (w : World) (id : String) (st : QueueStatus) → is_waiting st ≡ false
    → status_of id (board w.tables) ≡ some st
    → status_of id (board (perform_all env client cs w).tables) ≡ some st
perform_all-final env {client} lawful cs w id st gone h =
    Steps-final (log env client cs w) (board w.tables) (board (perform_all env client cs w).tables)
      id st gone h (perform_all-Steps env lawful cs w)
