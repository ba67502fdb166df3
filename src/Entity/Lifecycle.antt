-- ===== src/Entity/Lifecycle.antt =====
-- The life of one `QueueEntry` of src/domain/entities/queue-entry.entity.ts under its mutating
-- methods.
use spotq_queue_service.Base.{
  ℕ, ◌≤◌, String, Bool, true, false, Option, List, [], ◌∷◌, ◌++◌, ◌≡◌, refl, arith, ltb, is_some,
  All,
}
use spotq_queue_service.Errors.{
  QueueStatus, seated, cancelled, no_show, walk_in, queue_entry_not_waiting, domain, Result, ok,
  err,
}
use spotq_queue_service.Entity.{
  QueueEntry, CreateProps, is_waiting, create, seat, skip, CancelTarget, cancel, update_position,
  ring, calculate_wait_duration_minutes,
}

-- A call of one of the five mutating methods, with the dates it reads.
pub data Call : Type 0 where
  seats : ℕ → ℕ → Call
  skips : ℕ → Call
  cancels : ℕ → ℕ → CancelTarget → Call
  repositions : ℕ → ℕ → Option (Option ℕ) → Call
  rings : ℕ → ℕ → Call

abbrev pub outcome : Call → QueueEntry → Result QueueEntry
outcome (seats a b) e = seat a b e
outcome (skips a) e = skip a e
outcome (cancels a b t) e = cancel a b t e
outcome (repositions a p w) e = ok (update_position a p w e)
outcome (rings a b) e = ring a b e

-- A call that throws leaves the entry as it was.
abbrev pub after : QueueEntry → Result QueueEntry → QueueEntry
after e (ok e') = e'
after e (err x) = e

abbrev pub step : QueueEntry → Call → QueueEntry
step e c = after e (outcome c e)

unfoldable pub run : QueueEntry → List Call → QueueEntry
run e [] = e
run e (c ∷ cs) = run (step e c) cs

abbrev pub is_seated : QueueStatus → Bool
is_seated seated = true
is_seated _ = false

abbrev pub is_cancelled : QueueStatus → Bool
is_cancelled cancelled = true
is_cancelled no_show = true
is_cancelled _ = false

pub record IsConsistent (e : QueueEntry) : Type 0 where
  pub positioned : is_some e.position ≡ is_waiting e.status
  pub seat_dated : is_some e.seated_at ≡ is_seated e.status
  pub cancel_dated : is_some e.cancelled_at ≡ is_cancelled e.status
  pub ring_dated : is_some e.last_ringed_at ≡ ltb 0 e.ring_count
  pub walk_in_silent : e.registration_type ≡ walk_in → e.ring_count ≡ 0

create-IsConsistent : (uuid : String) (now : ℕ) (p : CreateProps) → IsConsistent (create uuid now p)
unfolding create
create-IsConsistent uuid now p = ground arith

step-IsConsistent : (c : Call) (e : QueueEntry) → IsConsistent e → IsConsistent (step e c)
unfolding seat skip cancel update_position ring
step-IsConsistent (seats a b) e h = ground arith
step-IsConsistent (skips a) e h = ground arith
step-IsConsistent (cancels a b t) e h = ground arith
step-IsConsistent (repositions a p w) e h = ground arith
step-IsConsistent (rings a b) e h = ground arith

run-IsConsistent : (e : QueueEntry) (cs : List Call) → IsConsistent e → IsConsistent (run e cs)
unfolding run
run-IsConsistent e [] h = h
run-IsConsistent e (c ∷ cs) h = run-IsConsistent (step e c) cs (step-IsConsistent c e h)

-- Whatever calls follow its creation, whether they throw or not, an entry has a position exactly
-- while it waits, a seating date exactly if it is seated, a cancellation date exactly if it is
-- cancelled or a no-show, a ringing date exactly if it was rung, and no rings if it is a walk-in.
pub run-create-IsConsistent :
    (uuid : String) (now : ℕ) (p : CreateProps) (cs : List Call)
    → IsConsistent (run (create uuid now p) cs)
run-create-IsConsistent uuid now p cs = run-IsConsistent _ cs (create-IsConsistent uuid now p)

step_terminal : (c : Call) (e : QueueEntry) → is_waiting e.status ≡ false → step e c ≡ e
unfolding seat skip cancel update_position ring
step_terminal (seats a b) e h = ground arith
step_terminal (skips a) e h = ground arith
step_terminal (cancels a b t) e h = ground arith
step_terminal (repositions a p w) e h = ground arith
step_terminal (rings a b) e h = ground arith

-- What a call on an entry that no longer waits comes to: `updatePosition` returns, the rest throw.
abbrev pub refusal : Call → QueueEntry → Result QueueEntry
refusal (repositions a p w) e = ok e
refusal _ e = err (domain (queue_entry_not_waiting e.id e.status))

outcome_terminal :
    (c : Call) (e : QueueEntry) → is_waiting e.status ≡ false → outcome c e ≡ refusal c e
unfolding seat skip cancel update_position ring
outcome_terminal (seats a b) e h = ground arith
outcome_terminal (skips a) e h = ground arith
outcome_terminal (cancels a b t) e h = ground arith
outcome_terminal (repositions a p w) e h = ground arith
outcome_terminal (rings a b) e h = ground arith

-- Once an entry no longer waits, no calls change it, and each of them but `updatePosition`, which
-- returns, throws the error that names the entry and its status.
pub run_terminal :
    (e : QueueEntry) (cs : List Call)
    → is_waiting e.status ≡ false
    → (run e cs ≡ e) × All (λ c. outcome c e ≡ refusal c e) cs
unfolding run
run_terminal e [] h = (refl, tt)
run_terminal e (c ∷ cs) h =
    let (same, refused) = run_terminal e cs h in
    (rw (step_terminal c e h) same, (outcome_terminal c e h, refused))

run-append : (e : QueueEntry) (cs ds : List Call) → run e (cs ++ ds) ≡ run (run e cs) ds
unfolding run
run-append e [] ds = refl
run-append e (c ∷ cs) ds = run-append (step e c) cs ds

duration_terminal :
    (r r' : ℕ) (e : QueueEntry)
    → is_waiting e.status ≡ false
    → calculate_wait_duration_minutes r e ≡ calculate_wait_duration_minutes r' e
unfolding calculate_wait_duration_minutes
duration_terminal r r' e h = ground arith

-- The wait of an entry that no longer waits is fixed: neither later calls nor the time at which it
-- is asked for change it.
pub duration_frozen :
    (e : QueueEntry) (cs ds : List Call) (r r' : ℕ)
    → is_waiting (run e cs).status ≡ false
    → calculate_wait_duration_minutes r (run e (cs ++ ds))
      ≡ calculate_wait_duration_minutes r' (run e cs)
duration_frozen e cs ds r r' h =
    rw (run-append e cs ds, (run_terminal (run e cs) ds h).0) (duration_terminal r r' (run e cs) h)

-- What no call writes, and that rings only add up.
pub record SameParty (e e' : QueueEntry) : Type 0 where
  pub id : e'.id ≡ e.id
  pub restaurant_id : e'.restaurant_id ≡ e.restaurant_id
  pub user_id : e'.user_id ≡ e.user_id
  pub phone : e'.phone ≡ e.phone
  pub queue_number : e'.queue_number ≡ e.queue_number
  pub party_size : e'.party_size ≡ e.party_size
  pub registration_type : e'.registration_type ≡ e.registration_type
  pub wait_at_join : e'.estimated_wait_minutes_at_join ≡ e.estimated_wait_minutes_at_join
  pub joined_at : e'.joined_at ≡ e.joined_at
  pub created_at : e'.created_at ≡ e.created_at
  pub rings : e.ring_count ≤ e'.ring_count

pub outcome-SameParty : (c : Call) (e e' : QueueEntry) → outcome c e ≡ ok e' → SameParty e e'
unfolding seat skip cancel update_position ring
outcome-SameParty (seats a b) e e' h = ground arith
outcome-SameParty (skips a) e e' h = ground arith
outcome-SameParty (cancels a b t) e e' h = ground arith
outcome-SameParty (repositions a p w) e e' h = ground arith
outcome-SameParty (rings a b) e e' h = ground arith
