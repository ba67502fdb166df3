-- ===== src/Repository/Twins.antt =====
-- Twins: two entries that wait with the same phone number at the same restaurant, or the same user,
-- which `createWithHistory` of src/infrastructure/database/repositories/prisma-queue.repository.ts
-- checks for.
use spotq_queue_service.Base.{
  ◌≡◌, All-append, String, Bool, false, ◌&&◌, ◌||◌, Option, none, some, List, [], ◌∷◌, ◌++◌, All,
  is_truthy, str_eq, arith,
}
use spotq_queue_service.Entity.{QueueEntry, is_waiting}
use spotq_queue_service.Repository.Queries.{waits_with_phone, waits_as_user, same_text}
use spotq_queue_service.Repository.Creation.{UserIsFree, IsAdmissible}

abbrev pub same_user : Option String → Option String → Bool
same_user r none = false
same_user r (some id) = is_truthy (some id) && same_text r id

-- Two entries wait, and one should not have been let in.
abbrev pub are_twins : QueueEntry → QueueEntry → Bool
are_twins r e =
    is_waiting r.status
    && is_waiting e.status
    && ((str_eq r.restaurant_id e.restaurant_id && str_eq r.phone e.phone)
        || same_user r.user_id e.user_id)

abbrev pub NoTwins : List QueueEntry → Type 0
NoTwins [] = Unit
NoTwins (r ∷ rs) = All (λ e. are_twins r e ≡ false) rs × NoTwins rs

NoTwins-append :
    (rows : List QueueEntry) (e : QueueEntry)
    → NoTwins rows
    → All (λ r. are_twins r e ≡ false) rows
    → NoTwins (rows ++ e ∷ [])
NoTwins-append [] e h k = (tt, tt)
NoTwins-append (r ∷ rs) e (h, hs) (k, ks) =
    (All-append (λ x. are_twins r x ≡ false) rs (e ∷ []) h (k, tt), NoTwins-append rs e hs ks)

-- Whether the waiting row `r` leaves the user of a new entry free.
user_apart :
    (r : QueueEntry) (rs : List QueueEntry) (u : Option String)
    → UserIsFree u (r ∷ rs)
    → (is_waiting r.status && same_user r.user_id u ≡ false) × UserIsFree u rs
unfolding waits_as_user
user_apart r rs none h = ground arith
user_apart r rs (some String.[]) h = (ground arith, tt)
user_apart r rs (some (String.◌∷◌ c s)) (h, hs) = (ground (arith, h), hs)

apart :
    (r e : QueueEntry)
    → waits_with_phone e.restaurant_id e.phone r ≡ false
    → is_waiting r.status && same_user r.user_id e.user_id ≡ false
    → are_twins r e ≡ false
unfolding waits_with_phone
apart r e h k = ground arith

admissible-apart :
    (rows : List QueueEntry) (e : QueueEntry)
    → All (λ r. waits_with_phone e.restaurant_id e.phone r ≡ false) rows
    → UserIsFree e.user_id rows
    → All (λ r. are_twins r e ≡ false) rows
admissible-apart [] e h k = tt
admissible-apart (r ∷ rs) e (h, hs) k =
    let (free, rest) = user_apart r rs e.user_id k in
    (apart r e h free, admissible-apart rs e hs rest)

pub NoTwins-create :
    (rows : List QueueEntry) (e : QueueEntry)
    → NoTwins rows
    → IsAdmissible e rows
    → NoTwins (rows ++ e ∷ [])
NoTwins-create rows e h a =
    NoTwins-append rows e h (admissible-apart rows e a.phone_free a.user_free)
