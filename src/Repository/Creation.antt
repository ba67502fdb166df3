-- ===== src/Repository/Creation.antt =====
-- `createWithHistory` of src/infrastructure/database/repositories/prisma-queue.repository.ts on the
-- tables: the checks against a second waiting entry stand in the transaction of the writes.
use spotq_queue_service.Base.{
  ◌≡◌, refl, String, Bool, true, false, Option, none, some, List, [], ◌∷◌, ◌++◌, All, is_truthy,
  if◌then◌else◌,
}
use spotq_queue_service.Errors.{Failure, known_request}
use spotq_queue_service.Entity.{QueueEntry}
use spotq_queue_service.World.{Tables, Env, Client}
use spotq_queue_service.Exec.Rules.{
  Ensures, Ensures-bind, Ensures-given, Ensures-return, Ensures-refuse, Ensures-if,
}
use spotq_queue_service.Repository.Calls.{create_row, written}
use spotq_queue_service.Repository.Queries.{waits_with_phone, waits_as_user}
use spotq_queue_service.Repository.Writes.{
  check_user, check_phone, reject_user, reject_phone, same_any, created_record, create_with_history,
}
use spotq_queue_service.Repository.Laws.{Lawful, Found, has_id}
use spotq_queue_service.Repository.Rules.{
  Answer, Ensures-run, Ensures-call_db, Ensures-query, Ensures-transaction,
}
use spotq_queue_service.Repository.Atomic.{with_history, add_history-Ensures}

-- No entry of the table waits with the user, if there is one.
abbrev pub UserIsFree : Option String → List QueueEntry → Type 0
UserIsFree none rows = Unit
UserIsFree (some id) rows =
    if is_truthy (some id) then All (λ r. waits_as_user id r ≡ false) rows else Unit

-- The new entry can stand beside the rows: its id is new, and neither its phone number at the
-- restaurant nor its user is that of a waiting entry.
pub record IsAdmissible (e : QueueEntry) (rows : List QueueEntry) : Type 0 where
  pub fresh : has_id e.id rows ≡ false
  pub phone_free : All (λ r. waits_with_phone e.restaurant_id e.phone r ≡ false) rows
  pub user_free : UserIsFree e.user_id rows

unfoldable pub created_tables : Env → Client → QueueEntry → Option String → Tables → Tables
unfolding created_record
created_tables env client e changed_by t =
    with_history (created_record env client e changed_by)
      (record t { entries = t.entries ++ e ∷ [] })

module _ (env : Env) {client : Client} (lawful : Lawful client) {Err : Type 0} (err : Err)
    (s : Tables) where
  reject_phone-Ensures :
      (rid phone : String) (found : Option QueueEntry)
      → Found (waits_with_phone rid phone) s.entries found
      → Ensures
          (λ t. t ≡ s)
          (reject_phone env client phone found)
          (λ _ t. (t ≡ s) × All (λ r. waits_with_phone rid phone r ≡ false) s.entries)
          (λ _. Err)
  reject_phone-Ensures rid phone none h = Ensures-return tt (λ t p. (p, h))
  reject_phone-Ensures rid phone (some e) h = Ensures-refuse _ (λ t p. err)

  check_phone-Ensures :
      (rid phone : String)
      → Ensures
          (λ t. t ≡ s)
          (check_phone env client rid phone)
          (λ _ t. (t ≡ s) × All (λ r. waits_with_phone rid phone r ≡ false) s.entries)
          (λ _. Err)
  unfolding check_phone
  check_phone-Ensures rid phone =
      Ensures-bind
        (Ensures-query {Q = λ o t. (t ≡ s) × Found (waits_with_phone rid phone) s.entries o} env
          client _ s (λ k x e. err)
          (refl, lawful.find_first (waits_with_phone rid phone) (same_any env client) s.entries))
        λ o. Ensures-given (reject_phone-Ensures rid phone o)

  reject_user-Ensures :
      (id : String) (found : Option QueueEntry)
      → Found (waits_as_user id) s.entries found
      → Ensures
          (λ t. t ≡ s)
          (reject_user env client found)
          (λ _ t. (t ≡ s) × All (λ r. waits_as_user id r ≡ false) s.entries)
          (λ _. Err)
  reject_user-Ensures id none h = Ensures-return tt (λ t p. (p, h))
  reject_user-Ensures id (some e) h = Ensures-refuse _ (λ t p. err)

  check_user-Ensures :
      (id : Option String)
      → Ensures
          (λ t. t ≡ s)
          (check_user env client id)
          (λ _ t. (t ≡ s) × UserIsFree id s.entries)
          (λ _. Err)
  unfolding check_user
  check_user-Ensures none = Ensures-return tt (λ t p. (p, tt))
  check_user-Ensures (some id) =
      Ensures-if (is_truthy (some id))
        (λ b. rw b (
          Ensures-bind
            (Ensures-query {Q = λ o t. (t ≡ s) × Found (waits_as_user id) s.entries o} env client _
              s (λ k x e. err)
              (refl, lawful.find_first (waits_as_user id) (same_any env client) s.entries))
            λ o. Ensures-given (reject_user-Ensures id o)))
        (λ b. rw b (Ensures-return tt (λ t p. (p, tt))))

  written-Answer :
      (x : Failure) (e : QueueEntry) (b : Bool)
      → has_id e.id s.entries ≡ b
      → Answer
          (λ _ t.
            (t ≡ record s { entries = s.entries ++ e ∷ [] }) × (has_id e.id s.entries ≡ false))
          (λ _. Err)
          (written env client s (if b then none else some (s.entries ++ e ∷ [])) x)
  written-Answer x e true h = err
  written-Answer x e false h = (refl, h)

  create_row-Ensures :
      (e : QueueEntry)
      → Ensures
          (λ t. t ≡ s)
          (create_row env client e)
          (λ _ t.
            (t ≡ record s { entries = s.entries ++ e ∷ [] }) × (has_id e.id s.entries ≡ false))
          (λ _. Err)
  unfolding create_row
  create_row-Ensures e =
      Ensures-call_db env client _ (λ k x t e p. err)
        (λ t p.
          rw (p, lawful.create e s.entries)
            (written-Answer (known_request "P2002") e (has_id e.id s.entries) refl))

-- What `createWithHistory` comes to.
pub create_with_history-Ensures :
    (env : Env) {client : Client} (lawful : Lawful client) (s : Tables) {E : Tables → Type 0}
    → E s
    → (e : QueueEntry) (changed_by : Option String)
    → Ensures
        (λ t. t ≡ s)
        (create_with_history env client e changed_by)
        (λ a t. (a ≡ e) × (t ≡ created_tables env client e changed_by s) × IsAdmissible e s.entries)
        E
unfolding create_with_history created_tables
create_with_history-Ensures env lawful s kept e changed_by = Ensures-run (
    Ensures-transaction env lawful s (
      Ensures-bind (check_user-Ensures env lawful kept s e.user_id) λ _. Ensures-given λ user.
        Ensures-bind (check_phone-Ensures env lawful kept s e.restaurant_id e.phone) λ _.
          Ensures-given λ phone. Ensures-bind (create_row-Ensures env lawful kept s e) λ _.
            Ensures-given λ fresh.
              Ensures-bind (add_history-Ensures env lawful (λ k x e. kept) _ _) λ _.
                Ensures-return e (λ t p.
                  (refl, p, record { fresh = fresh; phone_free = phone; user_free = user }))))
