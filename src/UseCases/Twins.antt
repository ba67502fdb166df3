-- ===== src/UseCases/Twins.antt =====
-- Twins, in the sense of Repository/Twins, under the handlers of src/application/use-cases that take
-- a party out of the queue.
use spotq_queue_service.Base.{
  ◌≡◌, refl, ap, ◌∙◌, Bool, true, false, List, [], ◌∷◌, map, All, str_eq, if◌then◌else◌, arith, inl,
  inr, String,
}
use spotq_queue_service.Entity.{
  QueueEntry, is_waiting, CancelTarget, as_cancelled, as_no_show, target_status,
}
use spotq_queue_service.Entity.Outcomes.{seat-ok, cancel-ok}
use spotq_queue_service.World.{World, Tables, Env, Client}
use spotq_queue_service.Exec.Rules.{Post-weaken, Post-same}
use spotq_queue_service.Repository.Laws.{Lawful, replace}
use spotq_queue_service.Repository.Atomic.{assigned_tables, changed_tables}
use spotq_queue_service.Repository.View.{view, placeless}
use spotq_queue_service.Repository.Twins.{are_twins, NoTwins}
use spotq_queue_service.UseCases.Seat as Seat
use spotq_queue_service.UseCases.Seat.Atomic.{IsSeating, seat_atomic}
use spotq_queue_service.UseCases.Assign as Assign
use spotq_queue_service.UseCases.Assign.Atomic.{IsAssignment, assign_exact}
use spotq_queue_service.UseCases.Cancel as Cancel
use spotq_queue_service.UseCases.Cancel.Release.{MayRelease}
use spotq_queue_service.UseCases.Cancel.Effect.{IsCancelling, cancel_effect}

module _ (e : QueueEntry) (gone : is_waiting e.status ≡ false) where
  after_gone : (r : QueueEntry) → are_twins r e ≡ false
  after_gone r = ground (arith, gone)

  before_gone : (rs : List QueueEntry) → All (λ x. are_twins e x ≡ false) rs
  before_gone [] = tt
  before_gone (r ∷ rs) = (ground (arith, gone), before_gone rs)

  replaced_apart :
      (id : String) (r : QueueEntry) (rs : List QueueEntry)
      → All (λ x. are_twins r x ≡ false) rs
      → All (λ x. are_twins r x ≡ false) (replace id (λ _. e) rs)
  replaced_apart id r [] h = tt
  replaced_apart id r (x ∷ rs) (h, hs) = (either (str_eq x.id id) h, replaced_apart id r rs hs)
    where
      either : (b : Bool) → are_twins r x ≡ false → are_twins r (if b then e else x) ≡ false
      either true h = after_gone r
      either false h = h

  NoTwins-step :
      (b : Bool) (r : QueueEntry) (rs : List QueueEntry)
      → All (λ x. are_twins r x ≡ false) rs
      → All (λ x. are_twins (if b then e else r) x ≡ false) rs
  NoTwins-step true r rs h = before_gone rs
  NoTwins-step false r rs h = h

  -- A row that no longer waits is nobody's twin.
  pub NoTwins-replace :
      (id : String) (rows : List QueueEntry) → NoTwins rows → NoTwins (replace id (λ _. e) rows)
  NoTwins-replace id [] h = tt
  NoTwins-replace id (r ∷ rs) (h, hs) =
      (NoTwins-step (str_eq r.id id) r _ (replaced_apart id r rs h), NoTwins-replace id rs hs)

placeless_apart :
    (r : QueueEntry) (rs : List QueueEntry)
    → All (λ x. are_twins r x ≡ false) rs
    → All (λ x. are_twins (placeless r) x ≡ false) (map placeless rs)
placeless_apart r [] h = tt
placeless_apart r (x ∷ rs) (h, hs) = (h, placeless_apart r rs hs)

NoTwins-placeless : (rows : List QueueEntry) → NoTwins rows → NoTwins (map placeless rows)
NoTwins-placeless [] h = tt
NoTwins-placeless (r ∷ rs) (h, hs) = (placeless_apart r rs h, NoTwins-placeless rs hs)

apart_placeless :
    (r : QueueEntry) (rs : List QueueEntry)
    → All (λ x. are_twins (placeless r) x ≡ false) (map placeless rs)
    → All (λ x. are_twins r x ≡ false) rs
apart_placeless r [] h = tt
apart_placeless r (x ∷ rs) (h, hs) = (h, apart_placeless r rs hs)

placeless-NoTwins : (rows : List QueueEntry) → NoTwins (map placeless rows) → NoTwins rows
placeless-NoTwins [] h = tt
placeless-NoTwins (r ∷ rs) (h, hs) = (apart_placeless r rs h, placeless-NoTwins rs hs)

-- Positions do not matter.
pub view-NoTwins : (s t : Tables) → view t ≡ view s → NoTwins s.entries → NoTwins t.entries
unfolding view
view-NoTwins s t e h =
    placeless-NoTwins t.entries (rw (ap (λ v. v.entries) e) (NoTwins-placeless s.entries h))

not_waiting : (c : CancelTarget) → is_waiting (target_status c) ≡ false
not_waiting as_cancelled = refl
not_waiting as_no_show = refl

pub release-entries : (id : String) (s t : Tables) → MayRelease id s t → t.entries ≡ s.entries
release-entries id s t (inl e) = ap (λ v. v.entries) e
release-entries id s t (inr (n, e)) = ap (λ v. v.entries) e

module _ {env : Env} {client : Client} where
  pub seating-NoTwins :
      {input : Seat.Input} {s t : Tables}
      → NoTwins s.entries
      → IsSeating env client input s t
      → NoTwins t.entries
  unfolding assigned_tables
  seating-NoTwins {s = s} {t = t} h p = view-NoTwins _ t p.tables (
      NoTwins-replace p.after (ap is_waiting (seat-ok p.now p.now' p.before p.after p.seats).1)
        p.after.id s.entries h)

  pub assignment-NoTwins :
      {input : Assign.Input} {s t : Tables}
      → NoTwins s.entries
      → IsAssignment env client input s t
      → NoTwins t.entries
  unfolding assigned_tables
  assignment-NoTwins {s = s} h p = rw p.tables (
      NoTwins-replace p.after (ap is_waiting (seat-ok p.now p.now' p.before p.after p.seats).1)
        p.after.id s.entries h)

  pub cancelling-NoTwins :
      {input : Cancel.Input} {s t : Tables}
      → NoTwins s.entries
      → IsCancelling env client input s t
      → NoTwins t.entries
  unfolding changed_tables
  cancelling-NoTwins {input = input} {s = s} {t = t} h p = view-NoTwins _ t p.tables (
      NoTwins-replace p.after
        (ap is_waiting (cancel-ok p.now p.now' _ p.before p.after p.cancels).1 ∙ not_waiting _)
        p.after.id p.base.entries
        (rw (release-entries input.queue_entry_id s p.base (inr p.release)) h))

-- Assigning tables keeps the queue free of twins, whether the handler answers or throws.
pub assign-NoTwins :
    (env : Env) {client : Client} (lawful : Lawful client) (input : Assign.Input) (w : World)
    → NoTwins w.tables.entries
    → NoTwins (Assign.execute env client input w).1.tables.entries
assign-NoTwins env {client} lawful input w h =
    Post-same (λ t. NoTwins t.entries) (Assign.execute env client input w)
      (Post-weaken (λ o t (i, st, p). assignment-NoTwins h p) (λ t e. rw e h)
        (Assign.execute env client input w) (assign_exact env lawful input w))

-- Seating a party keeps the queue free of twins, whether the handler answers or throws.
pub seat-NoTwins :
    (env : Env) {client : Client} (lawful : Lawful client) (input : Seat.Input) (w : World)
    → NoTwins w.tables.entries
    → NoTwins (Seat.execute env client input w).1.tables.entries
seat-NoTwins env {client} lawful input w h =
    Post-same (λ t. NoTwins t.entries) (Seat.execute env client input w)
      (Post-weaken (λ o t (i, st, p). seating-NoTwins h p)
        (λ t p. elim p [ inl e ↦ rw e h | inr q ↦ seating-NoTwins h q ])
        (Seat.execute env client input w) (seat_atomic env lawful input w))

-- Cancelling an entry keeps the queue free of twins, whether the handler answers or throws.
pub cancel-NoTwins :
    (env : Env) {client : Client} (lawful : Lawful client) (input : Cancel.Input) (w : World)
    → NoTwins w.tables.entries
    → NoTwins (Cancel.execute env client input w).1.tables.entries
cancel-NoTwins env {client} lawful input w h =
    Post-same (λ t. NoTwins t.entries) (Cancel.execute env client input w)
      (Post-weaken (λ o t (i, st, p). cancelling-NoTwins h p)
        (λ t p. elim p [
          | inl r ↦ rw (release-entries input.queue_entry_id w.tables t r) h
          | inr q ↦ cancelling-NoTwins h q
        ])
        (Cancel.execute env client input w) (cancel_effect env lawful input w))
