-- ===== src/Repository/View.antt =====
-- The tables without what a recalculation writes: the positions, the expected waits and the dates of
-- the last update in the rows of the entries.
use mathlib.Core.Path.{ap}
use spotq_queue_service.Base.{
  ℕ, Bool, true, false, str_eq, if◌then◌else◌, ◌++◌, ◌≡◌, refl, ◌∙◌, none, List, [], ◌∷◌, map,
  arith,
}
use spotq_queue_service.Entity.{QueueEntry}
use spotq_queue_service.World.{Tables, Env, Client}
use spotq_queue_service.Exec.{Exec, ◌>>=◌}
use spotq_queue_service.Repository.Calls.{update_row}
use spotq_queue_service.Exec.Rules.{
  Ensures, Ensures-pre, Ensures-bind, Ensures-exact, Ensures-post, Ensures-quiet, Ensures-return,
  Ensures-new_date, Quiet,
}
use spotq_queue_service.Repository.Writes.{
  StatusChange, changed_record, PositionUpdate, moved, move_rows, batch_update_positions,
}
use spotq_queue_service.Repository.Laws.{Lawful, replace}
use spotq_queue_service.Repository.Rules.{Ensures-run, Ensures-transaction}
use spotq_queue_service.Repository.Atomic.{update_row-Ensures, changed_tables}

abbrev pub placeless : QueueEntry → QueueEntry
placeless r = record r { position = none; estimated_wait_minutes = none; updated_at = 0 }

unfoldable pub view : Tables → Tables
view t = record t { entries = map placeless t.entries }

-- The action changes at most the positions, whether it returns or throws.
abbrev pub Keeps {ℓ} : {A : Type ℓ} → Tables → Exec A → Type ℓ
Keeps v m = Ensures (λ t. view t ≡ v) m (λ _ t. view t ≡ v) (λ t. view t ≡ v)

pub Keeps-Quiet {ℓ} : {A : Type ℓ} {m : Exec A} (v : Tables) → Quiet m → Keeps v m
Keeps-Quiet v q = Ensures-quiet (λ t. view t ≡ v) (λ t p. p) q

pub Keeps-bind {ℓ κ} :
    {A : Type ℓ} {B : Type κ} {m : Exec A} {f : A → Exec B} {v : Tables}
    → Keeps v m
    → ((a : A) → Keeps v (f a))
    → Keeps v (m >>= f)
Keeps-bind h k = Ensures-bind h k

placeless-replace :
    (now : ℕ) (u : PositionUpdate) (rows : List QueueEntry)
    → map placeless (replace u.id (moved now u) rows) ≡ map placeless rows
placeless-replace now u [] = refl
placeless-replace now u (r ∷ rs) = ground (arith, placeless-replace now u rs)

view-replace :
    (now : ℕ) (u : PositionUpdate) (s : Tables)
    → view (record s { entries = replace u.id (moved now u) s.entries }) ≡ view s
unfolding view
view-replace now u s = ap (λ rows. record s { entries = rows }) (placeless-replace now u s.entries)

module _ (env : Env) {client : Client} (lawful : Lawful client) (v : Tables) where
  move-Keeps :
      (now : ℕ) (u : PositionUpdate)
      → Ensures
          (λ t. view t ≡ v)
          (update_row env client u.id (moved now u))
          (λ _ t. view t ≡ v)
          (λ _. Unit)
  move-Keeps now u = Ensures-exact λ s p.
      Ensures-post (λ a t q. ap view q ∙ view-replace now u s ∙ p) (λ t e. tt)
        (update_row-Ensures env lawful (λ k x e. tt) u.id (moved now u) s (λ e. tt))

  move_rows-Keeps :
      (now : ℕ) (us : List PositionUpdate)
      → Ensures (λ t. view t ≡ v) (move_rows env client now us) (λ _ t. view t ≡ v) (λ _. Unit)
  unfolding move_rows
  move_rows-Keeps now [] = Ensures-return tt (λ t p. p)
  move_rows-Keeps now (u ∷ us) = Ensures-bind (move-Keeps now u) λ _. move_rows-Keeps now us

  pub batch_update_positions-Keeps :
      (us : List PositionUpdate) → Keeps v (batch_update_positions env client us)
  unfolding batch_update_positions
  batch_update_positions-Keeps [] = Ensures-return tt (λ t p. p)
  batch_update_positions-Keeps (u ∷ us) = Ensures-exact λ s p. Ensures-run (
      Ensures-transaction env lawful s (
        Ensures-post (λ a t q. q) (λ t e. p)
          (Ensures-bind (Ensures-new_date env)
            λ now. Ensures-pre (λ t q. rw q p) (move_rows-Keeps now (u ∷ us)))))

placeless-replace_by :
    (e : QueueEntry) (rows : List QueueEntry)
    → map placeless (replace e.id (λ _. e) rows)
      ≡ replace e.id (λ _. placeless e) (map placeless rows)
placeless-replace_by e [] = refl
placeless-replace_by e (r ∷ rs) = rw (placeless-replace_by e rs) (chosen (str_eq r.id e.id))
  where
    chosen :
        (b : Bool)
        → ((placeless (if b then e else r)) ∷ replace e.id (λ _. placeless e) (map placeless rs))
          ≡ (if b then placeless e else placeless r)
            ∷ replace e.id (λ _. placeless e) (map placeless rs)
    chosen true = refl
    chosen false = refl

abbrev shown_change : Env → Client → StatusChange → Tables → Tables
shown_change env client p v = record v {
  entries = replace p.entry.id (λ _. placeless p.entry) v.entries;
  history = v.history ++ changed_record env client p ∷ [];
}

-- A change of status is the same change on what a recalculation leaves alone.
pub view-changed :
    (env : Env) (client : Client) (p : StatusChange) (s t : Tables)
    → view s ≡ view t
    → view (changed_tables env client p s) ≡ view (changed_tables env client p t)
unfolding view changed_tables
view-changed env client p s t h =
    rw (placeless-replace_by p.entry s.entries, placeless-replace_by p.entry t.entries)
      (ap (shown_change env client p) h)
