-- ===== src/Recalculator/Settled.antt =====
-- What the batch update of src/infrastructure/services/queue-position-recalculator.service.ts leaves
-- in the rows of the queue.
pub mod Whole
use spotq_queue_service.Base.{
  ℕ, ◌+◌, String, true, false, ◌≡◌, refl, ◌∙◌, inl, inr, some, List, [], ◌∷◌, map, All, str_eq,
  eq_iff, arith, Bool-cases,
}
use spotq_queue_service.Entity.{QueueEntry}
use spotq_queue_service.World.{World, Tables, Env, Client}
use spotq_queue_service.Exec.Rules.{
  Ensures, Ensures-bind, Ensures-post, Ensures-return, Ensures-new_date, Post, Post-weaken,
}
use spotq_queue_service.Repository.Laws.{Lawful, has_id, row_with, replace}
use spotq_queue_service.Repository.Rows.{
  row_with-replace, row_with-replace_other, has_id-row_with, has_id-replace,
}
use spotq_queue_service.Repository.Rules.{Fails, Ensures-run, Ensures-transaction}
use spotq_queue_service.Repository.Writes.{PositionUpdate, moved, move_rows, batch_update_positions}
use spotq_queue_service.Repository.Atomic.{update_row-Ensures}
use spotq_queue_service.Recalculator.{entry_inputs, deltas, has_changed, update_of}

-- The rows after the updates of a batch.
abbrev pub applied : ℕ → List PositionUpdate → List QueueEntry → List QueueEntry
applied now [] rows = rows
applied now (u ∷ us) rows = applied now us (replace u.id (moved now u) rows)

abbrev pub ArePresent : List PositionUpdate → List QueueEntry → Type 0
ArePresent us rows = All (λ u. has_id u.id rows ≡ true) us

present-replace :
    (i : String) (now : ℕ) (u : PositionUpdate) (us : List PositionUpdate) (rows : List QueueEntry)
    → ArePresent us rows
    → ArePresent us (replace i (moved now u) rows)
present-replace i now u [] rows h = tt
present-replace i now u (v ∷ us) rows (h, hs) =
    (has_id-replace i (moved now u) (λ r. refl) v.id rows ∙ h, present-replace i now u us rows hs)

module _ (env : Env) {client : Client} (lawful : Lawful client) where
  move_rows-Ensures :
      (now : ℕ) (us : List PositionUpdate) (s : Tables)
      → ArePresent us s.entries
      → Ensures
          (λ t. t ≡ s)
          (move_rows env client now us)
          (λ _ t. t ≡ record s { entries = applied now us s.entries })
          (λ _. Fails env)
  unfolding move_rows
  move_rows-Ensures now [] s h = Ensures-return tt (λ t p. p)
  move_rows-Ensures now (u ∷ us) s (h, hs) =
      Ensures-bind
        (update_row-Ensures env lawful (λ k x e. (k, x, e)) u.id (moved now u) s
          (λ e. elim (absurd e) [ ]))
        λ _.
          move_rows-Ensures now us (record s { entries = replace u.id (moved now u) s.entries })
            (present-replace u.id now u us s.entries hs)
    where
      absurd : has_id u.id s.entries ≡ false → ⊥
      absurd e = ground (arith, e, h)

  pub batch-Ensures :
      (us : List PositionUpdate) (s : Tables)
      → ArePresent us s.entries
      → Ensures
          (λ t. t ≡ s)
          (batch_update_positions env client us)
          (λ _ t. (now : ℕ) × (t ≡ record s { entries = applied now us s.entries }))
          (λ t. (t ≡ s) × Fails env)
  unfolding batch_update_positions
  batch-Ensures [] s h = Ensures-return tt (λ t p. (0, p))
  batch-Ensures (u ∷ us) s h = Ensures-run (
      Ensures-transaction env lawful s (
        Ensures-bind (Ensures-new_date env) λ now.
          Ensures-post (λ a t p. (now, p)) (λ t e. (refl, e)) (move_rows-Ensures now (u ∷ us) s h)))

-- The updates that a recalculation writes.
abbrev pub updates : ℕ → ℕ → List QueueEntry → List ℕ → List PositionUpdate
updates i running es etas = map update_of (deltas (entry_inputs i running es) etas)

-- The entries have different ids, and their rows are in the table.
abbrev pub AreStored : List QueueEntry → List QueueEntry → Type 0
AreStored rows [] = Unit
AreStored rows (e ∷ es) =
    (row_with e.id rows ≡ some e) × All (λ x. str_eq x.id e.id ≡ false) es × AreStored rows es

-- The row of each entry that has a prediction has its place as its position, counted from one, and
-- the prediction as its wait.
abbrev pub IsSettled : ℕ → List QueueEntry → List ℕ → List QueueEntry → Type 0
IsSettled i [] etas rows = Unit
IsSettled i (e ∷ es) [] rows = Unit
IsSettled i (e ∷ es) (eta ∷ etas) rows =
    ((r : QueueEntry) × (row_with e.id rows ≡ some r)
      × (r.position ≡ some (i + 1))
      × (r.estimated_wait_minutes ≡ some eta))
    × IsSettled (i + 1) es etas rows

sym_apart : (a b : String) → str_eq a b ≡ false → str_eq b a ≡ false
sym_apart a b h = ground (arith, h, eq_iff a b, eq_iff b a)

AreStored-replace :
    (i : String) (now : ℕ) (u : PositionUpdate) (rows es : List QueueEntry)
    → All (λ x. str_eq x.id i ≡ false) es
    → AreStored rows es
    → AreStored (replace i (moved now u) rows) es
AreStored-replace i now u rows [] a h = tt
AreStored-replace i now u rows (e ∷ es) (a, as') (found, apart, h) = (
  row_with-replace_other i (moved now u) (λ r. refl) e.id rows (sym_apart e.id i a) ∙ found,
  apart,
  AreStored-replace i now u rows es as' h,
)

-- The update of an entry to a place and a wait.
abbrev placement : String → ℕ → ℕ → PositionUpdate
placement id position eta = record {
  id = id;
  position = some position;
  estimated_wait_minutes = some (some eta);
}

-- The updates of a queue do not bear on the rows of others.
applied-other :
    (i running : ℕ) (es : List QueueEntry) (etas : List ℕ) (now : ℕ) (j : String)
    (rows : List QueueEntry)
    → All (λ x. str_eq x.id j ≡ false) es
    → row_with j (applied now (updates i running es etas) rows) ≡ row_with j rows
unfolding deltas entry_inputs
applied-other i running [] etas now j rows h = refl
applied-other i running (e ∷ es) [] now j rows h = refl
applied-other i running (e ∷ es) (eta ∷ etas) now j rows (h, hs) =
    elim (Bool-cases
      (has_changed (record { entry = e; new_position = i + 1; people_ahead = running }) eta)) [
        | inl b ↦ rw b (
            applied-other (i + 1) (running + e.party_size) es etas now j _ hs
            ∙ row_with-replace_other e.id (moved now (placement e.id (i + 1) eta)) (λ r. refl) j
                rows h)
        | inr b ↦ rw b (applied-other (i + 1) (running + e.party_size) es etas now j rows hs)
      ]

unchanged :
    (e : QueueEntry) (p running eta : ℕ)
    → has_changed (record { entry = e; new_position = p; people_ahead = running }) eta ≡ false
    → (e.position ≡ some p) × (e.estimated_wait_minutes ≡ some eta)
unchanged e p running eta h = ground (arith, h)

pub applied-IsSettled :
    (i running : ℕ) (es : List QueueEntry) (etas : List ℕ) (now : ℕ) (rows : List QueueEntry)
    → AreStored rows es
    → IsSettled i es etas (applied now (updates i running es etas) rows)
unfolding deltas entry_inputs
applied-IsSettled i running [] etas now rows h = tt
applied-IsSettled i running (e ∷ es) [] now rows h = tt
applied-IsSettled i running (e ∷ es) (eta ∷ etas) now rows (found, apart, h) =
    elim (Bool-cases
      (has_changed (record { entry = e; new_position = i + 1; people_ahead = running }) eta)) [
        | inl b ↦
            let u = placement e.id (i + 1) eta in
            rw b (
              (
                moved now u e,
                applied-other (i + 1) (running + e.party_size) es etas now e.id _ apart
                    ∙ row_with-replace e.id (moved now u) (λ r. refl) e rows found,
                refl,
                refl,
              ),
              applied-IsSettled (i + 1) (running + e.party_size) es etas now _
                  (AreStored-replace e.id now u rows es apart h),
            )
        | inr b ↦ rw b (
          (
            e,
            applied-other (i + 1) (running + e.party_size) es etas now e.id rows apart ∙ found,
            (unchanged e (i + 1) running eta b).0,
            (unchanged e (i + 1) running eta b).1,
          ),
          applied-IsSettled (i + 1) (running + e.party_size) es etas now rows h,
        )
      ]

pub updates-ArePresent :
    (i running : ℕ) (es : List QueueEntry) (etas : List ℕ) (rows : List QueueEntry)
    → AreStored rows es
    → ArePresent (updates i running es etas) rows
unfolding deltas entry_inputs
updates-ArePresent i running [] etas rows h = tt
updates-ArePresent i running (e ∷ es) [] rows h = tt
updates-ArePresent i running (e ∷ es) (eta ∷ etas) rows (found, apart, h) =
    elim (Bool-cases
      (has_changed (record { entry = e; new_position = i + 1; people_ahead = running }) eta)) [
        | inl b ↦ rw b (
          has_id-row_with e.id rows e found,
          updates-ArePresent (i + 1) (running + e.party_size) es etas rows h,
        )
        | inr b ↦ rw b (updates-ArePresent (i + 1) (running + e.party_size) es etas rows h)
      ]
