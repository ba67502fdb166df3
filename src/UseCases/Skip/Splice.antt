-- ===== src/UseCases/Skip/Splice.antt =====
-- The list work of src/application/use-cases/queue/skip-party.use-case.ts: `findIndex`, the two calls
-- of `splice`, and the new positions.
pub mod Order
use spotq_queue_service.Base.{
  ℕ, zero, suc, ◌+◌, ◌-◌, min, String, Option, none, some, List, [], ◌∷◌, str_eq, if◌then◌else◌,
}
use spotq_queue_service.Entity.{QueueEntry}
use spotq_queue_service.Repository.Writes.{PositionUpdate}

abbrev next_index : Option ℕ → Option ℕ
next_index none = none
next_index (some i) = some (i + 1)

-- `activeEntries.findIndex((e) => e.id === queueEntryId)`; -1 is `none`.
unfoldable pub find_index : String → List QueueEntry → Option ℕ
find_index id [] = none
find_index id (e ∷ es) = if str_eq e.id id then some 0 else next_index (find_index id es)

-- `Math.min(currentIndex + skipPositions, activeEntries.length - 1)`
unfoldable pub target_index : ℕ → ℕ → ℕ → ℕ
target_index current n count = min (current + n) (count - 1)

module _ {ℓ} {A : Type ℓ} where
  -- `splice(i, 1)`: what is left, and what is taken out.
  unfoldable pub remove_at : ℕ → List A → List A
  remove_at i [] = []
  remove_at zero (x ∷ xs) = xs
  remove_at (suc i) (x ∷ xs) = x ∷ remove_at i xs

  unfoldable pub element_at : ℕ → List A → Option A
  element_at i [] = none
  element_at zero (x ∷ xs) = some x
  element_at (suc i) (x ∷ xs) = element_at i xs

  -- `splice(i, 0, a)`: past the end the element goes to the end.
  unfoldable pub insert_at : ℕ → A → List A → List A
  insert_at zero a xs = a ∷ xs
  insert_at (suc i) a [] = a ∷ []
  insert_at (suc i) a (x ∷ xs) = x ∷ insert_at i a xs

  abbrev reinserted : ℕ → Option A → List A → List A
  reinserted target none xs = xs
  reinserted target (some a) xs = insert_at target a xs

  unfoldable pub shifted : ℕ → ℕ → List A → List A
  unfolding remove_at element_at insert_at
  shifted current target xs = reinserted target (element_at current xs) (remove_at current xs)

-- `activeEntries.map((entry, idx) => ({ id: entry.id, position: idx + 1 }))`
unfoldable pub renumber : ℕ → List QueueEntry → List PositionUpdate
renumber i [] = []
renumber i (e ∷ es) =
    record { id = e.id; position = some (i + 1); estimated_wait_minutes = none }
    ∷ renumber (i + 1) es
