-- ===== src/UseCases/Skip/Change.antt =====
-- The place that a party is moved to in src/application/use-cases/queue/skip-party.use-case.ts.
use spotq_queue_service.Base.{
  ℕ, zero, suc, ◌+◌, ◌≡◌, refl, ◌∙◌, ap, ◌⊎◌, inl, inr, String, Option, none, some, List, length,
  true, ◌≤◌, ◌-◌, min, or_else, sym, arith,
}
use spotq_queue_service.Errors.{ok}
use spotq_queue_service.Entity.{QueueEntry, is_waiting, skip, update_position}
use spotq_queue_service.World.{Tables, Client}
use spotq_queue_service.Repository.Queries.{waits_at, by_position}
use spotq_queue_service.UseCases.Skip.Splice.{find_index, target_index}
use spotq_queue_service.UseCases.Skip.{Input, shift_reason}

-- The queue that the handler reads.
abbrev pub queue_of : Client → Input → Tables → List QueueEntry
queue_of client input s = client.find_many (waits_at input.restaurant_id) by_position s.entries

-- The new position of the party that is at a place in a queue of so many, if it is moved by so many
-- places, at most to the end.
abbrev pub new_position : ℕ → Option ℕ → ℕ → Option ℕ
new_position zero place count = none
new_position (suc n) none count = none
new_position (suc n) (some i) count = some (min (i + suc n) (count - 1) + 1)

abbrev pub destination : Client → Input → Tables → Option ℕ
destination client input s =
    new_position (or_else input.skip_positions 0)
      (find_index input.queue_entry_id (queue_of client input s)) (length (queue_of client input s))

-- The change that the handler writes: the party leaves the queue as skipped if no places are asked
-- for or it is not in the queue, and else stays at the position so many places further down, with the
-- number of places in the reason.
abbrev pub IsChange : Client → Input → Tables → QueueEntry → QueueEntry → String → Type 0
IsChange client input s before after reason =
    ((now : ℕ) × (destination client input s ≡ none)
      × (skip now before ≡ ok after)
      × (reason ≡ input.reason))
    ⊎ ((now : ℕ) × (n : ℕ) × (p : ℕ) × (destination client input s ≡ some p)
        × (input.skip_positions ≡ some n)
        × (1 ≤ n)
        × (after ≡ update_position now p none before)
        × (reason ≡ shift_reason input.reason n))

skip-position : (now : ℕ) (e e' : QueueEntry) → skip now e ≡ ok e' → e'.position ≡ none
unfolding skip
skip-position now e e' h = ground arith

update_position-position :
    (now p : ℕ) (e : QueueEntry)
    → is_waiting e.status ≡ true
    → (update_position now p none e).position ≡ some p
unfolding update_position
update_position-position now p e h = ground (arith, h)

-- The position of the entry that is written.
pub change-position :
    (client : Client) (input : Input) (s : Tables) (before after : QueueEntry) (reason : String)
    → is_waiting before.status ≡ true
    → IsChange client input s before after reason
    → after.position ≡ destination client input s
change-position client input s before after reason waits (inl (now, d, skips, why)) =
    skip-position now before after skips ∙ sym d
change-position client input s before after reason waits
      (inr (now, n, p, d, places, many, moved, why)) =
    ap (λ e. e.position) moved ∙ update_position-position now p before waits ∙ sym d

pub new_position-some :
    (o : Option ℕ) (n : ℕ) (place : Option ℕ) (i count : ℕ)
    → o ≡ some n
    → 1 ≤ n
    → place ≡ some i
    → new_position (or_else o 0) place count ≡ some (target_index i n count + 1)
unfolding target_index
new_position-some o zero place i count h many k = ground (arith, many)
new_position-some o (suc n) place i count h many k = rw (h, k) refl

pub new_position-none :
    (n : ℕ) (place : Option ℕ) (count : ℕ) → place ≡ none → new_position n place count ≡ none
new_position-none zero place count h = refl
new_position-none (suc n) place count h = rw h refl
