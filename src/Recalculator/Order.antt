-- ===== src/Recalculator/Order.antt =====
-- The positions and the people ahead that
-- src/infrastructure/services/queue-position-recalculator.service.ts computes.
use spotq_queue_service.Base.{ℕ, ◌≡◌, refl, ◌+◌, List, [], ◌∷◌, ◌++◌, length, sum_by, arith}
use spotq_queue_service.Entity.{QueueEntry}
use spotq_queue_service.Recalculator.{entry_inputs}

inputs-append :
    (i running p q : ℕ) (es : List QueueEntry) (e : QueueEntry) (fs : List QueueEntry)
    → p ≡ i + length es
    → q ≡ running + sum_by (λ x. x.party_size) es
    → entry_inputs i running (es ++ e ∷ fs)
      ≡ entry_inputs i running es
        ++ record { entry = e; new_position = p + 1; people_ahead = q }
          ∷ entry_inputs (p + 1) (q + e.party_size) fs
unfolding entry_inputs
inputs-append i running p q [] e fs hp hq = ground arith
inputs-append i running p q (x ∷ es) e fs hp hq =
    rw (inputs-append (i + 1) (running + x.party_size) p q es e fs (ground arith) (ground arith))
      refl

-- Wherever an entry stands in the queue, its new position is one more than the number of entries
-- before it, and the people ahead of it are all the people of those parties.
pub entry_inputs-append :
    (es : List QueueEntry) (e : QueueEntry) (fs : List QueueEntry)
    → entry_inputs 0 0 (es ++ e ∷ fs)
      ≡ entry_inputs 0 0 es
        ++ record {
          entry = e;
          new_position = length es + 1;
          people_ahead = sum_by (λ x. x.party_size) es;
        }
          ∷ entry_inputs (length es + 1) (sum_by (λ x. x.party_size) es + e.party_size) fs
entry_inputs-append es e fs =
    inputs-append 0 0 (length es) (sum_by (λ x. x.party_size) es) es e fs (omega arith)
      (omega arith)
