-- ===== src/Entity/Outcomes.antt =====
-- What the mutating methods of src/domain/entities/queue-entry.entity.ts return when they do.
use spotq_queue_service.Base.{ℕ, ◌≡◌, arith}
use spotq_queue_service.Errors.{seated, skipped, ok}
use spotq_queue_service.Entity.{QueueEntry, seat, skip, CancelTarget, target_status, cancel}

pub seat-ok :
    (now now' : ℕ) (e e' : QueueEntry)
    → seat now now' e ≡ ok e'
    → (e'.id ≡ e.id) × (e'.status ≡ seated)
unfolding seat
seat-ok now now' e e' h = ground arith

pub skip-ok :
    (now : ℕ) (e e' : QueueEntry) → skip now e ≡ ok e' → (e'.id ≡ e.id) × (e'.status ≡ skipped)
unfolding skip
skip-ok now e e' h = ground arith

pub cancel-ok :
    (now now' : ℕ) (target : CancelTarget) (e e' : QueueEntry)
    → cancel now now' target e ≡ ok e'
    → (e'.id ≡ e.id) × (e'.status ≡ target_status target)
unfolding cancel
cancel-ok now now' target e e' h = ground arith
