-- ===== src/UseCases/Occupancy.antt =====
-- How a party is spread over tables: the `map` with a running remainder of
-- src/application/use-cases/queue/seat-party.use-case.ts and, with the same arithmetic, of
-- src/application/use-cases/queue/cancel-queue-entry.use-case.ts.
pub mod Bounds
use spotq_queue_service.Base.{
  ℕ, ◌+◌, ◌-◌, ◌/◌, ◌%◌, max, String, List, [], ◌∷◌, map, length, ltb, if◌then◌else◌,
}
use spotq_queue_service.World.{TableAssignment}

-- One table after another: `base` seats each, and one more while the remainder lasts, but never none.
unfoldable pub spread : ℕ → ℕ → List String → List (String × ℕ)
spread base remainder [] = []
spread base remainder (t ∷ ts) =
    (t, max 1 (base + (if ltb 0 remainder then 1 else 0)))
    ∷ spread base (if ltb 0 remainder then remainder - 1 else remainder) ts

-- `assignmentPayload`. With no tables nothing is mapped, so the division by 0 has no effect.
unfoldable pub assignment_payload : ℕ → List String → List (String × ℕ)
unfolding spread
assignment_payload party_size table_ids =
    let n = length table_ids in spread (party_size / n) (party_size % n) table_ids

-- `releasePayload`
unfoldable pub release_payload : ℕ → List TableAssignment → List (String × ℕ)
unfolding spread
release_payload party_size active =
    let n = length active in spread (party_size / n) (party_size % n) (map (λ a. a.table_id) active)
