-- ===== src/Examples/Runs.antt =====
-- Runs of the handlers on a queue in memory, and the theorems on progress at concrete inputs.
use spotq_queue_service.Base.{
  ◌≤◌, ◌*◌, ◌+◌, ◌/◌, max, arith, Option, ℕ, [], ◌∷◌, ◌≡◌, refl, none, some,
}
use spotq_queue_service.World.{World}
use spotq_queue_service.Errors.{ok, QueueStatus, seated, waiting, Result, err}
use spotq_queue_service.Entity.{seat}
use spotq_queue_service.Exec.{◌>>=◌, new_date, tick, recover}
use spotq_queue_service.UseCases.Lookup.{require_entry, owned_by}
use spotq_queue_service.Repository.Calls.{
  find_by_id, query, call_db, transaction, update_row, translate_error,
}
use spotq_queue_service.Repository.Writes.{
  add_history, add_assignments, new_assignment, assigned_record, assign_tables_with_history,
  batch_update_positions, move_rows,
}
use spotq_queue_service.Repository.Queries.{find_active_entries, waits_at, by_position}
use spotq_queue_service.Services.{
  call_upstream, remove_live_entry, emit, predict_eta, save_live_entry, redis_write, get_key,
}
use spotq_queue_service.UseCases.Occupancy.{spread}
use spotq_queue_service.Recalculator.{
  recalculate_entries, predict_all, publish, cache_all, notify_all, entry_inputs, deltas,
  recalculate,
}
use spotq_queue_service.Repository.Calls.{run as run_call}
use spotq_queue_service.UseCases.Occupancy.{assignment_payload}
use spotq_queue_service.UseCases.Seat as Seat
use spotq_queue_service.UseCases.Ring as Ring
use spotq_queue_service.UseCases.Ring.Atomic as Ringing
use spotq_queue_service.EtaClient.{predict_eta_minutes, fell_back, breaker_failed, answered}
use spotq_queue_service.EtaClient.Bounds.{predict_eta_minutes_lem}
use spotq_queue_service.Exec.Rules.{Post}
use spotq_queue_service.Repository.Atomic.{assigned_tables}
use spotq_queue_service.UseCases.Seat.Progress.{Nowhere, commit_succeeds}
use spotq_queue_service.Examples.{anna, memory-Lawful, memory, healthy, evening}
use spotq_queue_service.Examples.Witnesses.{seat_anna}

-- The handlers run on the queue of the example.
abbrev has_status {ℓ} : {A : Type ℓ} → (A → QueueStatus) → Result A × World → Option QueueStatus
has_status f (ok a, w) = some (f a)
has_status f (err x, w) = none

seat_runs : has_status (λ o. o.status) (Seat.execute healthy memory seat_anna evening) ≡ some seated
unfolding Seat.execute Seat.announce Seat.commit ◌>>=◌ require_entry owned_by find_by_id run_call
    query call_db transaction update_row add_history add_assignments new_assignment assigned_record
    assign_tables_with_history new_date tick seat assignment_payload spread call_upstream
    remove_live_entry emit recalculate find_active_entries waits_at recalculate_entries predict_all
    entry_inputs predict_eta deltas publish batch_update_positions move_rows cache_all notify_all
    recover save_live_entry redis_write get_key by_position translate_error
seat_runs = refl

commit_succeeds_example :
    Post
      (λ a t.
        (a ≡ anna)
        × ((n : ℕ) × (t
              ≡ assigned_tables healthy memory anna
                  ("t1" ∷ "t2" ∷ [])
                  "staff"
                  waiting
                  n
                  evening.tables)))
      Nowhere
      (Seat.commit healthy memory seat_anna waiting anna evening)
commit_succeeds_example =
    commit_succeeds healthy memory-Lawful seat_anna waiting anna evening (λ k. refl) (λ k. refl)
      refl

predict_eta_minutes_example :
    (predict_eta_minutes 5 fell_back ≡ predict_eta_minutes 5 breaker_failed)
    × (predict_eta_minutes 5 (answered none) ≡ predict_eta_minutes 5 breaker_failed)
    × (5 ≤ predict_eta_minutes 5 breaker_failed)
    × (predict_eta_minutes 3 breaker_failed ≤ predict_eta_minutes 5 breaker_failed)
    × (5 * 5 ≤ predict_eta_minutes 5 breaker_failed * 2)
    × (predict_eta_minutes 5 breaker_failed ≤ max 5 ((5 * 5 + 1) / 2))
predict_eta_minutes_example = predict_eta_minutes_lem 3 5 (omega arith)

abbrev pub ring_anna : Ring.Input
ring_anna = record { restaurant_id = "bistro"; queue_entry_id = "ticket-1" }

ring_exact_example :
    Post
      (Ringing.Outcome healthy memory ring_anna evening.tables)
      (λ t. t ≡ evening.tables)
      (Ring.execute healthy memory ring_anna evening)
ring_exact_example = Ringing.ring_exact healthy memory-Lawful ring_anna evening
