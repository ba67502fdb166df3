-- ===== src/EtaClient/Bounds.antt =====
-- The estimate that src/infrastructure/external/ml-eta-service.client.ts makes by itself.
use spotq_queue_service.Base.{ℕ, ◌+◌, ◌*◌, ◌/◌, ◌≤◌, ◌≡◌, refl, max, none, arith}
use spotq_queue_service.EtaClient.{
  compute_fallback_minutes, read_prediction, answered, fell_back, breaker_failed,
  predict_eta_minutes,
}

-- Without a usable prediction the estimate is the same on each of the three ways: at least five
-- minutes, never less for more people, at least two and a half minutes for each person, and at most
-- that, rounded up to a whole minute, or five minutes.
pub predict_eta_minutes_lem :
    (m n : ℕ)
    → m ≤ n
    → (predict_eta_minutes n fell_back ≡ predict_eta_minutes n breaker_failed)
      × (predict_eta_minutes n (answered none) ≡ predict_eta_minutes n breaker_failed)
      × (5 ≤ predict_eta_minutes n breaker_failed)
      × (predict_eta_minutes m breaker_failed ≤ predict_eta_minutes n breaker_failed)
      × (n * 5 ≤ predict_eta_minutes n breaker_failed * 2)
      × (predict_eta_minutes n breaker_failed ≤ max 5 ((n * 5 + 1) / 2))
unfolding predict_eta_minutes read_prediction compute_fallback_minutes
predict_eta_minutes_lem m n h = (refl, refl, omega arith, omega arith, omega arith, omega arith)
