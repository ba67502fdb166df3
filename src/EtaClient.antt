-- ===== src/EtaClient.antt =====
-- src/infrastructure/external/ml-eta-service.client.ts. The circuit breaker is a library: what its
-- `execute` comes to is a parameter, either the value of the call or the fallback that the client
-- gave it, or an error. A predicted wait is a number of minutes and a fraction, in thousandths, and
-- `none` where the answer has no finite number; a sign marks the negative ones.
pub mod Bounds
use spotq_queue_service.Base.{
  ℕ, ◌+◌, ◌*◌, ◌/◌, max, Bool, true, false, Option, none, some, if◌then◌else◌,
}
use spotq_queue_service.Errors.{Result, ok, err}

-- `Math.round(totalPeopleAhead * 2.5)`, but at least 5: halves are rounded up.
unfoldable pub compute_fallback_minutes : ℕ → ℕ
compute_fallback_minutes total_people_ahead = max 5 ((total_people_ahead * 5 + 1) / 2)

pub record Prediction : Type 0 where
  pub is_negative : Bool
  pub thousandths : ℕ

-- `Math.max(0, Math.round(x))`
unfoldable pub rounded : Prediction → ℕ
rounded p = if p.is_negative then 0 else (p.thousandths + 500) / 1000

-- `callPredictionApi` from the data of the answer on.
unfoldable pub read_prediction : ℕ → Option Prediction → ℕ
unfolding rounded compute_fallback_minutes
read_prediction total_people_ahead none = compute_fallback_minutes total_people_ahead
read_prediction total_people_ahead (some p) = rounded p

-- The outcomes of the breaker: the call's answer, its fallback, or an error.
pub data BreakerOutcome : Type 0 where
  answered : Option Prediction → BreakerOutcome
  fell_back breaker_failed : BreakerOutcome

-- `predictEta`
unfoldable pub predict_eta_minutes : ℕ → BreakerOutcome → ℕ
unfolding read_prediction compute_fallback_minutes
predict_eta_minutes total_people_ahead (answered p) = read_prediction total_people_ahead p
predict_eta_minutes total_people_ahead fell_back = compute_fallback_minutes total_people_ahead
predict_eta_minutes total_people_ahead breaker_failed = compute_fallback_minutes total_people_ahead
