-- ===== src/Repository/Failures.antt =====
-- What leaves `run` of src/infrastructure/database/repositories/prisma-base.repository.ts as an error.
use spotq_queue_service.Base.{◌≡◌, refl, Bool, true, false, arith}
use spotq_queue_service.Errors.{
  Failure, domain, persistence, type_error, reference_error, range_error, Result, ok, err,
  known_request, initialization, other_error,
}
use spotq_queue_service.World.{World}
use spotq_queue_service.Exec.{Exec}
use spotq_queue_service.Repository.Calls.{translate_error, no_error_map, run, rethrow}

-- Not an error of the database client, nor an unknown one.
abbrev pub is_translated : Failure → Bool
is_translated (known_request code) = false
is_translated initialization = false
is_translated other_error = false
is_translated _ = true

translate_error-translated :
    (x : Failure) → is_translated (translate_error no_error_map no_error_map x) ≡ true
unfolding translate_error
translate_error-translated x = ground arith

abbrev Unchanged : Failure → Failure → Bool → Type 0
Unchanged x y true = y ≡ x
Unchanged x y false = Unit

translate_error-Unchanged :
    (x : Failure) → Unchanged x (translate_error no_error_map no_error_map x) (is_translated x)
unfolding translate_error
translate_error-Unchanged (domain d) = refl
translate_error-Unchanged (persistence c) = refl
translate_error-Unchanged type_error = refl
translate_error-Unchanged reference_error = refl
translate_error-Unchanged range_error = refl
translate_error-Unchanged (known_request c) = tt
translate_error-Unchanged initialization = tt
translate_error-Unchanged other_error = tt

-- `run` returns what the operation returns. If the operation throws, `run` throws an error that is
-- no longer the database client's own, and the operation's error itself if that was none of these.
abbrev pub IsShielded {ℓ} : {A : Type ℓ} → Result A × World → Result A × World → Type ℓ
IsShielded (ok a, w) r = r ≡ (ok a, w)
IsShielded (err x, w) r =
    (y : Failure) × (r ≡ (err y, w)) × (is_translated y ≡ true) × Unchanged x y (is_translated x)

rethrow-IsShielded {ℓ} : {A : Type ℓ} (r : Result A × World) → IsShielded r (rethrow r)
rethrow-IsShielded (ok a, w) = refl
rethrow-IsShielded (err x, w) = (
  translate_error no_error_map no_error_map x,
  refl,
  translate_error-translated x,
  translate_error-Unchanged x,
)

pub run-IsShielded {ℓ} : {A : Type ℓ} (m : Exec A) (w : World) → IsShielded (m w) (run m w)
unfolding run
run-IsShielded m w = rethrow-IsShielded (m w)
