-- ===== src/Exec.antt =====
-- Handlers as actions: `await` in sequence, and exceptions. What was written before a throw stays
-- written, so the world comes back beside the error too.
pub mod Rules
use spotq_queue_service.Base.{ℕ, ◌+◌}
use spotq_queue_service.Errors.{DomainError, Failure, domain, Result, ok, err}
use spotq_queue_service.World.{World, Env}

abbrev pub Exec {ℓ} : Type ℓ → Type ℓ
Exec A = World → Result A × World

module _ {ℓ} {A : Type ℓ} where
  abbrev pub pure : A → Exec A
  pure a w = (ok a, w)

  abbrev pub lift : Result A → Exec A
  lift r w = (r, w)

  abbrev pub raise : Failure → Exec A
  raise x w = (err x, w)

  abbrev pub throw : DomainError → Exec A
  throw x = raise (domain x)

  -- `try { … } catch (error) { log }`: the value of the handler stands in for the result.
  abbrev pub caught : A → Result A × World → Result A × World
  caught a (ok b, w) = (ok b, w)
  caught a (err x, w) = (ok a, w)

  unfoldable pub recover : A → Exec A → Exec A
  recover a m w = caught a (m w)

module _ {ℓ κ} {A : Type ℓ} {B : Type κ} where
  abbrev pub continue : Result A × World → (A → World → Result B × World) → Result B × World
  continue (ok a, w) f = f a w
  continue (err x, w) f = (err x, w)

infixl 10 ◌>>=◌ ◌>>◌
unfoldable pub ◌>>=◌ {ℓ κ} : {A : Type ℓ} {B : Type κ} → Exec A → (A → Exec B) → Exec B
◌>>=◌ m f w = continue (m w) f

abbrev pub ◌>>◌ {ℓ κ} : {A : Type ℓ} {B : Type κ} → Exec A → Exec B → Exec B
m >> n = m >>= λ _. n

-- The index of the next call to a service outside.
unfoldable pub tick : Exec ℕ
tick w = (ok w.calls, record w { calls = w.calls + 1 })

module _ (env : Env) where
  -- `new Date()`
  unfoldable pub new_date : Exec ℕ
  unfolding ◌>>=◌ tick
  new_date = do k ← tick; pure (env.now k)
