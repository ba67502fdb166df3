-- ===== src/Repository/Rules.antt =====
-- The calls of the repository as actions on the tables: what a call, a transaction and `run` keep.
use mathlib.Core.Path.{subst}
use spotq_queue_service.Base.{ℕ, ◌+◌, ◌≡◌, refl, sym, Option, none, some}
use spotq_queue_service.Errors.{Failure, Result, ok, err}
use spotq_queue_service.World.{World, Tables, Env, Client}
use spotq_queue_service.Exec.{Exec}
use spotq_queue_service.Exec.Rules.{Post, Ensures}
use spotq_queue_service.Repository.Calls.{
  run, rethrow, call_db, answer, query, transaction, settled,
}
use spotq_queue_service.Repository.Laws.{Lawful}

-- What a call of the client comes to.
abbrev pub Answer {ℓ} :
    {A : Type ℓ} → (A → Tables → Type 0) → (Tables → Type 0) → Result A × Tables → Type 0
Answer Q E (ok a, t) = Q a t
Answer Q E (err x, t) = E t

module _ {ℓ} {A : Type ℓ} (Q : A → Tables → Type 0) (E : Tables → Type 0) where
  rethrow-Post : (r : Result A × World) → Post Q E r → Post Q E (rethrow r)
  rethrow-Post (ok a, w) q = q
  rethrow-Post (err x, w) e = e

  pair-Post :
      (w : World) (r : Result A × Tables) → Answer Q E r → Post Q E (r.0, record w { tables = r.1 })
  pair-Post w (ok a, t) q = q
  pair-Post w (err x, t) e = e

  answer-Post :
      (env : Env) (client : Client) (fault : Option Failure) (w : World)
      (f : Tables → Result A × Tables)
      → ((x : Failure) → fault ≡ some x → E w.tables)
      → Answer Q E (f w.tables)
      → Post Q E (answer env client fault w f)
  answer-Post env client (some x) w f h k = h x refl
  answer-Post env client none w f h k = pair-Post w (f w.tables) k

  settled-Post :
      (env : Env) (client : Client) (lawful : Lawful client) (s : Tables) (r : Result A × World)
      → Post Q (λ _. E s) r
      → Post Q E (settled env client s r)
  settled-Post env client lawful s (ok a, w) q = q
  settled-Post env client lawful s (err x, w) e = rw (lawful.rollback s w.tables) e

module _ {ℓ} {A : Type ℓ} {Q : A → Tables → Type 0} {E : Tables → Type 0} where
  pub Ensures-run : {P : Tables → Type 0} {m : Exec A} → Ensures P m Q E → Ensures P (run m) Q E
  unfolding run
  Ensures-run {m = m} h = record { at = λ w p. rethrow-Post Q E (m w) (h.at w p) }

  pub Ensures-call_db :
      {P : Tables → Type 0} (env : Env) (client : Client) (f : Tables → Result A × Tables)
      → ((k : ℕ) (x : Failure) (t : Tables) → env.database_fault k ≡ some x → P t → E t)
      → ((t : Tables) → P t → Answer Q E (f t))
      → Ensures P (call_db env client f) Q E
  unfolding call_db
  Ensures-call_db env client f h k = record {
    at = λ w p.
        answer-Post Q E env client (env.database_fault w.calls) (record w { calls = w.calls + 1 }) f
          (λ x e. h w.calls x w.tables e p) (k w.tables p);
  }

  -- What a failed transaction wrote is gone.
  pub Ensures-transaction :
      {m : Exec A} (env : Env) {client : Client} (lawful : Lawful client) (s : Tables)
      → Ensures (λ t. t ≡ s) m Q (λ _. E s)
      → Ensures (λ t. t ≡ s) (transaction env client m) Q E
  unfolding transaction
  Ensures-transaction {m = m} env {client} lawful s h = record {
    at = λ w p.
        settled-Post Q E env client lawful w.tables (m w)
          (subst (λ v. Post Q (λ _. E v) (m w)) (sym p) (h.at w p));
  }

module _ {ℓ} {A : Type ℓ} {E : Tables → Type 0} where
  pub Ensures-query :
      {Q : A → Tables → Type 0} (env : Env) (client : Client) (f : Tables → A) (s : Tables)
      → ((k : ℕ) (x : Failure) → env.database_fault k ≡ some x → E s)
      → Q (f s) s
      → Ensures (λ t. t ≡ s) (query env client f) Q E
  unfolding query
  Ensures-query {Q} env client f s faulty q =
      Ensures-call_db env client _ (λ k x t e p. subst E (sym p) (faulty k x e))
        (λ t p. subst (λ u. Q (f u) u) (sym p) q)

-- Whether the database failed at some call.
abbrev pub Fails : Env → Type 0
Fails env = (k : ℕ) × (x : Failure) × (env.database_fault k ≡ some x)
