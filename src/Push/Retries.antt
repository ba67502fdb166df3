-- ===== src/Push/Retries.antt =====
-- The attempts of src/infrastructure/firebase/firebase-push-notification.service.ts.
use spotq_queue_service.Base.{
  ℕ, zero, suc, ◌+◌, ◌-◌, ◌*◌, ◌≤◌, ◌<◌, ◌≡◌, refl, ap, ◌∙◌, leb, String, Bool, true, false, not,
  ◌&&◌, Option, some, List, [], ◌∷◌, is_truthy, Bool-cases, inl, inr, arith, if◌then◌else◌,
}
use spotq_queue_service.Push.{
  Attempt, delivered, rejected, PushResult, Delivery, is_invalid_token, is_permanent, succeeded,
  failed, with_wait, settle_attempt, attempt_loop, send,
}

-- An answer after which another attempt may follow.
abbrev pub is_transient : Attempt → Bool
is_transient (delivered id) = false
is_transient (rejected code message) = not (is_invalid_token code) && not (is_permanent code)

-- What is reported of the last answer.
abbrev pub verdict : Attempt → PushResult
verdict (delivered id) = succeeded id
verdict (rejected code message) = failed message (is_invalid_token code)

-- The pauses after the attempts that follow the `from`th, each longer than the one before.
abbrev pub backoff : ℕ → ℕ → ℕ → List ℕ
backoff delay_ms from zero = []
backoff delay_ms from (suc n) = delay_ms * (from + 1) ∷ backoff delay_ms (from + 1) n

-- The attempts after the `from`th: at most `max_retries + 1` in all, another one exactly after a
-- transient error, with growing pauses; the last answer is reported.
pub record IsDelivery (max_retries delay_ms : ℕ) (answer : ℕ → Attempt) (from : ℕ) (d : Delivery)
    : Type 0 where
  pub later : from < d.attempts
  pub bounded : d.attempts ≤ max_retries + 1
  pub reported : d.result ≡ verdict (answer d.attempts)
  pub retried : (k : ℕ) → from < k → k < d.attempts → is_transient (answer k) ≡ true
  pub exhausted : is_transient (answer d.attempts) ≡ true → d.attempts ≡ max_retries + 1
  pub paused : d.waits ≡ backoff delay_ms from (d.attempts - from - 1)

module _ (max_retries delay_ms : ℕ) (answer : ℕ → Attempt) where
  abbrev Runs : ℕ → Option Delivery → Type 0
  Runs from o = (d : Delivery) × (o ≡ some d) × IsDelivery max_retries delay_ms answer from d

  backoff_same : (from m n : ℕ) → m ≡ n → backoff delay_ms from m ≡ backoff delay_ms from n
  backoff_same from m n e = ap (backoff delay_ms from) e

  last_attempt :
      (from : ℕ) (result : PushResult)
      → from ≤ max_retries
      → result ≡ verdict (answer (from + 1))
      → (is_transient (answer (from + 1)) ≡ true → from + 1 ≡ max_retries + 1)
      → Runs from (some (record { result = result; attempts = from + 1; waits = [] }))
  last_attempt from result h e x = (
    _,
    refl,
    record {
      later = omega arith;
      bounded = omega arith;
      reported = e;
      retried = λ k a b. ground arith;
      exhausted = x;
      paused = backoff_same from 0 (from + 1 - from - 1) (omega arith);
    },
  )

  next_attempt :
      (from : ℕ) (o : Option Delivery)
      → is_transient (answer (from + 1)) ≡ true
      → Runs (from + 1) o
      → Runs from (with_wait (delay_ms * (from + 1)) o)
  next_attempt from o t (d, e, h) = (
    record d { waits = delay_ms * (from + 1) ∷ d.waits },
    rw e refl,
    record {
      later = omega (arith, h.later);
      bounded = h.bounded;
      reported = h.reported;
      retried = λ k a b. elim (Bool-cases (leb k (from + 1))) [
        | inl le ↦ rw (at_next k a le) t
        | inr gt ↦ h.retried k (ground (arith, gt)) b
      ];
      exhausted = h.exhausted;
      paused =
          ap (λ ws. delay_ms * (from + 1) ∷ ws) h.paused
          ∙ backoff_same from (suc (d.attempts - (from + 1) - 1)) (d.attempts - from - 1)
              (omega (arith, h.later));
    },
  )
    where
      at_next : (k : ℕ) → from < k → leb k (from + 1) ≡ true → k ≡ from + 1
      at_next k a le = ground (arith, le)

  -- An error, by the three tests that are made on it.
  rejected-Runs :
      (from : ℕ) (code message : String) (rest : Option Delivery) (i p l : Bool)
      → is_invalid_token code ≡ i
      → is_permanent code ≡ p
      → leb (from + 1) max_retries ≡ l
      → answer (from + 1) ≡ rejected code message
      → from ≤ max_retries
      → (from + 1 ≤ max_retries → Runs (from + 1) rest)
      → Runs from (
          if i
          then some (record { result = failed message true; attempts = from + 1; waits = [] })
          else if p
          then some (record { result = failed message false; attempts = from + 1; waits = [] })
          else if l
          then with_wait (delay_ms * (from + 1)) rest
          else some (record { result = failed message false; attempts = from + 1; waits = [] }))
  rejected-Runs from code message rest true p l ei ep el e h k =
      last_attempt from _ h (rw (e, ei) refl) (rw (e, ei) (λ x. ground (arith, x)))
  rejected-Runs from code message rest false true l ei ep el e h k =
      last_attempt from _ h (rw (e, ei) refl) (rw (e, ei, ep) (λ x. ground (arith, x)))
  rejected-Runs from code message rest false false true ei ep el e h k =
      next_attempt from rest (rw (e, ei, ep) refl) (k (ground (arith, el)))
  rejected-Runs from code message rest false false false ei ep el e h k =
      last_attempt from _ h (rw (e, ei) refl) (λ x. ground (arith, el))

  settle_attempt-Runs :
      (from : ℕ) (a : Attempt) (rest : Option Delivery)
      → answer (from + 1) ≡ a
      → from ≤ max_retries
      → (from + 1 ≤ max_retries → Runs (from + 1) rest)
      → Runs from (settle_attempt max_retries delay_ms (from + 1) a rest)
  unfolding settle_attempt
  settle_attempt-Runs from (delivered id) rest e h k =
      last_attempt from _ h (rw e refl) (rw e (λ x. ground (arith, x)))
  settle_attempt-Runs from (rejected code message) rest e h k =
      rejected-Runs from code message rest _ _ _ refl refl refl e h k

  attempt_loop-Runs :
      (fuel from : ℕ)
      → fuel + from ≡ max_retries + 1
      → 1 ≤ fuel
      → Runs from (attempt_loop max_retries delay_ms answer fuel from)
  unfolding attempt_loop
  attempt_loop-Runs zero from e h = ground (arith, h)
  attempt_loop-Runs (suc f) from e h = rw (below from (omega (arith, e))) (
      settle_attempt-Runs from (answer (from + 1)) _ refl (omega (arith, e))
        (λ l. attempt_loop-Runs f (from + 1) (omega (arith, e)) (omega (arith, e, l))))
    where
      below : (n : ℕ) → n ≤ max_retries → leb n max_retries ≡ true
      below n h = ground (arith, h)

-- With a client and a device id, sending ends after at least one and at most one more attempt than the
-- retries allowed. Another attempt is made exactly after an error that is neither of an invalid token
-- nor permanent, after a pause that grows with each attempt, and the last answer is what is reported.
pub send-IsDelivery :
    (fid : String) (max_retries delay_ms : ℕ) (answer : ℕ → Attempt)
    → is_truthy (some fid) ≡ true
    → (d : Delivery) × (send true (some fid) max_retries delay_ms answer ≡ some d)
      × IsDelivery max_retries delay_ms answer 0 d
unfolding send
send-IsDelivery fid max_retries delay_ms answer h =
    rw h (
      attempt_loop-Runs max_retries delay_ms answer (max_retries + 1) 0 (omega arith) (omega arith))
