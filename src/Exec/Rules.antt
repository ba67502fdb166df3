-- ===== src/Exec/Rules.antt =====
-- Pre- and postconditions on the tables for actions: `Ensures P m Q E` says that from tables with `P`
-- the action `m` returns with `Q` or throws with `E`.
use mathlib.Core.Path.{subst}
use spotq_queue_service.Base.{◌≡◌, refl, sym, ◌∙◌, Bool, true, false, if◌then◌else◌}
use spotq_queue_service.Errors.{Failure, Result, ok, err}
use spotq_queue_service.World.{World, Tables, Env}
use spotq_queue_service.Exec.{
  Exec, pure, lift, raise, recover, caught, continue, tick, new_date, ◌>>=◌,
}

abbrev pub Post {ℓ} :
    {A : Type ℓ} → (A → Tables → Type 0) → (Tables → Type 0) → Result A × World → Type 0
Post Q E (ok a, w) = Q a w.tables
Post Q E (err x, w) = E w.tables

pub Post-same {ℓ} :
    {A : Type ℓ} (P : Tables → Type 0) (r : Result A × World) → Post (λ _. P) P r → P r.1.tables
Post-same P (ok a, w) p = p
Post-same P (err x, w) p = p

pub record Ensures {ℓ} {A : Type ℓ} (P : Tables → Type 0) (m : Exec A) (Q : A → Tables → Type 0)
    (E : Tables → Type 0) : Type ℓ where
  pub at : (w : World) → P w.tables → Post Q E (m w)

-- The action leaves the tables alone, whether it returns or throws.
pub record Quiet {ℓ} {A : Type ℓ} (m : Exec A) : Type ℓ where
  pub at : (w : World) → (m w).1.tables ≡ w.tables

module _ {ℓ} {A : Type ℓ} {E : Tables → Type 0} where
  pub Ensures-pre :
      {P P' : Tables → Type 0} {m : Exec A} {Q : A → Tables → Type 0}
      → ((t : Tables) → P' t → P t)
      → Ensures P m Q E
      → Ensures P' m Q E
  Ensures-pre f h = record { at = λ w p. h.at w (f w.tables p) }

  -- It is enough to look at each state of the tables by itself.
  pub Ensures-exact :
      {P : Tables → Type 0} {m : Exec A} {Q : A → Tables → Type 0}
      → ((s : Tables) → P s → Ensures (λ t. t ≡ s) m Q E)
      → Ensures P m Q E
  Ensures-exact f = record { at = λ w p. (f w.tables p).at w refl }

  pub Ensures-pure : {Q : A → Tables → Type 0} (a : A) → Ensures (Q a) (pure a) Q E
  Ensures-pure a = record { at = λ w q. q }

  pub Ensures-return :
      {P : Tables → Type 0} {Q : A → Tables → Type 0} (a : A)
      → ((t : Tables) → P t → Q a t)
      → Ensures P (pure a) Q E
  Ensures-return a f = record { at = λ w p. f w.tables p }

  pub Ensures-refuse :
      {P : Tables → Type 0} {Q : A → Tables → Type 0} (x : Failure)
      → ((t : Tables) → P t → E t)
      → Ensures P (raise x) Q E
  Ensures-refuse x f = record { at = λ w p. f w.tables p }

  -- A fact that the precondition carries along.
  pub Ensures-given :
      {F : Type 0} {P : Tables → Type 0} {m : Exec A} {Q : A → Tables → Type 0}
      → (F → Ensures P m Q E)
      → Ensures (λ t. P t × F) m Q E
  Ensures-given f = record { at = λ w (p, x). (f x).at w p }

  pub Ensures-raise : {Q : A → Tables → Type 0} (x : Failure) → Ensures E (raise x) Q E
  Ensures-raise x = record { at = λ w e. e }

  pub Post-weaken :
      {E' : Tables → Type 0} {Q Q' : A → Tables → Type 0}
      → ((a : A) (t : Tables) → Q a t → Q' a t)
      → ((t : Tables) → E t → E' t)
      → (r : Result A × World) → Post Q E r
      → Post Q' E' r
  Post-weaken f g (ok a, w) q = f a w.tables q
  Post-weaken f g (err x, w) e = g w.tables e

  pub Ensures-post :
      {E' : Tables → Type 0} {P : Tables → Type 0} {m : Exec A} {Q Q' : A → Tables → Type 0}
      → ((a : A) (t : Tables) → Q a t → Q' a t)
      → ((t : Tables) → E t → E' t)
      → Ensures P m Q E
      → Ensures P m Q' E'
  Ensures-post {m = m} f g h = record { at = λ w p. Post-weaken f g (m w) (h.at w p) }

  pub Ensures-if :
      {P : Tables → Type 0} {Q : A → Tables → Type 0} {m n : Exec A} (b : Bool)
      → (b ≡ true → Ensures P m Q E)
      → (b ≡ false → Ensures P n Q E)
      → Ensures P (if b then m else n) Q E
  Ensures-if true h k = h refl
  Ensures-if false h k = k refl

  quiet-Post :
      (P : Tables → Type 0) (f : (t : Tables) → P t → E t) (s : Tables) (r : Result A × World)
      → r.1.tables ≡ s
      → P s
      → Post (λ _. P) E r
  quiet-Post P f s (ok a, w) e p = subst P (sym e) p
  quiet-Post P f s (err x, w) e p = f w.tables (subst P (sym e) p)

  pub Ensures-quiet :
      (P : Tables → Type 0) {m : Exec A}
      → ((t : Tables) → P t → E t)
      → Quiet m
      → Ensures P m (λ _. P) E
  Ensures-quiet P {m} f q = record { at = λ w p. quiet-Post P f w.tables (m w) (q.at w) p }

module _ {A : Type 0} {E : Tables → Type 0} where
  -- What a pure step returned may be used by the rest.
  pub Ensures-lift :
      {P : Tables → Type 0} (r : Result A)
      → ((t : Tables) → P t → E t)
      → Ensures P (lift r) (λ a t. P t × (r ≡ ok a)) E
  Ensures-lift (ok a) f = record { at = λ w p. (p, refl) }
  Ensures-lift (err x) f = record { at = λ w p. f w.tables p }

module _ {ℓ} {A : Type ℓ} where
  caught-Post :
      (P E : Tables → Type 0) (a : A) (s : Tables) (r : Result A × World)
      → r.1.tables ≡ s
      → P s
      → Post (λ _. P) E (caught a r)
  caught-Post P E a s (ok b, w) e p = subst P (sym e) p
  caught-Post P E a s (err x, w) e p = subst P (sym e) p

  -- A quiet step whose errors are caught cannot fail.
  pub Ensures-recover :
      {P E : Tables → Type 0} {m : Exec A} (a : A) → Quiet m → Ensures P (recover a m) (λ _. P) E
  unfolding recover
  Ensures-recover {P} {E} {m} a q = record {
    at = λ w p. caught-Post P E a w.tables (m w) (q.at w) p;
  }

  caught-tables : (a : A) (r : Result A × World) → (caught a r).1.tables ≡ r.1.tables
  caught-tables a (ok b, w) = refl
  caught-tables a (err x, w) = refl

  pub Quiet-recover : (a : A) {m : Exec A} → Quiet m → Quiet (recover a m)
  unfolding recover
  Quiet-recover a {m} q = record { at = λ w. caught-tables a (m w) ∙ q.at w }

module _ {ℓ κ} {A : Type ℓ} {B : Type κ} where
  bind-Post :
      {E : Tables → Type 0} {Q : A → Tables → Type 0} {R : B → Tables → Type 0} {f : A → Exec B}
      → ((a : A) → Ensures (Q a) (f a) R E)
      → (r : Result A × World) → Post Q E r
      → Post R E (continue r f)
  bind-Post h (ok a, w) q = (h a).at w q
  bind-Post h (err x, w) e = e

  pub Ensures-bind :
      {E : Tables → Type 0} {P : Tables → Type 0} {Q : A → Tables → Type 0}
      {R : B → Tables → Type 0} {m : Exec A} {f : A → Exec B}
      → Ensures P m Q E
      → ((a : A) → Ensures (Q a) (f a) R E)
      → Ensures P (m >>= f) R E
  unfolding ◌>>=◌
  Ensures-bind {m = m} h k = record { at = λ w p. bind-Post k (m w) (h.at w p) }

  -- A quiet step changes nothing that the rest relies on.
  pub Ensures-then :
      {E : Tables → Type 0} (P : Tables → Type 0) {R : B → Tables → Type 0} {m : Exec A}
      {f : A → Exec B}
      → ((t : Tables) → P t → E t)
      → Quiet m
      → ((a : A) → Ensures P (f a) R E)
      → Ensures P (m >>= f) R E
  Ensures-then P f q k = Ensures-bind (Ensures-quiet P f q) k

  bind-tables :
      {f : A → Exec B}
      → ((a : A) → Quiet (f a))
      → (s : Tables) (r : Result A × World) → r.1.tables ≡ s
      → (continue r f).1.tables ≡ s
  bind-tables k s (ok a, w) e = (k a).at w ∙ e
  bind-tables k s (err x, w) e = e

  pub Quiet-bind :
      {m : Exec A} {f : A → Exec B} → Quiet m → ((a : A) → Quiet (f a)) → Quiet (m >>= f)
  unfolding ◌>>=◌
  Quiet-bind {m = m} q k = record { at = λ w. bind-tables k w.tables (m w) (q.at w) }

module _ {ℓ} {A : Type ℓ} where
  pub Quiet-pure : (a : A) → Quiet (pure a)
  Quiet-pure a = record { at = λ w. refl }

  pub Quiet-raise : (x : Failure) → Quiet (raise {A = A} x)
  Quiet-raise x = record { at = λ w. refl }

  pub Quiet-lift : (r : Result A) → Quiet (lift r)
  Quiet-lift r = record { at = λ w. refl }

  pub Quiet-if : (b : Bool) {m n : Exec A} → Quiet m → Quiet n → Quiet (if b then m else n)
  Quiet-if true q k = q
  Quiet-if false q k = k

pub Quiet-tick : Quiet tick
unfolding tick
Quiet-tick = record { at = λ w. refl }

pub Ensures-new_date : {P E : Tables → Type 0} (env : Env) → Ensures P (new_date env) (λ _. P) E
unfolding new_date
Ensures-new_date env = record { at = λ w p. p }

pub Quiet-new_date : (env : Env) → Quiet (new_date env)
unfolding new_date
Quiet-new_date env = record { at = λ w. refl }

pub ruleset quiet_rules = (
  Quiet-pure, Quiet-raise, Quiet-lift, Quiet-if, Quiet-tick, Quiet-new_date, Quiet-bind,
  Quiet-recover,
)
