-- ===== src/Base/Perms.antt =====
-- Lists in another order, and filters.
use mathlib.Core.Path.{◌≡◌, refl, ap, ◌∙◌}
use mathlib.Core.Logic.{inl, inr}
use mathlib.Core.Bool.{Bool, true}
use mathlib.Core.List.{List, [], ◌∷◌, Permᴰ}
use Prim.Native.Nat.{suc}
use spotq_queue_service.Base.Tests.{Bool-cases}
use spotq_queue_service.Base.Lists.{length, filter, All}

module _ {ℓ} {A : Type ℓ} where
  pub length-Perm : {xs ys : List A} → Permᴰ xs ys → length xs ≡ length ys
  length-Perm Permᴰ.nil = refl
  length-Perm (Permᴰ.cons e h) = ap suc (length-Perm h)
  length-Perm (Permᴰ.swap e f) = refl
  length-Perm (Permᴰ.trans h k) = length-Perm h ∙ length-Perm k

  -- A test that the elements pass, they pass in another order.
  pub All-Perm :
      (p : A → Bool) {xs ys : List A}
      → Permᴰ xs ys
      → All (λ x. p x ≡ true) ys
      → All (λ x. p x ≡ true) xs
  All-Perm p Permᴰ.nil h = h
  All-Perm p (Permᴰ.cons e k) h = (ap p e ∙ h.0, All-Perm p k h.1)
  All-Perm p (Permᴰ.swap e f) h = (ap p e ∙ h.1.0, (ap p f ∙ h.0, h.1.1))
  All-Perm p (Permᴰ.trans k l) h = All-Perm p k (All-Perm p l h)

  pub All-filter : (p : A → Bool) (xs : List A) → All (λ x. p x ≡ true) (filter p xs)
  All-filter p [] = tt
  All-filter p (x ∷ xs) = elim (Bool-cases (p x)) [
    | inl b ↦ rw b (b, All-filter p xs)
    | inr b ↦ rw b (All-filter p xs)
  ]

  pub filter-same :
      (p q : A → Bool) (same : (x : A) → p x ≡ q x) (xs : List A) → filter p xs ≡ filter q xs
  filter-same p q same [] = refl
  filter-same p q same (x ∷ xs) = rw (same x) (rw (filter-same p q same xs) refl)
