-- ===== src/Repository/Rows.antt =====
-- The row with an id after an update of the rows with an id.
use spotq_queue_service.Base.{
  String, true, false, ◌≡◌, refl, ◌∙◌, ap, sym, some, List, [], ◌∷◌, str_eq, eq_iff, arith, inl,
  inr, Bool-cases, if◌then◌else◌, or_else,
}
use spotq_queue_service.Entity.{QueueEntry}
use spotq_queue_service.Repository.Laws.{row_with, has_id, replace}

pub row_with-first :
    (id : String) (r : QueueEntry) (rs : List QueueEntry)
    → str_eq r.id id ≡ true
    → row_with id (r ∷ rs) ≡ some r
row_with-first id r rs h = rw h refl

pub row_with-later :
    (id : String) (r : QueueEntry) (rs : List QueueEntry)
    → str_eq r.id id ≡ false
    → row_with id (r ∷ rs) ≡ row_with id rs
row_with-later id r rs h = rw h refl

pub has_id-row_with :
    (id : String) (rows : List QueueEntry) (e : QueueEntry)
    → row_with id rows ≡ some e
    → has_id id rows ≡ true
has_id-row_with id [] e h = ground arith
has_id-row_with id (r ∷ rs) e h = ground (arith, has_id-row_with id rs e)

module _ (i : String) (g : QueueEntry → QueueEntry)
    (same : (r : QueueEntry) → (g r).id ≡ r.id) where
  pub row_with-replace :
      (e : QueueEntry) (rows : List QueueEntry)
      → row_with i rows ≡ some e
      → row_with i (replace i g rows) ≡ some (g e)
  row_with-replace e [] h = ground (arith, h)
  row_with-replace e (r ∷ rs) h = elim (Bool-cases (str_eq r.id i)) [
    | inl b ↦ rw b (
        row_with-first i (g r) _ (ap (λ k. str_eq k i) (same r) ∙ b)
        ∙ ap (λ o. some (g (or_else o e))) (sym (row_with-first i r rs b) ∙ h))
    | inr b ↦ rw b (
        row_with-later i r (replace i g rs) b
        ∙ row_with-replace e rs (sym (row_with-later i r rs b) ∙ h))
  ]

  pub row_with-replace_other :
      (j : String) (rows : List QueueEntry)
      → str_eq i j ≡ false
      → row_with j (replace i g rows) ≡ row_with j rows
  row_with-replace_other j [] h = refl
  row_with-replace_other j (r ∷ rs) h = elim (Bool-cases (str_eq r.id i)) [
    | inl b ↦ rw b (
        row_with-later j (g r) _ (ap (λ k. str_eq k j) (same r ∙ (eq_iff r.id i).0 b) ∙ h)
        ∙ row_with-replace_other j rs h
        ∙ sym (row_with-later j r rs (ap (λ k. str_eq k j) ((eq_iff r.id i).0 b) ∙ h)))
    | inr b ↦ rw (b, row_with-replace_other j rs h) refl
  ]

  pub has_id-replace :
      (j : String) (rows : List QueueEntry) → has_id j (replace i g rows) ≡ has_id j rows
  has_id-replace j [] = refl
  has_id-replace j (r ∷ rs) = elim (Bool-cases (str_eq r.id i)) [
    | inl b ↦
        rw (b, has_id-replace j rs) (ap (λ k. if str_eq k j then true else has_id j rs) (same r))
    | inr b ↦ rw (b, has_id-replace j rs) refl
  ]
