-- ===== src/UseCases/Machine/Twins.antt =====
-- Twins, in the sense of Repository/Twins, under any requests to the handlers of
-- src/application/use-cases that write.
use mathlib.Core.Path.{ap, sym, subst}
use spotq_queue_service.Base.{
  String, false, ◌≡◌, refl, ◌∙◌, inl, inr, none, some, List, [], ◌∷◌, All, str_eq, arith, eq_iff,
  Bool-cases,
}
use spotq_queue_service.Entity.{QueueEntry}
use spotq_queue_service.Repository.Laws.{row_with, replace}
use spotq_queue_service.Repository.Twins.{are_twins, NoTwins}
use spotq_queue_service.UseCases.Machine.{status_of, board_of}
use spotq_queue_service.UseCases.Machine.Final.{AreDistinct}

-- What makes twins is the same in both.
abbrev pub IsAlike : QueueEntry → QueueEntry → Type 0
IsAlike r x =
    (x.status ≡ r.status)
    × (x.restaurant_id ≡ r.restaurant_id)
    × (x.phone ≡ r.phone)
    × (x.user_id ≡ r.user_id)

abbrev Alike : List QueueEntry → List QueueEntry → Type 0
Alike [] [] = Unit
Alike (r ∷ rs) (x ∷ xs) = IsAlike r x × Alike rs xs
Alike _ _ = ⊥

Alike-apart :
    (r x : QueueEntry) (rs xs : List QueueEntry)
    → IsAlike r x
    → Alike rs xs
    → All (λ e. are_twins r e ≡ false) rs
    → All (λ e. are_twins x e ≡ false) xs
Alike-apart r x [] [] a same h = tt
Alike-apart r x [] (e' ∷ xs) a same h = elim same [ ]
Alike-apart r x (e ∷ rs) [] a same h = elim same [ ]
Alike-apart r x (e ∷ rs) (e' ∷ xs) (st, rid, ph, u) ((st', rid', ph', u'), same) (h, hs) =
    (rw (st, rid, ph, u, st', rid', ph', u') h, Alike-apart r x rs xs (st, rid, ph, u) same hs)

pub Alike-NoTwins : (rs xs : List QueueEntry) → Alike rs xs → NoTwins rs → NoTwins xs
Alike-NoTwins [] [] a h = tt
Alike-NoTwins [] (x ∷ xs) a h = elim a [ ]
Alike-NoTwins (r ∷ rs) [] a h = elim a [ ]
Alike-NoTwins (r ∷ rs) (x ∷ xs) (a, same) (h, hs) =
    (Alike-apart r x rs xs a same h, Alike-NoTwins rs xs same hs)

Alike-refl : (rs : List QueueEntry) → Alike rs rs
Alike-refl [] = tt
Alike-refl (r ∷ rs) = ((refl, refl, refl, refl), Alike-refl rs)

-- No row has the id, so an update changes none.
absent-Alike :
    (id : String) (g : QueueEntry → QueueEntry) (rows : List QueueEntry)
    → status_of id (board_of rows) ≡ none
    → Alike rows (replace id g rows)
absent-Alike id g [] h = tt
absent-Alike id g (r ∷ rs) h = elim (Bool-cases (str_eq r.id id)) [
  | inl e ↦ ground (arith, h, e)
  | inr e ↦ rw e ((refl, refl, refl, refl), absent-Alike id g rs (ground (arith, e, h)))
]

-- An update of one row that keeps what makes twins.
pub replace-Alike :
    (id : String) (g : QueueEntry → QueueEntry) (e : QueueEntry) (rows : List QueueEntry)
    → AreDistinct (board_of rows)
    → row_with id rows ≡ some e
    → IsAlike e (g e)
    → Alike rows (replace id g rows)
replace-Alike id g e [] d h a = tt
replace-Alike id g e (r ∷ rs) (fresh, d) h a = elim (Bool-cases (str_eq r.id id)) [
  | inl b ↦ rw b (
    subst (λ x. IsAlike x (g x)) (sym (ground (arith, b, h))) a,
    absent-Alike id g rs (ap (λ i. status_of i (board_of rs)) (sym ((eq_iff r.id id).0 b)) ∙ fresh),
  )
  | inr b ↦ rw b ((refl, refl, refl, refl), replace-Alike id g e rs d (ground (arith, b, h)) a)
]
