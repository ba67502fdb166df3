-- ===== src/Repository/Laws.antt =====
-- What the code relies on of the database client of `Client`, and the operations of
-- prisma/schema.prisma's tables that it comes to.
use mathlib.Core.List.{Memᴰ, Permᴰ}
use spotq_queue_service.Base.{
  not, ◌≤◌, ◌&&◌, ◌≡◌, String, Bool, true, false, Option, none, some, List, [], ◌∷◌, ◌++◌, map,
  length, filter, ℕ, take, drop, sum_by, or_else, str_eq, eq_iff, arith, if◌then◌else◌, All,
}
use spotq_queue_service.Entity.{QueueEntry}
use spotq_queue_service.World.{Tables, TableAssignment, StatusHistory, Client}

abbrev pub has_id : String → List QueueEntry → Bool
has_id id [] = false
has_id id (r ∷ rs) = if str_eq r.id id then true else has_id id rs

-- The row with an id.
abbrev pub row_with : String → List QueueEntry → Option QueueEntry
row_with id [] = none
row_with id (r ∷ rs) = let rest = row_with id rs in if str_eq r.id id then some r else rest

pub row_with-id :
    (id : String) (rows : List QueueEntry) (e : QueueEntry) → row_with id rows ≡ some e → e.id ≡ id
row_with-id id [] e h = ground arith
row_with-id id (r ∷ rs) e h = ground (arith, eq_iff r.id id, row_with-id id rs e)

abbrev pub replace : String → (QueueEntry → QueueEntry) → List QueueEntry → List QueueEntry
replace id g [] = []
replace id g (r ∷ rs) = (if str_eq r.id id then g r else r) ∷ replace id g rs

abbrev pub remove : String → List QueueEntry → List QueueEntry
remove id [] = []
remove id (r ∷ rs) = let rest = remove id rs in if str_eq r.id id then rest else r ∷ rest

abbrev pub mark :
    (TableAssignment → Bool)
    → (TableAssignment → TableAssignment)
    → TableAssignment
    → TableAssignment
mark p g a = if p a then g a else a

-- A row found is one of those asked for; if none is found, there is none.
abbrev pub Found : (QueueEntry → Bool) → List QueueEntry → Option QueueEntry → Type 0
Found p rows none = All (λ r. p r ≡ false) rows
Found p rows (some r) = (p r ≡ true) × Memᴰ r rows

-- Rows in an order that leaves none of them tied: such a query has one answer, and its pages are parts
-- of it. Where rows are tied, nothing is relied on of what comes first.
abbrev pub Untied : (QueueEntry → QueueEntry → Bool) → List QueueEntry → Type 0
Untied le [] = Unit
Untied le (r ∷ rs) = All (λ x. not (le r x && le x r) ≡ true) rs × Untied le rs

pub record IsRanking (le : QueueEntry → QueueEntry → Bool) (rows : List QueueEntry) : Type 0 where
  pub total : (a b : QueueEntry) → le a b ≡ false → le b a ≡ true
  pub transitive : (a b c : QueueEntry) → le a b ≡ true → le b c ≡ true → le a c ≡ true
  pub untied : Untied le rows

pub record Lawful (c : Client) : Type 0 where
  pub find_unique :
      (id : String) (rows : List QueueEntry) → c.find_unique id rows ≡ row_with id rows
  pub find_first :
      (p : QueueEntry → Bool) (le : QueueEntry → QueueEntry → Bool) (rows : List QueueEntry)
      → Found p rows (c.find_first p le rows)
  pub find_many :
      (p : QueueEntry → Bool) (le : QueueEntry → QueueEntry → Bool) (rows : List QueueEntry)
      → Permᴰ (c.find_many p le rows) (filter p rows)
  pub find_page :
      (p : QueueEntry → Bool) (le : QueueEntry → QueueEntry → Bool) (skip n : ℕ)
      (rows : List QueueEntry)
      → IsRanking le (filter p rows)
      → c.find_page p le skip n rows ≡ take n (drop skip (c.find_many p le rows))
  pub page_length :
      (p : QueueEntry → Bool) (le : QueueEntry → QueueEntry → Bool) (skip n : ℕ)
      (rows : List QueueEntry)
      → length (c.find_page p le skip n rows) ≤ n
  pub count :
      (p : QueueEntry → Bool) (rows : List QueueEntry) → c.count p rows ≡ length (filter p rows)
  pub sum_party_size :
      (p : QueueEntry → Bool) (rows : List QueueEntry)
      → or_else (c.sum_party_size p rows) 0 ≡ sum_by (λ r. r.party_size) (filter p rows)
  pub create :
      (e : QueueEntry) (rows : List QueueEntry)
      → c.create e rows ≡ (if has_id e.id rows then none else some (rows ++ e ∷ []))
  pub update :
      (id : String) (g : QueueEntry → QueueEntry) (rows : List QueueEntry)
      → c.update id g rows ≡ (if has_id id rows then some (replace id g rows) else none)
  pub delete :
      (id : String) (rows : List QueueEntry)
      → c.delete id rows ≡ (if has_id id rows then some (remove id rows) else none)
  pub create_history :
      (h : StatusHistory) (rows : List StatusHistory) → c.create_history h rows ≡ rows ++ h ∷ []
  pub create_assignments :
      (new rows : List TableAssignment) → c.create_assignments new rows ≡ rows ++ new
  pub update_assignments :
      (p : TableAssignment → Bool) (g : TableAssignment → TableAssignment)
      (rows : List TableAssignment)
      → c.update_assignments p g rows ≡ map (mark p g) rows
  pub find_assignments :
      (p : TableAssignment → Bool) (rows : List TableAssignment)
      → Permᴰ (c.find_assignments p rows) (filter p rows)
  pub rollback : (s t : Tables) → c.rollback s t ≡ s
