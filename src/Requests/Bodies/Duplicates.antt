-- ===== src/Requests/Bodies/Duplicates.antt =====
-- Which bodies the schemas of src/presentation/http/validators/queue/seat-party.validator.ts and
-- src/presentation/http/validators/assign-table.validator.ts let pass.
use spotq_queue_service.Base.{
  ℕ, ◌+◌, String, ◌≡◌, refl, inl, inr, Bool, true, ◌&&◌, some, List, [], ◌∷◌, map, length, leb, ap,
  ◌∙◌, not, none, eq_iff, arith, if◌then◌else◌, Bool-cases,
}
use spotq_queue_service.Requests.Bodies.{
  is_seen, duplicate_issues, has_none, all_of, all_positive, seat_party_body, assign_tables_body,
}

-- No two texts of the list are the same.
abbrev pub is_distinct : List String → Bool
is_distinct [] = true
is_distinct (x ∷ xs) = not (is_seen x xs) && is_distinct xs

-- None of the texts is among those seen.
abbrev is_new : List String → List String → Bool
is_new seen [] = true
is_new seen (x ∷ xs) = not (is_seen x seen) && is_new seen xs

is_new-cons :
    (x : String) (seen xs : List String)
    → is_new (x ∷ seen) xs ≡ not (is_seen x xs) && is_new seen xs
is_new-cons x seen [] = refl
is_new-cons x seen (y ∷ xs) = ground (arith, is_new-cons x seen xs, eq_iff x y, eq_iff y x)

is_new-nothing : (xs : List String) → is_new [] xs ≡ true
is_new-nothing [] = refl
is_new-nothing (x ∷ xs) = is_new-nothing xs

duplicate_issues_lem :
    (seen : List String) (index : ℕ) (xs : List String)
    → has_none (duplicate_issues seen index xs) ≡ is_new seen xs && is_distinct xs
unfolding duplicate_issues
duplicate_issues_lem seen index [] = refl
duplicate_issues_lem seen index (x ∷ xs) = elim (Bool-cases (is_seen x seen)) [
  | inl old ↦ rw old refl
  | inr fresh ↦
      ground (arith, fresh, duplicate_issues_lem (x ∷ seen) (index + 1) xs, is_new-cons x seen xs)
]

no_duplicates : (xs : List String) → has_none (duplicate_issues [] 0 xs) ≡ is_distinct xs
no_duplicates xs = duplicate_issues_lem [] 0 xs ∙ ap (λ b. b && is_distinct xs) (is_new-nothing xs)

-- The reference: at least one table, and all of them UUIDs without repetition.
abbrev pub are_tables : (String → Bool) → List String → Bool
are_tables p ids = leb 1 (length ids) && all_of p ids && is_distinct ids

-- The schemas let a list of tables pass, unchanged, exactly if there is at least one, each id is a
-- UUID and none occurs twice, and, where seats are assigned, each has at least one.
pub bodies_exact :
    (p : String → Bool) (ids : List String) (tables : List (String × ℕ))
    → (seat_party_body p (some ids) ≡ (if are_tables p ids then some ids else none))
      × (assign_tables_body p (some tables) ≡ (
          if are_tables p (map (λ t. t.0) tables) && all_positive tables
          then some tables
          else none))
unfolding seat_party_body assign_tables_body
bodies_exact p ids tables =
    (rw (no_duplicates ids) refl, ground (arith, no_duplicates (map (λ t. t.0) tables)))
