-- ===== src/UseCases/Skip/Splice/Order.antt =====
-- What the two calls of `splice` in src/application/use-cases/queue/skip-party.use-case.ts come to.
use mathlib.Core.List.{Permᴰ}
use mathlib.Core.List.Permᴰ as Perm
use spotq_queue_service.Base.{
  ℕ, zero, suc, ◌≡◌, refl, ◌∙◌, ap, ◌+◌, ◌-◌, ◌≤◌, ◌<◌, min, String, none, some, List, [], ◌∷◌,
  length, arith, str_eq, eq_iff, Bool-cases, Option-cases, inl, inr, ◌⊎◌,
}
use spotq_queue_service.Entity.{QueueEntry}
use spotq_queue_service.Repository.Writes.{PositionUpdate}
use spotq_queue_service.UseCases.Skip.Splice.{
  find_index, target_index, remove_at, element_at, insert_at, shifted, renumber,
}

module _ {ℓ} {A : Type ℓ} where
  insert_at-Perm : (i : ℕ) (a : A) (xs : List A) → Permᴰ (insert_at i a xs) (a ∷ xs)
  unfolding insert_at
  insert_at-Perm zero a xs = Perm.refl _
  insert_at-Perm (suc i) a [] = Perm.refl _
  insert_at-Perm (suc i) a (x ∷ xs) =
      Permᴰ.trans (Permᴰ.cons refl (insert_at-Perm i a xs)) (Permᴰ.swap refl refl)

  remove_at-Perm :
      (i : ℕ) (a : A) (xs : List A) → element_at i xs ≡ some a → Permᴰ (a ∷ remove_at i xs) xs
  unfolding remove_at element_at
  remove_at-Perm i a [] h = ground arith
  remove_at-Perm zero a (x ∷ xs) h = Permᴰ.cons (ground arith) (Perm.refl xs)
  remove_at-Perm (suc i) a (x ∷ xs) h =
      Permᴰ.trans (Permᴰ.swap refl refl) (Permᴰ.cons refl (remove_at-Perm i a xs h))

  element_at-insert_at :
      (i : ℕ) (a : A) (xs : List A) → i ≤ length xs → element_at i (insert_at i a xs) ≡ some a
  unfolding element_at insert_at
  element_at-insert_at zero a xs h = refl
  element_at-insert_at (suc i) a [] h = ground arith
  element_at-insert_at (suc i) a (x ∷ xs) h = element_at-insert_at i a xs (ground arith)

  remove_at-insert_at :
      (i : ℕ) (a : A) (xs : List A) → i ≤ length xs → remove_at i (insert_at i a xs) ≡ xs
  unfolding remove_at insert_at
  remove_at-insert_at zero a xs h = refl
  remove_at-insert_at (suc i) a [] h = ground arith
  remove_at-insert_at (suc i) a (x ∷ xs) h =
      ap (λ ys. x ∷ ys) (remove_at-insert_at i a xs (ground arith))

  length-remove_at :
      (i : ℕ) (a : A) (xs : List A)
      → element_at i xs ≡ some a
      → suc (length (remove_at i xs)) ≡ length xs
  unfolding remove_at element_at
  length-remove_at i a [] h = ground arith
  length-remove_at zero a (x ∷ xs) h = refl
  length-remove_at (suc i) a (x ∷ xs) h = ap suc (length-remove_at i a xs h)

  -- The element at `i` is moved to `j`, all others keep their order, and nothing is lost.
  pub record IsShift (i j : ℕ) (a : A) (xs ys : List A) : Type ℓ where
    pub same_elements : Permᴰ ys xs
    pub at_target : element_at j ys ≡ some a
    pub others_in_order : remove_at j ys ≡ remove_at i xs

  shifted-IsShift :
      (i j : ℕ) (a : A) (xs : List A)
      → element_at i xs ≡ some a
      → j < length xs
      → IsShift i j a xs (shifted i j xs)
  unfolding shifted
  shifted-IsShift i j a xs h below = rw h (record {
    same_elements = Permᴰ.trans (insert_at-Perm j a _) (remove_at-Perm i a xs h);
    at_target = element_at-insert_at j a _ (omega (arith, below, length-remove_at i a xs h));
    others_in_order = remove_at-insert_at j a _ (omega (arith, below, length-remove_at i a xs h));
  })

found_at :
    (id : String) (e : QueueEntry) (es : List QueueEntry) (i : ℕ)
    → find_index id (e ∷ es) ≡ some i
    → ((e.id ≡ id) × (i ≡ 0)) ⊎ ((j : ℕ) × (find_index id es ≡ some j) × (i ≡ suc j))
unfolding find_index
found_at id e es i h = elim (Bool-cases (str_eq e.id id)) [
  | inl b ↦ inl ((eq_iff e.id id).0 b, ground (arith, b))
  | inr b ↦ elim (Option-cases (find_index id es)) [
    | inl n ↦ ground (arith, b, n)
    | inr (j, p) ↦ inr (j, p, ground (arith, b, p))
  ]
]

-- An index that is found is that of an entry with the id.
find_index-element_at :
    (id : String) (es : List QueueEntry) (i : ℕ)
    → find_index id es ≡ some i
    → (e : QueueEntry) × (element_at i es ≡ some e) × (e.id ≡ id)
unfolding element_at find_index
find_index-element_at id [] i h = ground arith
find_index-element_at id (e ∷ es) i h = elim (found_at id e es i h) [
  | inl (same, z) ↦ (e, rw z refl, same)
  | inr (j, p, s) ↦ let (e', q, same) = find_index-element_at id es j p in (e', rw s q, same)
]

element_at-length {ℓ} :
    {A : Type ℓ} (i : ℕ) (a : A) (xs : List A) → element_at i xs ≡ some a → i < length xs
unfolding element_at
element_at-length i a [] h = ground arith
element_at-length zero a (x ∷ xs) h = ground arith
element_at-length (suc i) a (x ∷ xs) h = ground (arith, element_at-length i a xs h)

abbrev pub place_update : String → ℕ → PositionUpdate
place_update id position = record {
  id = id;
  position = some position;
  estimated_wait_minutes = none;
}

element_at-renumber :
    (k i : ℕ) (e : QueueEntry) (es : List QueueEntry)
    → element_at i es ≡ some e
    → element_at i (renumber k es) ≡ some (place_update e.id (k + i + 1))
unfolding element_at renumber
element_at-renumber k i e [] h = ground arith
element_at-renumber k zero e (x ∷ xs) h = ground arith
element_at-renumber k (suc i) e (x ∷ xs) h = ground (arith, element_at-renumber (k + 1) i e xs h)

update_same : (k : ℕ) {x y : String} → x ≡ y → place_update x (0 + k + 1) ≡ place_update y (k + 1)
update_same k p = ground arith

-- A party that is skipped by some places and waits in the queue moves down by as many, or to the end
-- of the queue; nobody is lost, the others keep their order, and the party's new position is written
-- as one more than the place it is at.
pub shift_lem :
    (id : String) (n i : ℕ) (es : List QueueEntry)
    → find_index id es ≡ some i
    → (e : QueueEntry) × (e.id ≡ id)
      × IsShift i (target_index i n (length es)) e es (shifted i (target_index i n (length es)) es)
      × (element_at
            (target_index i n (length es))
            (renumber 0 (shifted i (target_index i n (length es)) es))
          ≡ some (place_update id (target_index i n (length es) + 1)))
      × (target_index i n (length es) ≡ min (i + n) (length es - 1))
      × (i ≤ target_index i n (length es))
unfolding target_index
shift_lem id n i es h =
    let (e, at, same) = find_index-element_at id es i h in
    let inside = element_at-length i e es at in
    let moves = shifted-IsShift i (min (i + n) (length es - 1)) e es at (omega (arith, inside)) in
    (
      e,
      same,
      moves,
      element_at-renumber 0 (min (i + n) (length es - 1)) e _ moves.at_target
          ∙ ap (λ x. some x) (update_same _ same),
      refl,
      omega (arith, inside),
    )
