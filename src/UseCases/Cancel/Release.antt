-- ===== src/UseCases/Cancel/Release.antt =====
-- The release of the tables of a party in
-- src/application/use-cases/queue/cancel-queue-entry.use-case.ts.
use mathlib.Core.List.{Permᴰ}
use spotq_queue_service.Base.{
  ℕ, ◌≡◌, refl, ◌∙◌, ap, sym, ◌⊎◌, inl, inr, String, Bool, ◌&&◌, not, is_some, some, List, [], ◌∷◌,
  map, filter, length, length-Perm, str_eq, arith, Bool-cases,
}
use spotq_queue_service.World.{Tables, TableAssignment, Env, Client}
use spotq_queue_service.Entity.{QueueEntry}
use spotq_queue_service.Exec.Rules.{
  Ensures, Ensures-bind, Ensures-quiet, Ensures-new_date, Ensures-return,
}
use spotq_queue_service.Services.Quiet.{Quiet-call_upstream}
use spotq_queue_service.Repository.Laws.{Lawful, mark}
use spotq_queue_service.Repository.Queries.{find_active_table_assignments}
use spotq_queue_service.Repository.Writes.{released, release_table_assignments}
use spotq_queue_service.Repository.Rules.{Ensures-run, Ensures-call_db, Ensures-query}
use spotq_queue_service.UseCases.Cancel.{Input, release_held}

-- A party still holds a table.
abbrev pub is_held : String → TableAssignment → Bool
is_held id a = str_eq a.queue_entry_id id && not (is_some a.released_at)

abbrev pub freed : ℕ → TableAssignment → TableAssignment
freed now a = record a { released_at = some now }

-- Every table that the party held is released, and no other assignment is changed.
abbrev pub freed_tables : String → ℕ → Tables → Tables
freed_tables id now t = record t { assignments = map (mark (is_held id) (freed now)) t.assignments }

abbrev pub IsRelease : String → Tables → Tables → Type 0
IsRelease id s t = (now : ℕ) × (t ≡ freed_tables id now s)

-- No release, or the whole one.
abbrev pub MayRelease : String → Tables → Tables → Type 0
MayRelease id s t = (t ≡ s) ⊎ IsRelease id s t

-- Where no table is held, there is nothing to release.
mark-none :
    (id : String) (now : ℕ) (rows : List TableAssignment)
    → filter (is_held id) rows ≡ []
    → map (mark (is_held id) (freed now)) rows ≡ rows
mark-none id now [] h = refl
mark-none id now (a ∷ rows) h = elim (Bool-cases (is_held id a)) [
  | inl b ↦ ground (arith, h, b)
  | inr b ↦ rw b (ap (λ as'. a ∷ as') (mark-none id now rows (ground (arith, h, b))))
]

none_left :
    (p : TableAssignment → Bool) (rows : List TableAssignment)
    → Permᴰ [] (filter p rows)
    → filter p rows ≡ []
none_left p rows h = empty (filter p rows) (sym (length-Perm h))
  where
    empty : (xs : List TableAssignment) → length xs ≡ 0 → xs ≡ []
    empty [] e = refl
    empty (x ∷ xs) e = ground (arith, e)

module _ (env : Env) {client : Client} (lawful : Lawful client) (input : Input) (s : Tables) where
  -- What the query of the handler finds.
  abbrev pub held : List TableAssignment
  held = client.find_assignments (is_held input.queue_entry_id) s.assignments

  pub find_held-Ensures :
      Ensures
        (λ t. t ≡ s)
        (find_active_table_assignments env client input.queue_entry_id)
        (λ active t. (t ≡ s) × (active ≡ held))
        (λ t. t ≡ s)
  unfolding find_active_table_assignments
  find_held-Ensures = Ensures-run (
      Ensures-query {Q = λ active t. (t ≡ s) × (active ≡ held)} env client _ s (λ k x e. refl)
        (refl, refl))

  released-freed_tables :
      (now : ℕ)
      → released env client input.queue_entry_id now s ≡ freed_tables input.queue_entry_id now s
  unfolding released
  released-freed_tables now =
      ap (λ rows. record s { assignments = rows })
        (lawful.update_assignments (is_held input.queue_entry_id) (freed now) s.assignments)

  release_table_assignments-Ensures :
      Ensures
        (λ t. t ≡ s)
        (release_table_assignments env client input.queue_entry_id)
        (λ _. IsRelease input.queue_entry_id s)
        (λ t. t ≡ s)
  unfolding release_table_assignments
  release_table_assignments-Ensures = Ensures-run (
      Ensures-bind (Ensures-new_date env) λ now.
        Ensures-call_db env client _ (λ k x t e p. p)
          (λ t p.
            (now, ap (released env client input.queue_entry_id now) p ∙ released-freed_tables now)))

  pub release_held-Ensures :
      (e : QueueEntry) (active : List TableAssignment)
      → active ≡ held
      → Ensures
          (λ t. t ≡ s)
          (release_held env client input e active)
          (λ _. IsRelease input.queue_entry_id s)
          (λ t. t ≡ s)
  unfolding release_held
  release_held-Ensures e [] h = Ensures-return tt (λ t p. (
    0,
    p
        ∙ ap (λ rows. record s { assignments = rows })
            (sym (
              mark-none input.queue_entry_id 0 s.assignments (
                none_left (is_held input.queue_entry_id) s.assignments
                  (rw h (lawful.find_assignments (is_held input.queue_entry_id) s.assignments))))),
  ))
  release_held-Ensures e (a ∷ active) h =
      Ensures-bind (Ensures-quiet (λ t. t ≡ s) (λ t p. p) (Quiet-call_upstream env _))
        λ _. release_table_assignments-Ensures
