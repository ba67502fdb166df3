-- ===== src/UseCases/StaffQueue/Lines.antt =====
-- The list that src/application/use-cases/get-staff-queue.use-case.ts answers with.
use mathlib.Core.Path.{subst}
use mathlib.Core.List.{Permᴰ}
use spotq_queue_service.Base.{
  ℕ, ◌+◌, ◌≡◌, refl, sym, ap, ◌∙◌, String, Bool, true, false, Option, none, some, List, [], ◌∷◌,
  map, length, filter, All-Perm, All-filter, All, arith, if◌then◌else◌,
}
use spotq_queue_service.Errors.{QueueStatus}
use spotq_queue_service.Entity.{QueueEntry, is_waiting}
use spotq_queue_service.World.{World, Tables, TableAssignment, Env, Client}
use spotq_queue_service.Exec.Rules.{
  Ensures, Ensures-bind, Ensures-given, Ensures-return, Post, Ensures-new_date,
}
use spotq_queue_service.Repository.Laws.{Lawful}
use spotq_queue_service.Repository.Rules.{Ensures-run, Ensures-query, Fails}
use spotq_queue_service.Repository.Queries.{waits_at}
use spotq_queue_service.Repository.Dashboard.{
  Filters, Snapshot, same_status, is_listed, by_joined, item_of, snapshot_of,
  get_staff_queue_snapshot,
}
use spotq_queue_service.UseCases.StaffQueue.{
  Input, LiveEntry, Output, live_entry, map_to_live_queue_entries, filters_of, get_staff_queue,
}

-- The places from `next` on.
abbrev pub places : ℕ → List QueueEntry → List (Option ℕ)
places next [] = []
places next (r ∷ rs) = some next ∷ places (next + 1) rs

abbrev pub no_places : List QueueEntry → List (Option ℕ)
no_places [] = []
no_places (r ∷ rs) = none ∷ no_places rs

abbrev pub same_places : Bool → List QueueEntry → List (Option ℕ)
same_places b rows = if b then places 1 rows else no_places rows

module _ (client : Client) (id_le : String → String → Bool) (now : ℕ)
    (tables : List TableAssignment) where
  abbrev lines : ℕ → List QueueEntry → List LiveEntry
  lines next rows = map_to_live_queue_entries next (map (item_of client id_le tables) rows) now

  lines-ids :
      (next : ℕ) (rows : List QueueEntry)
      → map (λ e. e.queue_entry_id) (lines next rows) ≡ map (λ r. r.id) rows
  unfolding map_to_live_queue_entries live_entry item_of
  lines-ids next [] = refl
  lines-ids next (r ∷ rs) =
      ap (λ l. r.id ∷ l) (lines-ids (if is_waiting r.status then next + 1 else next) rs)

  lines-places :
      (next : ℕ) (rows : List QueueEntry)
      → All (λ r. is_waiting r.status ≡ true) rows
      → map (λ e. e.position) (lines next rows) ≡ places next rows
  unfolding map_to_live_queue_entries live_entry item_of
  lines-places next [] h = refl
  lines-places next (r ∷ rs) h = rw h.0 (ap (λ l. some next ∷ l) (lines-places (next + 1) rs h.1))

  lines-no_places :
      (next : ℕ) (rows : List QueueEntry)
      → All (λ r. is_waiting r.status ≡ false) rows
      → map (λ e. e.position) (lines next rows) ≡ no_places rows
  unfolding map_to_live_queue_entries live_entry item_of
  lines-no_places next [] h = refl
  lines-no_places next (r ∷ rs) h = rw h.0 (ap (λ l. none ∷ l) (lines-no_places next rs h.1))

same_status-waiting : (a b : QueueStatus) → same_status a b ≡ true → is_waiting a ≡ is_waiting b
same_status-waiting a b h = ground arith

-- The answer to a request: those of the restaurant with the status and the party size, numbered from
-- one if they wait, and how many wait at the restaurant.
pub record IsBoard (s : Tables) (input : Input) (out : Output) : Type 0 where
  pub total : out.total_waiting ≡ length (filter (waits_at input.restaurant_id) s.entries)
  pub rows : List QueueEntry
  pub listed : Permᴰ rows (filter (is_listed input.restaurant_id (filters_of input)) s.entries)
  pub ids : map (λ e. e.queue_entry_id) out.entries ≡ map (λ r. r.id) rows
  pub positions :
      map (λ e. e.position) out.entries ≡ same_places (is_waiting (filters_of input).status) rows

abbrev output_of : Input → Snapshot → ℕ → Output
output_of input v now = record {
  restaurant_id = input.restaurant_id;
  total_waiting = v.total_waiting;
  entries = map_to_live_queue_entries 1 v.items now;
}

listed-status :
    (id : String) (f : Filters) (r : QueueEntry)
    → is_listed id f r ≡ true
    → is_waiting r.status ≡ is_waiting f.status
unfolding is_listed
listed-status id f r h = same_status-waiting r.status f.status (ground (arith, h))

All-status :
    (id : String) (f : Filters) (rows : List QueueEntry) (b : Bool)
    → is_waiting f.status ≡ b
    → All (λ r. is_listed id f r ≡ true) rows
    → All (λ r. is_waiting r.status ≡ b) rows
All-status id f [] b e h = tt
All-status id f (r ∷ rs) b e h = (listed-status id f r h.0 ∙ e, All-status id f rs b e h.1)

module _ (env : Env) (client : Client) (lawful : Lawful client) (id_le : String → String → Bool)
    (input : Input) (s : Tables) where
  abbrev found : List QueueEntry
  found =
      client.find_many (is_listed input.restaurant_id (filters_of input)) (by_joined id_le)
        s.entries

  found-places :
      (now : ℕ) (b : Bool)
      → is_waiting (filters_of input).status ≡ b
      → map (λ e. e.position) (lines client id_le now s.assignments 1 found) ≡ same_places b found
  found-places now true e = lines-places client id_le now s.assignments 1 found (
      All-status input.restaurant_id (filters_of input) found true e (
        All-Perm (is_listed input.restaurant_id (filters_of input)) (lawful.find_many _ _ s.entries)
          (All-filter _ s.entries)))
  found-places now false e = lines-no_places client id_le now s.assignments 1 found (
      All-status input.restaurant_id (filters_of input) found false e (
        All-Perm (is_listed input.restaurant_id (filters_of input)) (lawful.find_many _ _ s.entries)
          (All-filter _ s.entries)))

  board :
      (now : ℕ)
      → IsBoard s input
          (output_of input (snapshot_of client id_le input.restaurant_id (filters_of input) s) now)
  unfolding snapshot_of
  board now = record {
    total = lawful.count (waits_at input.restaurant_id) s.entries;
    rows = found;
    listed = lawful.find_many _ _ s.entries;
    ids = lines-ids client id_le now s.assignments 1 found;
    positions = found-places now (is_waiting (filters_of input).status) refl;
  }

staff_queue-Ensures :
    (env : Env) (client : Client)
    → Lawful client
    → (id_le : String → String → Bool) (input : Input) (s : Tables)
    → Ensures
        (λ t. t ≡ s)
        (get_staff_queue env client id_le input)
        (λ out t. (t ≡ s) × IsBoard s input out)
        (λ t. (t ≡ s) × Fails env)
unfolding get_staff_queue get_staff_queue_snapshot
staff_queue-Ensures env client lawful id_le input s =
    Ensures-bind
      (Ensures-run (
        Ensures-query
          {Q = λ v t.
            (t ≡ s) × (v ≡ snapshot_of client id_le input.restaurant_id (filters_of input) s)}
          env client _ s (λ k x e. (refl, (k, x, e))) (refl, refl)))
      λ v. Ensures-given λ e. Ensures-bind (Ensures-new_date env) λ now. Ensures-return _ λ t p. (
        p,
        subst (λ u. IsBoard s input (output_of input u now)) (sym e)
            (board env client lawful id_le input s now),
      )

-- The staff's view of the queue reads the tables and leaves them as they were: if it answers, it has
-- how many wait at the restaurant and those of it with the status and the party size asked for, each
-- once, numbered from one on if they wait and without a number if not; it throws only if the database
-- failed.
pub get_staff_queue-IsBoard :
    (env : Env) (client : Client)
    → Lawful client
    → (id_le : String → String → Bool) (input : Input) (w : World)
    → Post
        (λ out t. (t ≡ w.tables) × IsBoard w.tables input out)
        (λ t. (t ≡ w.tables) × Fails env)
        (get_staff_queue env client id_le input w)
get_staff_queue-IsBoard env client lawful id_le input w =
    (staff_queue-Ensures env client lawful id_le input w.tables).at w refl
