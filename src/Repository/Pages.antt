-- ===== src/Repository/Pages.antt =====
-- `create`, `update`, `delete`, `findPaginated` and `findOne` of
-- src/infrastructure/database/repositories/prisma-base.repository.ts. Page and limit are not
-- negative here: the source reads a negative one as it reads zero.
pub mod Whole
use spotq_queue_service.Base.{ℕ, ◌-◌, ◌*◌, min, max, String, Bool, true, Option, none, some, List}
use spotq_queue_service.Errors.{Failure, known_request, Result, ok, err}
use spotq_queue_service.Entity.{QueueEntry}
use spotq_queue_service.World.{Tables, Env, Client}
use spotq_queue_service.Exec.{Exec, pure, ◌>>=◌, ◌>>◌}
use spotq_queue_service.Repository.Calls.{run, query, call_db, create_row, written}

abbrev pub max_page_size : ℕ
max_page_size = 100

unfoldable pub page_size : ℕ → ℕ
page_size limit = min (max limit 1) max_page_size

unfoldable pub page_start : ℕ → ℕ → ℕ
unfolding page_size
page_start page limit = (max page 1 - 1) * page_size limit

pub record Page : Type 0 where
  pub items : List QueueEntry
  pub total : ℕ

-- The row that `update` gives back.
abbrev pub updated :
    Tables
    → (QueueEntry → QueueEntry)
    → Option QueueEntry
    → Option (List QueueEntry)
    → Result QueueEntry × Tables
updated t g (some r) (some rows) = (ok (g r), record t { entries = rows })
updated t g _ _ = (err (known_request "P2025"), t)

module _ (env : Env) (client : Client) where
  unfoldable pub create_entity : QueueEntry → Exec QueueEntry
  unfolding run create_row ◌>>=◌
  create_entity e = do run (create_row env client e); pure e

  unfoldable pub update_entity : String → (QueueEntry → QueueEntry) → Exec QueueEntry
  unfolding run call_db
  update_entity id g = run (
      call_db env client
        (λ t. updated t g (client.find_unique id t.entries) (client.update id g t.entries)))

  unfoldable pub delete_entity : String → Exec (Unit {0})
  unfolding run call_db
  delete_entity id = run (
      call_db env client
        (λ t. written env client t (client.delete id t.entries) (known_request "P2025")))

  unfoldable pub find_paginated :
      (QueueEntry → Bool) → (QueueEntry → QueueEntry → Bool) → ℕ → ℕ → Exec Page
  unfolding run query page_size page_start ◌>>=◌
  find_paginated p le page limit = run (do
    records ←
        query env client
          (λ t. client.find_page p le (page_start page limit) (page_size limit) t.entries)
    total ← query env client (λ t. client.count p t.entries)
    pure (record { items = records; total = total }))

  unfoldable pub find_one : (QueueEntry → Bool) → Exec (Option QueueEntry)
  unfolding run query
  find_one p = run (query env client (λ t. client.find_first p (λ a b. true) t.entries))
