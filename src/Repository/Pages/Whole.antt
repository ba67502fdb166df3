-- ===== src/Repository/Pages/Whole.antt =====
-- Pages of `findPaginated` of src/infrastructure/database/repositories/prisma-base.repository.ts, one
-- after the other.
use mathlib.Core.Path.{subst}
use mathlib.Core.List.{Permᴰ}
use native.Mathlib.Nat.{suc-mul, zero-mul}
use spotq_queue_service.Base.{
  ℕ, zero, suc, ◌*◌, ◌≤◌, ◌≡◌, refl, sym, ap, ◌∙◌, Bool, List, [], ◌++◌, length, filter, take, drop,
  take-plus, take_all, length-Perm, arith,
}
use spotq_queue_service.Entity.{QueueEntry}
use spotq_queue_service.World.{World, Tables, Env, Client}
use spotq_queue_service.Exec.{Exec, pure, ◌>>=◌}
use spotq_queue_service.Exec.Rules.{
  Ensures, Ensures-bind, Ensures-given, Ensures-return, Post, Post-weaken,
}
use spotq_queue_service.Repository.Laws.{Lawful, IsRanking}
use spotq_queue_service.Repository.Rules.{Ensures-run, Ensures-query, Fails}
use spotq_queue_service.Repository.Pages.{Page, page_size, page_start, find_paginated}

page_start-page_size : (n limit : ℕ) → page_start (suc n) limit ≡ n * page_size limit
unfolding page_start
page_start-page_size n limit = ap (λ k. k * page_size limit) (omega arith)

pub page_size-bounds : (limit : ℕ) → (1 ≤ page_size limit) × (page_size limit ≤ 100)
unfolding page_size
page_size-bounds limit = (omega arith, omega arith)

next_page :
    (rows : List QueueEntry) (n limit : ℕ) (before items : List QueueEntry)
    → before ≡ take (n * page_size limit) rows
    → items ≡ take (page_size limit) (drop (page_start (suc n) limit) rows)
    → before ++ items ≡ take (suc n * page_size limit) rows
next_page rows n limit before items b q =
    rw (b, q, page_start-page_size n limit)
      (sym (
        ap (λ k. take k rows) (suc-mul n (page_size limit))
        ∙ take-plus (n * page_size limit) (page_size limit) rows))

module _ (env : Env) (client : Client) (p : QueueEntry → Bool) (le : QueueEntry → QueueEntry → Bool)
    (limit : ℕ) where
  -- The first `n` pages.
  unfoldable pub read_pages : ℕ → Exec (List QueueEntry)
  unfolding ◌>>=◌
  read_pages zero = pure []
  read_pages (suc n) = do
    before ← read_pages n
    page ← find_paginated env client p le (suc n) limit
    pure (before ++ page.items)

  module _ (lawful : Lawful client) (s : Tables) where
    abbrev IsPage : ℕ → Page → Type 0
    IsPage n page =
        (page.items ≡ client.find_page p le (page_start n limit) (page_size limit) s.entries)
        × (page.total ≡ length (filter p s.entries))

    find_paginated-Ensures :
        (n : ℕ)
        → Ensures
            (λ t. t ≡ s)
            (find_paginated env client p le n limit)
            (λ page t. (t ≡ s) × IsPage n page)
            (λ t. (t ≡ s) × Fails env)
    unfolding find_paginated
    find_paginated-Ensures n = Ensures-run (
        Ensures-bind
          (Ensures-query
            {Q = λ rows t.
              (t ≡ s)
              × (rows ≡ client.find_page p le (page_start n limit) (page_size limit) s.entries)}
            env client _ s (λ k x e. (refl, (k, x, e))) (refl, refl))
          λ rows. Ensures-given λ r.
            Ensures-bind
              (Ensures-query {Q = λ c t. (t ≡ s) × (c ≡ length (filter p s.entries))} env client _ s
                (λ k x e. (refl, (k, x, e))) (refl, lawful.count p s.entries))
              λ c. Ensures-given λ q. Ensures-return _ (λ t h. (h, (r, q))))

    read_pages-Ensures :
        IsRanking le (filter p s.entries)
        → (n : ℕ)
        → Ensures
            (λ t. t ≡ s)
            (read_pages n)
            (λ rows t.
              (t ≡ s) × (rows ≡ take (n * page_size limit) (client.find_many p le s.entries)))
            (λ t. (t ≡ s) × Fails env)
    unfolding read_pages
    read_pages-Ensures ranked zero = Ensures-return _ (λ t h.
        (h, sym (ap (λ k. take k (client.find_many p le s.entries)) (zero-mul (page_size limit)))))
    read_pages-Ensures ranked (suc n) = Ensures-bind (read_pages-Ensures ranked n) λ before.
        Ensures-given λ b. Ensures-bind (find_paginated-Ensures (suc n)) λ page. Ensures-given λ q.
          Ensures-return _ λ t h. (
            h,
            next_page (client.find_many p le s.entries) n limit before page.items b
                (q.0 ∙ lawful.find_page p le _ _ s.entries ranked),
          )

-- If the rows are asked for in a total order in which no two that match are tied, and so many pages
-- are read that all of these fit on them, every one is read once, whatever the limit asked for;
-- reading fails only if the database does, and changes nothing.
pub read_pages-whole :
    (env : Env) (client : Client)
    → Lawful client
    → (p : QueueEntry → Bool) (le : QueueEntry → QueueEntry → Bool) (n limit : ℕ) (w : World)
    → IsRanking le (filter p w.tables.entries)
    → length (filter p w.tables.entries) ≤ n * page_size limit
    → Post
        (λ rows t. (t ≡ w.tables) × Permᴰ rows (filter p w.tables.entries))
        (λ t. (t ≡ w.tables) × Fails env)
        (read_pages env client p le limit n w)
read_pages-whole env client lawful p le n limit w ranked h =
    let found = lawful.find_many p le w.tables.entries in
    Post-weaken
      (λ rows t q. (
        q.0,
        subst (λ l. Permᴰ l (filter p w.tables.entries))
            (sym (
              q.1
              ∙ take_all (n * page_size limit) (client.find_many p le w.tables.entries)
                  (omega (arith, length-Perm found))))
            found,
      ))
      (λ t q. q) (read_pages env client p le limit n w)
      ((read_pages-Ensures env client p le limit lawful w.tables ranked n).at w refl)

-- A page has at most as many rows as its size, which is from 1 to 100 whatever the limit asked for,
-- and comes with the number of all rows that match.
pub find_paginated-bounds :
    (env : Env) (client : Client)
    → Lawful client
    → (p : QueueEntry → Bool) (le : QueueEntry → QueueEntry → Bool) (page limit : ℕ) (w : World)
    → Post
        (λ out t.
          (length out.items ≤ page_size limit)
          × (1 ≤ page_size limit)
          × (page_size limit ≤ 100)
          × (out.total ≡ length (filter p w.tables.entries)))
        (λ t. Fails env)
        (find_paginated env client p le page limit w)
find_paginated-bounds env client lawful p le page limit w =
    Post-weaken
      (λ out t q. (
        subst (λ l. length l ≤ page_size limit) (sym q.1.0)
            (lawful.page_length p le (page_start page limit) (page_size limit) w.tables.entries),
        (page_size-bounds limit).0,
        (page_size-bounds limit).1,
        q.1.1,
      ))
      (λ t q. q.1) (find_paginated env client p le page limit w)
      ((find_paginated-Ensures env client p le limit lawful w.tables page).at w refl)
