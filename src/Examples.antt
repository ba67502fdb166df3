-- ===== src/Examples.antt =====
-- A database client in memory, a healthy environment and a small queue, on which the theorems are
-- applied.
pub mod Witnesses
pub mod Runs
pub mod Live
pub mod Reads
pub mod Web
pub mod Service
use mathlib.Core.List.{Memᴰ, Permᴰ}
use mathlib.Core.List.Permᴰ as Perm
use spotq_queue_service.Base.{
  length-take, ltb, ◌∙◌, ℕ, ◌≡◌, refl, ◌+◌, ◌*◌, String, Bool, true, false, Bool-cases, inl, inr,
  Option, none, some, List, [], ◌∷◌, ◌++◌, map, length, filter, take, drop, sum_by, or_else, str_eq,
  if◌then◌else◌, All, arith,
}
use spotq_queue_service.Errors.{waiting, online, walk_in, Result, ok}
use spotq_queue_service.Entity.{QueueEntry}
use spotq_queue_service.World.{
  World, Tables, RedisCommand, set_ex, del, LiveState, RestaurantStatus, TableAvailability, Env,
  Client, TableAssignment, StatusHistory,
}
use spotq_queue_service.Services.Cached.{IsDependable}
use spotq_queue_service.Repository.Laws.{Lawful, Found, row_with, has_id, replace, remove, mark}

abbrev insert : (QueueEntry → QueueEntry → Bool) → QueueEntry → List QueueEntry → List QueueEntry
insert le e [] = e ∷ []
insert le e (r ∷ rs) = let rest = insert le e rs in if le e r then e ∷ r ∷ rs else r ∷ rest

abbrev sort : (QueueEntry → QueueEntry → Bool) → List QueueEntry → List QueueEntry
sort le [] = []
sort le (r ∷ rs) = insert le r (sort le rs)

placed-Perm :
    (b : Bool) {e r : QueueEntry} {rs is : List QueueEntry}
    → Permᴰ is (e ∷ rs)
    → Permᴰ (if b then e ∷ r ∷ rs else r ∷ is) (e ∷ r ∷ rs)
placed-Perm true h = Perm.refl _
placed-Perm false h = Permᴰ.trans (Permᴰ.cons refl h) (Permᴰ.swap refl refl)

insert-Perm :
    (le : QueueEntry → QueueEntry → Bool) (e : QueueEntry) (rs : List QueueEntry)
    → Permᴰ (insert le e rs) (e ∷ rs)
insert-Perm le e [] = Perm.refl _
insert-Perm le e (r ∷ rs) = placed-Perm (le e r) (insert-Perm le e rs)

sort-Perm : (le : QueueEntry → QueueEntry → Bool) (rs : List QueueEntry) → Permᴰ (sort le rs) rs
sort-Perm le [] = Permᴰ.nil
sort-Perm le (r ∷ rs) =
    Permᴰ.trans (insert-Perm le r (sort le rs)) (Permᴰ.cons refl (sort-Perm le rs))

abbrev first : (QueueEntry → Bool) → List QueueEntry → Option QueueEntry
first p [] = none
first p (r ∷ rs) = let rest = first p rs in if p r then some r else rest

Found-skip :
    (p : QueueEntry → Bool) (r : QueueEntry) (rs : List QueueEntry) (o : Option QueueEntry)
    → p r ≡ false
    → Found p rs o
    → Found p (r ∷ rs) o
Found-skip p r rs none b h = (b, h)
Found-skip p r rs (some x) b h = (h.0, Memᴰ.tail h.1)

first_step :
    (p : QueueEntry → Bool) (r : QueueEntry) (rs : List QueueEntry) (b : Bool)
    → p r ≡ b
    → Found p rs (first p rs)
    → Found p (r ∷ rs) (if b then some r else first p rs)
first_step p r rs true e h = (e, Memᴰ.head refl)
first_step p r rs false e h = Found-skip p r rs (first p rs) e h

first-Found : (p : QueueEntry → Bool) (rs : List QueueEntry) → Found p rs (first p rs)
first-Found p [] = tt
first-Found p (r ∷ rs) = first_step p r rs (p r) refl (first-Found p rs)

abbrev total : List QueueEntry → Option ℕ
total [] = none
total (r ∷ rs) = some (sum_by (λ x. x.party_size) (r ∷ rs))

total-or_else : (rs : List QueueEntry) → or_else (total rs) 0 ≡ sum_by (λ x. x.party_size) rs
total-or_else [] = refl
total-or_else (r ∷ rs) = refl

abbrev pub memory : Client
memory = record {
  find_unique = row_with;
  find_first = λ p le rows. first p rows;
  find_many = λ p le rows. sort le (filter p rows);
  find_page = λ p le skip n rows. take n (drop skip (sort le (filter p rows)));
  count = λ p rows. length (filter p rows);
  sum_party_size = λ p rows. total (filter p rows);
  create = λ e rows. if has_id e.id rows then none else some (rows ++ e ∷ []);
  update = λ id g rows. if has_id id rows then some (replace id g rows) else none;
  delete = λ id rows. if has_id id rows then some (remove id rows) else none;
  create_history = λ h rows. rows ++ h ∷ [];
  create_assignments = λ new rows. rows ++ new;
  find_assignments = filter;
  update_assignments = λ p g rows. map (mark p g) rows;
  rollback = λ s t. s;
}

pub memory-Lawful : Lawful memory
memory-Lawful = record {
  find_unique = λ id rows. refl;
  find_first = λ p le rows. first-Found p rows;
  find_many = λ p le rows. sort-Perm le (filter p rows);
  find_page = λ p le skip n rows h. refl;
  page_length = λ p le skip n rows. length-take n (drop skip (sort le (filter p rows)));
  count = λ p rows. refl;
  sum_party_size = λ p rows. total-or_else (filter p rows);
  create = λ e rows. refl;
  update = λ id g rows. refl;
  delete = λ id rows. refl;
  create_history = λ h rows. refl;
  create_assignments = λ new rows. refl;
  update_assignments = λ p g rows. refl;
  find_assignments = λ p rows. Perm.refl (filter p rows);
  rollback = λ s t. refl;
}

-- A Redis server in memory, whose time is the number of the call.
abbrev after_command : ℕ → String → RedisCommand → Option String → Option String
after_command now j (set_ex key text seconds k) seen =
    if str_eq key j then if ltb now (k + seconds * 1000) then some text else none else seen
after_command now j (del key) seen = if str_eq key j then none else seen

abbrev get_after : ℕ → String → Option String → List RedisCommand → Option String
get_after now j seen [] = seen
get_after now j seen (c ∷ cs) = get_after now j (after_command now j c seen) cs

get_after-append :
    (now : ℕ) (j : String) (seen : Option String) (log : List RedisCommand) (c : RedisCommand)
    → get_after now j seen (log ++ c ∷ []) ≡ after_command now j c (get_after now j seen log)
get_after-append now j seen [] c = refl
get_after-append now j seen (d ∷ log) c = get_after-append now j (after_command now j d seen) log c

-- The only state in its Redis.
abbrev pub third_of_bistro : LiveState
third_of_bistro = record {
  queue_entry_id = "ticket-1";
  restaurant_id = "bistro";
  position = 3;
  current_eta = 12;
  updated_at = 1000;
}

abbrev pub healthy : Env
healthy = record {
  now = λ k. 1000 + k;
  uuid = λ k. "ticket-new";
  start_of_day = λ t. 0;
  database_fault = λ k. none;
  redis_fault = λ k. false;
  redis_time = λ k. k;
  redis_get = λ log now j. get_after now j none log;
  stringify = λ s. "{}";
  parse = λ text. some third_of_bistro;
  socket_active = λ k. true;
  emit_fault = λ k. none;
  job_fault = λ k. none;
  restaurant_status = λ k id. ok (record {
    restaurant_id = id;
    is_blocked = false;
    block_reason = none;
    is_subscription_active = true;
    subscription_plan_code = some "QUEUE_PRO";
  });
  check_availability = λ k id n. ok (record {
    is_open = true;
    accepts_queue = true;
    is_table_available = false;
    available_count = 0;
  });
  table_call = λ k. none;
  predict_eta = λ k id ahead n. ok (ahead * 5);
  to_upper = λ s. s;
  to_lower = λ s. s;
}

pub healthy-IsDependable : IsDependable healthy
healthy-IsDependable = record {
  alive = λ log key text j seconds k now h.
      get_after-append now j none log (set_ex key text seconds k) ∙ ground (arith, h);
  expired = λ log key text j seconds k now h.
      get_after-append now j none log (set_ex key text seconds k) ∙ ground (arith, h);
  deleted = λ log key j now. get_after-append now j none log (del key);
}

abbrev pub anna : QueueEntry
anna = record {
  id = "ticket-1";
  restaurant_id = "bistro";
  user_id = some "anna";
  guest_name = "Anna";
  phone = "111";
  queue_number = "A-001";
  party_size = 3;
  special_notes = none;
  registration_type = online;
  position = some 1;
  estimated_wait_minutes = some 0;
  estimated_wait_minutes_at_join = some 0;
  status = waiting;
  ring_count = 0;
  last_ringed_at = none;
  fid = none;
  joined_at = 100;
  seated_at = none;
  cancelled_at = none;
  created_at = 100;
  updated_at = 100;
}

abbrev pub ben : QueueEntry
ben = record anna {
  id = "ticket-2";
  user_id = none;
  guest_name = "Ben";
  phone = "222";
  queue_number = "W-002";
  party_size = 2;
  registration_type = walk_in;
  position = some 2;
  joined_at = 200;
  created_at = 200;
  updated_at = 200;
}

abbrev pub evening : World
evening = record {
  calls = 0;
  tables = record { entries = anna ∷ ben ∷ []; assignments = []; history = [] };
  redis = [];
  emitted = [];
  upstream = [];
  jobs = [];
  published = [];
}
