-- ===== src/Services/Cached.antt =====
-- What src/infrastructure/redis/redis-queue-cache.service.ts gives back of what it was given.
use text.Mathlib.TextLemmas.{append_cancel_left}
use spotq_queue_service.Base.{
  ℕ, ◌+◌, ◌*◌, ◌≤◌, ◌<◌, String, Bool, true, false, ◌≡◌, refl, ◌∙◌, ap, sym, Option, none, some,
  List, [], ◌∷◌, ◌++◌, is_truthy, ltb, str_eq, eq_iff, arith, inl, inr, Bool-cases, if◌then◌else◌,
}
use spotq_queue_service.Errors.{ok}
use spotq_queue_service.World.{World, LiveState, RedisCommand, set_ex, del, Env}
use spotq_queue_service.Exec.{◌>>=◌, ◌>>◌, caught}
use spotq_queue_service.Services.{
  counted, ttl_seconds, get_key, parsed, read_raw, save_live_entry, get_live_entry,
  remove_live_entry,
}

-- What is relied on of Redis: a text that is set is read until it expires, a key that expired or was
-- deleted has none, and no command bears on another key.
pub record IsDependable (env : Env) : Type 0 where
  pub alive :
      (log : List RedisCommand) (key text j : String) (seconds k now : ℕ)
      → env.redis_time now < env.redis_time k + seconds * 1000
      → env.redis_get (log ++ set_ex key text seconds k ∷ []) now j
        ≡ (if str_eq key j then some text else env.redis_get log now j)
  pub expired :
      (log : List RedisCommand) (key text j : String) (seconds k now : ℕ)
      → env.redis_time k + seconds * 1000 ≤ env.redis_time now
      → env.redis_get (log ++ set_ex key text seconds k ∷ []) now j
        ≡ (if str_eq key j then none else env.redis_get log now j)
  pub deleted :
      (log : List RedisCommand) (key j : String) (now : ℕ)
      → env.redis_get (log ++ del key ∷ []) now j
        ≡ (if str_eq key j then none else env.redis_get log now j)

-- Entries have the same key only if they are the same.
same_key : (id j : String) → str_eq (get_key id) (get_key j) ≡ str_eq id j
unfolding get_key
same_key id j =
    ground
      (arith, eq_iff (get_key id) (get_key j), eq_iff id j, append_cancel_left "queue:live:" id j)

-- The state that `saveLiveEntry` writes at a date.
abbrev pub live_state : (id restaurant_id : String) (position eta now : ℕ) → LiveState
live_state id restaurant_id position eta now = record {
  queue_entry_id = id;
  restaurant_id = restaurant_id;
  position = position;
  current_eta = eta;
  updated_at = now;
}

-- `JSON.parse` gives back what `JSON.stringify` wrote, which is not the empty text.
abbrev pub IsKept : Env → LiveState → Type 0
IsKept env s = (is_truthy (some (env.stringify s)) ≡ true) × (env.parse (env.stringify s) ≡ some s)

-- What `getLiveEntry` makes of the answer of Redis.
abbrev read_text : Env → Option String → Option LiveState
read_text env none = none
read_text env (some raw) = if is_truthy (some raw) then env.parse raw else none

module _ (env : Env) where
  parsed-value : (o : Option LiveState) (w : World) → (caught none (parsed env o w)).0 ≡ ok o
  parsed-value none w = refl
  parsed-value (some s) w = refl

  raw-value :
      (o : Option String) (w : World) → (caught none (read_raw env o w)).0 ≡ ok (read_text env o)
  raw-value none w = refl
  raw-value (some String.[]) w = refl
  raw-value (some (String.◌∷◌ c s)) w = parsed-value (env.parse (String.◌∷◌ c s)) w

  get_live_entry-value :
      (j : String) (w : World)
      → env.redis_fault w.calls ≡ false
      → (get_live_entry env j w).0 ≡ ok (read_text env (env.redis_get w.redis w.calls (get_key j)))
  unfolding get_live_entry
  get_live_entry-value j w h =
      rw h (raw-value (env.redis_get w.redis w.calls (get_key j)) (counted w))

  -- The world after a command that Redis took.
  abbrev commanded : RedisCommand → World → World
  commanded c w = record w { calls = w.calls + 1; redis = w.redis ++ c ∷ [] }

  save_live_entry-world :
      (id restaurant_id : String) (position eta : ℕ) (w : World)
      → env.redis_fault (w.calls + 1) ≡ false
      → save_live_entry env id restaurant_id position eta w ≡ (
        ok tt,
        commanded
            (set_ex
              (get_key id)
              (env.stringify (live_state id restaurant_id position eta (env.now w.calls)))
              ttl_seconds
              (w.calls + 1))
            (counted w),
      )
  unfolding save_live_entry
  save_live_entry-world id restaurant_id position eta w h = rw h refl

  remove_live_entry-world :
      (id : String) (w : World)
      → env.redis_fault w.calls ≡ false
      → remove_live_entry env id w ≡ (ok tt, commanded (del (get_key id)) w)
  unfolding remove_live_entry
  remove_live_entry-world id w h = rw h refl

  -- A text that is read for one entry, and what is read for the others.
  chosen :
      (id j : String) (o : Option String) (v : Option LiveState) (w : World)
      → env.redis_fault w.calls ≡ false
      → read_text env o ≡ v
      → ok (
          read_text env (
            if str_eq (get_key id) (get_key j)
            then o
            else env.redis_get w.redis w.calls (get_key j)))
        ≡ (if str_eq id j then ok v else (get_live_entry env j w).0)
  chosen id j o v w h e = rw (same_key id j) (either (str_eq id j))
    where
      either :
          (b : Bool)
          → ok (read_text env (if b then o else env.redis_get w.redis w.calls (get_key j)))
            ≡ (if b then ok v else (get_live_entry env j w).0)
      either true = ap ok e
      either false = sym (get_live_entry-value j w h)

module _ (env : Env) (good : IsDependable env) (log : List RedisCommand) (key text j : String)
    (seconds k now : ℕ) where
  -- An answer after a text is set.
  after_set : env.redis_get (log ++ set_ex key text seconds k ∷ []) now j ≡ (
      if str_eq key j
      then if ltb (env.redis_time now) (env.redis_time k + seconds * 1000) then some text else none
      else env.redis_get log now j)
  after_set = elim (Bool-cases (ltb (env.redis_time now) (env.redis_time k + seconds * 1000))) [
    | inl b ↦ rw b (good.alive log key text j seconds k now (ground (arith, b)))
    | inr b ↦ rw b (good.expired log key text j seconds k now (ground (arith, b)))
  ]

read_text-kept :
    (env : Env) (s : LiveState) (b : Bool)
    → IsKept env s
    → read_text env (if b then some (env.stringify s) else none) ≡ (if b then some s else none)
read_text-kept env s true (full, same) = rw full same
read_text-kept env s false kept = refl

-- If Redis fails at neither call, reading an entry after another was saved gives what it gave before;
-- after it was saved itself, the state saved, with its id and the date of the write, for a day, and
-- then nothing; and after it was removed, nothing.
pub get_live_entry-save_live_entry :
    (env : Env)
    → IsDependable env
    → (id j restaurant_id : String) (position eta : ℕ) (w : World)
    → IsKept env (live_state id restaurant_id position eta (env.now w.calls))
    → env.redis_fault w.calls ≡ false
    → env.redis_fault (w.calls + 1) ≡ false
    → env.redis_fault (w.calls + 1 + 1) ≡ false
    → (((save_live_entry env id restaurant_id position eta >> get_live_entry env j) w).0 ≡ (
        if str_eq id j
        then ok (
            if ltb
              (env.redis_time (w.calls + 1 + 1))
              (env.redis_time (w.calls + 1) + 24 * 60 * 60 * 1000)
            then some (live_state id restaurant_id position eta (env.now w.calls))
            else none)
        else (get_live_entry env j (record w { calls = w.calls + 1 + 1 })).0))
      × (((remove_live_entry env id >> get_live_entry env j) w).0 ≡ (
          if str_eq id j
          then ok none
          else (get_live_entry env j (record w { calls = w.calls + 1 })).0))
unfolding ◌>>=◌
get_live_entry-save_live_entry env good id j restaurant_id position eta w kept h k l =
    let s = live_state id restaurant_id position eta (env.now w.calls) in
    let c = set_ex (get_key id) (env.stringify s) ttl_seconds (w.calls + 1) in
    (
      rw (save_live_entry-world env id restaurant_id position eta w k) (
          get_live_entry-value env j (commanded env c (counted w)) l
          ∙ ap (λ o. ok (read_text env o))
              (after_set env good w.redis (get_key id) (env.stringify s) (get_key j) ttl_seconds
                (w.calls + 1) (w.calls + 1 + 1))
          ∙ chosen env id j _ _ (record w { calls = w.calls + 1 + 1 }) l
              (read_text-kept env s _ kept)),
      rw (remove_live_entry-world env id w h) (
          get_live_entry-value env j (commanded env (del (get_key id)) w) k
          ∙ ap (λ o. ok (read_text env o))
              (good.deleted w.redis (get_key id) (get_key j) (w.calls + 1))
          ∙ chosen env id j none none (record w { calls = w.calls + 1 }) k refl),
    )
