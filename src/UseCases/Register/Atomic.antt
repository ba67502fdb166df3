-- ===== src/UseCases/Register/Atomic.antt =====
-- What src/application/use-cases/register-queue.use-case.ts does to the tables, whatever fails.
use spotq_queue_service.Base.{
  length, filter, not, ◌||◌, ℕ, ◌≡◌, refl, ◌∙◌, ap, ◌+◌, String, Option, none, some, is_truthy,
  or_else,
}
use spotq_queue_service.Errors.{waiting}
use spotq_queue_service.Entity.{QueueEntry, create}
use spotq_queue_service.World.{World, Tables, RestaurantStatus, TableAvailability, Env, Client}
use spotq_queue_service.Exec.Rules.{
  Post, Post-same, Ensures, Ensures-bind, Ensures-given, Ensures-quiet, Ensures-new_date,
  Ensures-return, Ensures-recover, Ensures-post, Quiet, Quiet-bind, Quiet-pure, Quiet-raise,
  Quiet-if, Quiet-tick,
}
use spotq_queue_service.Services.Quiet.{
  Quiet-emit, Quiet-save_live_entry, Quiet-get_restaurant_status, Quiet-check_availability,
  Quiet-predict_eta,
}
use spotq_queue_service.Repository.Laws.{Lawful}
use spotq_queue_service.Repository.Rules.{Ensures-run, Ensures-query}
use spotq_queue_service.Repository.Queries.{
  Metrics, metrics_of, waits_at, same_text, get_registration_metrics,
}
use spotq_queue_service.Repository.Quiet.{Quiet-find_active_by_phone, Quiet-find_active_by_user_id}
use spotq_queue_service.Repository.Creation.{
  IsAdmissible, created_tables, create_with_history-Ensures,
}
use spotq_queue_service.Repository.Twins.{NoTwins, NoTwins-create}
use spotq_queue_service.UseCases.Register.{
  Input, Output, validate_subscription, require_accepting, require_full, reject_phone, reject_user,
  active_user, changed_by, props_of, check, announce, execute,
}

-- The tables `t` come from `s` by adding a new waiting entry for the request, and its history.
pub record IsRegistration (env : Env) (client : Client) (input : Input) (s t : Tables)
    : Type 0 where
  pub metrics : Metrics
  pub depth : metrics.queue_depth ≡ length (filter (waits_at input.restaurant_id) s.entries)
  pub eta : ℕ
  pub uuid : String
  pub now : ℕ
  pub admissible : IsAdmissible (create uuid now (props_of input metrics eta)) s.entries
  pub position :
      (create uuid now (props_of input metrics eta)).position
      ≡ some (length (filter (waits_at input.restaurant_id) s.entries) + 1)
  pub waits : (create uuid now (props_of input metrics eta)).status ≡ waiting
  pub restaurant :
      (create uuid now (props_of input metrics eta)).restaurant_id ≡ input.restaurant_id
  pub user : (create uuid now (props_of input metrics eta)).user_id ≡ input.user_id
  pub party : (create uuid now (props_of input metrics eta)).party_size ≡ input.party_size
  pub tables :
      t
      ≡ created_tables env client
          (create uuid now (props_of input metrics eta))
          (some (changed_by input))
          s

module _ (env : Env) (client : Client) (input : Input) where
  Quiet-reject_phone : (phone : String) (o : Option QueueEntry) → Quiet (reject_phone phone o)
  unfolding reject_phone
  Quiet-reject_phone phone none = Quiet-pure _
  Quiet-reject_phone phone (some e) = Quiet-raise _

  Quiet-reject_user : (o : Option QueueEntry) → Quiet (reject_user o)
  unfolding reject_user
  Quiet-reject_user none = Quiet-pure _
  Quiet-reject_user (some e) = Quiet-raise _

  Quiet-active_user : (id : Option String) → Quiet (active_user env client id)
  unfolding active_user
  Quiet-active_user none = Quiet-pure _
  Quiet-active_user (some id) =
      Quiet-if (is_truthy (some id)) (Quiet-find_active_by_user_id env client id) (Quiet-pure _)

  Quiet-validate : (s : RestaurantStatus) → Quiet (validate_subscription s)
  unfolding validate_subscription
  Quiet-validate s = Quiet-if s.is_blocked (Quiet-raise _) (
      Quiet-if
        (not s.is_subscription_active || not (same_text s.subscription_plan_code "QUEUE_PRO"))
        (Quiet-raise _) (Quiet-pure _))

  Quiet-require_accepting : (t : TableAvailability) → Quiet (require_accepting t)
  unfolding require_accepting
  Quiet-require_accepting t = Quiet-if _ (Quiet-raise _) (Quiet-pure _)

  Quiet-require_full : (t : TableAvailability) → Quiet (require_full t)
  unfolding require_full
  Quiet-require_full t = Quiet-if _ (Quiet-raise _) (Quiet-pure _)

  Quiet-check : Quiet (check env client input)
  unfolding check
  Quiet-check = Quiet-bind (Quiet-get_restaurant_status env _) λ s.
      Quiet-bind (Quiet-validate s) λ _. Quiet-bind (Quiet-check_availability env _ _) λ t.
        Quiet-bind (Quiet-require_accepting t) λ _. Quiet-bind (Quiet-require_full t) λ _.
          Quiet-bind (Quiet-find_active_by_phone env client _ _) λ p.
            Quiet-bind (Quiet-active_user _)
              λ u. Quiet-bind (Quiet-reject_phone _ p) λ _. Quiet-reject_user u

  announce-Ensures :
      {P E : Tables → Type 0} (position eta : ℕ) (e : QueueEntry)
      → Ensures P
          (announce env client input position eta e)
          (λ o t. (o.position ≡ or_else e.position 0) × (o.status ≡ e.status) × P t)
          E
  unfolding announce
  announce-Ensures position eta e =
      Ensures-bind (Ensures-recover tt (Quiet-save_live_entry env _ _ _ _)) λ _.
        Ensures-bind (Ensures-recover tt (Quiet-emit env _))
          λ _. Ensures-return _ (λ t p. (refl, refl, p))

abbrev pub Outcome : Env → Client → Input → Tables → Output → Tables → Type 0
Outcome env client input s o t =
    IsRegistration env client input s t
    × (o.status ≡ waiting)
    × (o.position ≡ length (filter (waits_at input.restaurant_id) s.entries) + 1)

module _ (env : Env) {client : Client} (lawful : Lawful client) (input : Input) where
  counted :
      (s : Tables) (start : ℕ)
      → (metrics_of env client input.restaurant_id start s).queue_depth
        ≡ length (filter (waits_at input.restaurant_id) s.entries)
  unfolding metrics_of
  counted s start = lawful.count (waits_at input.restaurant_id) s.entries

  metrics-Ensures :
      (s : Tables)
      → Ensures
          (λ t. t ≡ s)
          (get_registration_metrics env client input.restaurant_id)
          (λ m t.
            (t ≡ s) × (m.queue_depth ≡ length (filter (waits_at input.restaurant_id) s.entries)))
          (λ t. t ≡ s)
  unfolding get_registration_metrics
  metrics-Ensures s = Ensures-bind (Ensures-new_date env) λ now. Ensures-run (
      Ensures-query
        {Q = λ m t.
          (t ≡ s) × (m.queue_depth ≡ length (filter (waits_at input.restaurant_id) s.entries))}
        env client (metrics_of env client input.restaurant_id (env.start_of_day now)) s
        (λ k x e. refl) (refl, counted s (env.start_of_day now)))

  registered :
      {s : Tables} (metrics : Metrics)
      → metrics.queue_depth ≡ length (filter (waits_at input.restaurant_id) s.entries)
      → (eta : ℕ) (uuid : String) (now : ℕ) (a : QueueEntry)
      → Ensures
          (λ t.
            (a ≡ create uuid now (props_of input metrics eta))
            × (t
                ≡ created_tables env client
                    (create uuid now (props_of input metrics eta))
                    (some (changed_by input))
                    s)
            × IsAdmissible (create uuid now (props_of input metrics eta)) s.entries)
          (announce env client input (metrics.queue_depth + 1) eta a)
          (Outcome env client input s)
          (λ t. t ≡ s)
  unfolding create props_of
  registered metrics depth eta uuid now a =
      Ensures-post
        (λ o t (at, st, (same, p, good)). (
          record {
            metrics = metrics;
            depth = depth;
            eta = eta;
            uuid = uuid;
            now = now;
            admissible = good;
            position = ap (λ n. some (n + 1)) depth;
            waits = refl;
            restaurant = refl;
            user = refl;
            party = refl;
            tables = p;
          },
          st ∙ ap (λ x. x.status) same,
          at ∙ ap (λ x. or_else x.position 0) same ∙ ap (λ n. n + 1) depth,
        ))
        (λ t p. p) (announce-Ensures env client input (metrics.queue_depth + 1) eta a)

  execute-Ensures :
      (s : Tables)
      → Ensures (λ t. t ≡ s) (execute env client input) (Outcome env client input s) (λ t. t ≡ s)
  unfolding execute
  execute-Ensures s =
      Ensures-bind (Ensures-quiet (λ t. t ≡ s) (λ t p. p) (Quiet-check env client input)) λ _.
        Ensures-bind (metrics-Ensures s) λ metrics. Ensures-given λ depth.
          Ensures-bind (Ensures-quiet (λ t. t ≡ s) (λ t p. p) (Quiet-predict_eta env _ _ _)) λ eta.
            Ensures-bind (Ensures-quiet (λ t. t ≡ s) (λ t p. p) Quiet-tick) λ k.
              Ensures-bind (Ensures-new_date env) λ now.
                Ensures-bind
                  (create_with_history-Ensures env lawful s refl
                    (create (env.uuid k) now (props_of input metrics eta)) _)
                  λ a. registered metrics depth eta (env.uuid k) now a

-- If the handler throws, the tables are as before. If it answers, one waiting entry for the request
-- and one line of history are added and nothing else; its position, which the answer has too, is one
-- more than the number of those who waited at the restaurant, its id is new, and no entry that waited had its phone number at
-- the restaurant or its user.
pub register_exact :
    (env : Env) {client : Client} (lawful : Lawful client) (input : Input) (w : World)
    → Post (Outcome env client input w.tables) (λ t. t ≡ w.tables) (execute env client input w)
register_exact env lawful input w = (execute-Ensures env lawful input w.tables).at w refl

registration_apart :
    {env : Env} {client : Client} {input : Input} {s t : Tables}
    → NoTwins s.entries
    → IsRegistration env client input s t
    → NoTwins t.entries
unfolding created_tables
registration_apart {s = s} h r = rw r.tables (NoTwins-create s.entries _ h r.admissible)

-- Registration keeps the queue free of twins, whether it answers or throws: no two waiting entries
-- share a phone number at one restaurant, or a user.
pub register-NoTwins :
    (env : Env) {client : Client} (lawful : Lawful client) (input : Input) (w : World)
    → NoTwins w.tables.entries
    → NoTwins (execute env client input w).1.tables.entries
register-NoTwins env {client} lawful input w h =
    Post-same (λ t. NoTwins t.entries) (execute env client input w)
      ((Ensures-post (λ o t r. registration_apart h r.0) (λ t p. rw p h)
          (execute-Ensures env lawful input w.tables)).at
        w refl)
