-- ===== src/Recalculator/Keeps.antt =====
-- What src/infrastructure/services/queue-position-recalculator.service.ts leaves alone.
use spotq_queue_service.Base.{◌≡◌, refl, String, List, [], ◌∷◌}
use spotq_queue_service.Entity.{QueueEntry}
use spotq_queue_service.World.{World, Tables, Env, Client}
use spotq_queue_service.Exec.Rules.{Post-same, Quiet, Quiet-bind, Quiet-pure, Quiet-recover}
use spotq_queue_service.Services.Quiet.{Quiet-emit, Quiet-save_live_entry, Quiet-predict_eta}
use spotq_queue_service.Repository.Laws.{Lawful}
use spotq_queue_service.Repository.Quiet.{Quiet-find_active_entries}
use spotq_queue_service.Repository.View.{
  view, Keeps, Keeps-Quiet, Keeps-bind, batch_update_positions-Keeps,
}
use spotq_queue_service.Recalculator.{
  EntryInput, PositionDelta, predict_all, cache_all, notify_all, publish, recalculate_entries,
  recalculate,
}

module _ (env : Env) (client : Client) where
  Quiet-predict_all : (id : String) (xs : List EntryInput) → Quiet (predict_all env client id xs)
  unfolding predict_all
  Quiet-predict_all id [] = Quiet-pure _
  Quiet-predict_all id (x ∷ xs) =
      Quiet-bind (Quiet-predict_eta env id _ _)
        λ eta. Quiet-bind (Quiet-predict_all id xs) λ etas. Quiet-pure _

  Quiet-cache_all : (id : String) (ds : List PositionDelta) → Quiet (cache_all env client id ds)
  unfolding cache_all
  Quiet-cache_all id [] = Quiet-pure _
  Quiet-cache_all id (d ∷ ds) =
      Quiet-bind (Quiet-recover tt (Quiet-save_live_entry env _ _ _ _)) λ _. Quiet-cache_all id ds

  Quiet-notify_all : (ds : List PositionDelta) → Quiet (notify_all env client ds)
  unfolding notify_all
  Quiet-notify_all [] = Quiet-pure _
  Quiet-notify_all (d ∷ ds) =
      Quiet-bind (Quiet-recover tt (Quiet-emit env _)) λ _. Quiet-notify_all ds

module _ (env : Env) {client : Client} (lawful : Lawful client) (v : Tables) where
  publish-Keeps : (id : String) (ds : List PositionDelta) → Keeps v (publish env client id ds)
  unfolding publish
  publish-Keeps id [] = Keeps-Quiet v (Quiet-pure _)
  publish-Keeps id (d ∷ ds) = Keeps-bind (batch_update_positions-Keeps env lawful v _) λ _.
      Keeps-Quiet v (
        Quiet-bind (Quiet-cache_all env client id (d ∷ ds)) λ _.
          Quiet-bind (Quiet-notify_all env client (d ∷ ds))
            λ _. Quiet-bind (Quiet-recover tt (Quiet-emit env _)) λ _. Quiet-pure _)

  recalculate_entries-Keeps :
      (id : String) (es : List QueueEntry) → Keeps v (recalculate_entries env client id es)
  unfolding recalculate_entries
  recalculate_entries-Keeps id [] = Keeps-Quiet v (Quiet-pure _)
  recalculate_entries-Keeps id (e ∷ es) =
      Keeps-bind (Keeps-Quiet v (Quiet-predict_all env client id _)) λ etas. publish-Keeps id _

  pub recalculate-Keeps : (id : String) → Keeps v (recalculate env client id)
  unfolding recalculate
  recalculate-Keeps id =
      Keeps-bind (Keeps-Quiet v (Quiet-find_active_entries env client id))
        λ es. recalculate_entries-Keeps id es

-- Whether a recalculation returns or throws, it writes nothing but positions, expected waits and
-- update dates in the rows of the entries: no status, no assignment, no history.
pub recalculate-view :
    (env : Env) {client : Client} (lawful : Lawful client) (id : String) (w : World)
    → view (recalculate env client id w).1.tables ≡ view w.tables
recalculate-view env {client} lawful id w =
    Post-same (λ t. view t ≡ view w.tables) (recalculate env client id w)
      ((recalculate-Keeps env lawful (view w.tables) id).at w refl)
