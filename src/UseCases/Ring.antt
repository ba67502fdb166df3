-- ===== src/UseCases/Ring.antt =====
-- src/application/use-cases/ring-customer.use-case.ts. A job is kept as the device id and the entry's
-- id; the deep link and the texts of the notification are left out.
pub mod Atomic
use spotq_queue_service.Base.{
  ℕ, String, Bool, true, false, Option, none, some, [], ◌∷◌, ◌++◌, or_else, is_truthy,
  if◌then◌else◌,
}
use spotq_queue_service.Entity.{QueueEntry, ring}
use spotq_queue_service.World.{to_ticket, ticket_called, Env, Client}
use spotq_queue_service.Exec.{Exec, pure, lift, recover, ◌>>=◌, ◌>>◌, new_date}
use spotq_queue_service.Services.{emit, settle, counted}
use spotq_queue_service.Repository.Calls.{save}
use spotq_queue_service.UseCases.Lookup.{require_entry}

pub record Input : Type 0 where
  pub restaurant_id : String
  pub queue_entry_id : String

pub record Output : Type 0 where
  pub queue_entry_id : String
  pub restaurant_id : String
  pub guest_name : String
  pub ring_count : ℕ
  pub last_ringed_at : ℕ
  pub notification_dispatched : Bool

module _ (env : Env) (client : Client) where
  -- `queueService.addJob`
  unfoldable pub add_job : String → String → Exec (Unit {0})
  add_job fid id w =
      settle (env.job_fault w.calls) (counted w)
        (record (counted w) { jobs = w.jobs ++ (fid, id) ∷ [] })

  unfoldable pub queued : String → String → Exec Bool
  unfolding ◌>>=◌ add_job
  queued fid id = add_job fid id >> pure true

  -- Whether a push notification was queued: only for an entry with a device, and a failure is logged.
  unfoldable pub notify_device : QueueEntry → Option String → Exec Bool
  unfolding queued recover
  notify_device e none = pure false
  notify_device e (some fid) =
      if is_truthy (some fid) then recover false (queued fid e.id) else pure false

  unfoldable pub announce : QueueEntry → Exec Output
  unfolding ◌>>=◌ recover notify_device
  announce e = do
    dispatched ← notify_device e e.fid
    recover tt (
        emit env (record {
          audience = to_ticket e.id;
          event = ticket_called;
          subject = some e.id;
          status = some e.status;
          position = none;
        }))
    now ← new_date env
    pure (record {
      queue_entry_id = e.id;
      restaurant_id = e.restaurant_id;
      guest_name = e.guest_name;
      ring_count = e.ring_count;
      last_ringed_at = or_else e.last_ringed_at now;
      notification_dispatched = dispatched;
    })

  unfoldable pub execute : Input → Exec Output
  unfolding ◌>>=◌ announce
  execute input = do
    e ← require_entry env client input.restaurant_id input.queue_entry_id
    now ← new_date env
    now' ← new_date env
    e' ← lift (ring now now' e)
    save env client e'
    announce e'
