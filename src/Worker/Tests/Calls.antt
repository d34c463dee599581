-- ===== src/Worker/Tests/Calls.antt =====
-- Calls of the worker queue at concrete inputs: packages/worker/src/index.ts.
use bek.Common.{◌≡◌, refl, ◌⊎◌, ℕ, none, some, get_elem?}
use bek.Worker.Types.{WorkerWorkRecord, WorkerEvent, WorkerDeadLetterRecord}
use bek.Worker.Attempts.{create_worker_idempotency_key}
use bek.Worker.State.{returned}
use bek.Worker.Enqueue.{enqueue}
use bek.Worker.Cancel.{CancelDecision, cancel_run}
use bek.Worker.Commands.{run}
use bek.Worker.Samples.{
  options, options_ok, lease, item, fresh, fresh-IsValid, working, working-IsValid, waiting,
  waiting-IsValid, queue_of, queue_of-Inv,
}
use bek.Worker.Tests.{calls}
use bek.Worker.Safety.{run-history}
use bek.Worker.Behaviour.Enqueueing.{IsDuplicate, IsEnqueued, enqueue_lem}
use bek.Worker.Leases.{heartbeat}
use bek.Worker.Behaviour.Beating.{Beats, heartbeat_lem}
use bek.Worker.Behaviour.Cancelling.{IsStopped, cancel_run_lem}

enqueue_lem_example :
    IsDuplicate
      (queue_of fresh)
      (create_worker_idempotency_key item)
      (enqueue options item none none 15 (queue_of fresh))
    ⊎ IsEnqueued (queue_of fresh) item none (enqueue options item none none 15 (queue_of fresh))
enqueue_lem_example = enqueue_lem options item none none 15 (queue_of fresh)

cancel_run_lem_example :
    (decision : CancelDecision) × ((cancel_run options "org_1" "run_1" "No longer needed." none 30
        (queue_of waiting)).0
      ≡ returned decision)
    × ((j : ℕ) (r : WorkerWorkRecord)
        → get_elem?
            (cancel_run options "org_1" "run_1" "No longer needed." none 30
              (queue_of waiting)).1.records
            j
          ≡ some r
        → r.item.org_id ≡ "org_1"
        → r.item.run_id ≡ "run_1"
        → IsStopped r)
cancel_run_lem_example =
    cancel_run_lem options "org_1" "run_1" "No longer needed." none 30 (queue_of waiting)
      (queue_of-Inv waiting waiting-IsValid refl)

run-history_example :
    ((i : ℕ) (e : WorkerEvent)
      → get_elem? (queue_of fresh).events i ≡ some e
      → get_elem? (run options calls (queue_of fresh)).events i ≡ some e)
    × ((i : ℕ) (d : WorkerDeadLetterRecord)
        → get_elem? (queue_of fresh).dead_letters i ≡ some d
        → get_elem? (run options calls (queue_of fresh)).dead_letters i ≡ some d)
run-history_example = run-history options options_ok calls (queue_of-Inv fresh fresh-IsValid refl)

heartbeat_lem_example :
    Beats
      (queue_of working)
      lease.id
      (some 100)
      40
      (heartbeat options lease.id (some 100) none 40 (queue_of working))
heartbeat_lem_example =
    heartbeat_lem options lease.id (some 100) none 40 (queue_of working)
      (queue_of-Inv working working-IsValid refl)
