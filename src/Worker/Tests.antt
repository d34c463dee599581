-- ===== src/Worker/Tests.antt =====
-- Runs of the worker queue at concrete inputs: packages/worker/src/index.ts.
mod Calls
use bek.Common.{
  ℕ, ◌≤◌, ◌<◌, ◌≡◌, refl, ◌⊎◌, inl, true, false, none, some, List, [], ◌∷◌, concat, decimal, map,
  find_index, find_from, keep, any, sort_with, insert_with, indexed_from, get_elem?, is_some, arith,
}
use bek.Worker.Types.{
  RuntimeWorkReason, RunWorkItem, ResultStatus, RuntimeResult, RiskLevel, ApprovalStatus,
  ApprovalRequest, WorkStatus, AttemptState, WorkerLease, WorkerApprovalGate, WorkerWorkRecord,
}
use bek.Worker.Attempts.{
  can_transition_run_attempt_state, create_worker_idempotency_key, is_active_status,
  run_attempt_state_transitions, default_worker_retry_policy, assert_retry_policy, retry_delay_ms,
}
use bek.Worker.Attempts.Delays.{retry_delay_ms_bounds}
use bek.Core.Security.{redact_fields}
use bek.Worker.State.{
  and_then, or_throw, transition_record, put, emit, event_of, push_record, draw_id,
  find_by_lease_id, QueueOptions, Queue, Outcome, returned,
}
use bek.Worker.Leases.{
  requeue_expired_leases, claim_next, requeue_from, has_expired_lease, claim_available,
  next_claimable, is_claimable, claims_before, claim_record,
}
use bek.Worker.Enqueue.{new_record, retry_item}
use bek.Worker.Cancel.{cancel_run, cancel_found, cancel_from, cancel_active, cancel_record}
use bek.Worker.Settle.{
  settle, settle_live, settle_record, settle_result, settle_failure, settle_retry,
}
use bek.Worker.Approvals.{
  ResumeDecision, resume_gated, decide_wait, resume_record, resume_after_approval, resume_enqueued,
}
use bek.Worker.Snapshots.{maximum, read, restore}
use bek.Worker.Commands.{Command, perform, run}
use bek.Worker.Evolution.{IsValid, HasNoFault}
use bek.Worker.Evolution.Keeps.{Inv}
use bek.Worker.Safety.{run-Inv, run-terminal, run-cancel_sticks, run-restore-read}
use bek.Worker.Safety.Restart.{IsTight}
use bek.Worker.Behaviour.Expiring.{Clears, requeue_expired_leases-Clears}
use bek.Worker.Behaviour.Claiming.{Hands, HasNone, claim_next_lem}
use bek.Worker.Behaviour.Failing.{IsBuried, IsRetried, settle_failure_lem}
use bek.Worker.Behaviour.Resuming.{IsGranted, resume_enqueued-IsGranted}
use bek.Worker.Behaviour.Requeueing.{resume-IsGranted}
use bek.Worker.Samples.{
  options, options_ok, item, fresh, lease, working, stopping, finished, approval, gate, waiting,
  queue_of, queue_of-Inv, fresh-IsValid, working-IsValid, stopping-IsValid, finished-IsValid,
  waiting-IsValid,
}

abbrev failure : RuntimeResult
failure = record {
  status = ResultStatus.failed;
  final_text = none;
  artifact_refs = [];
  actual_cost_cents = 3;
  error = some "It broke.";
}

-- A worker claims the work and fails it; the work is cancelled before its next attempt.
abbrev pub calls : List (Command × ℕ)
calls =
    (Command.claim_next "worker_2" 30 none, 60)
    ∷ (Command.settle "lease_2" failure none none, 70)
    ∷ (Command.cancel_run "org_1" "run_1" "No longer needed." none, 80)
    ∷ []

-- The attempt that fails is over, and its retry is cancelled.
calls_end :
    map (λ r. r.status) (run options calls (queue_of fresh)).records
    ≡ WorkStatus.failed ∷ WorkStatus.cancelled ∷ []
unfolding run perform claim_next requeue_expired_leases requeue_from has_expired_lease
    claim_available next_claimable is_claimable claims_before claim_record settle settle_live
    settle_record settle_result settle_failure settle_retry retry_delay_ms assert_retry_policy
    cancel_run cancel_found cancel_from cancel_active cancel_record is_active_status
    can_transition_run_attempt_state run_attempt_state_transitions new_record retry_item
    create_worker_idempotency_key find_by_lease_id and_then or_throw transition_record put emit
    event_of push_record draw_id redact_fields decimal find_index find_from keep any sort_with
    insert_with indexed_from
calls_end = refl

run-Inv_example : Inv (run options calls (queue_of fresh))
run-Inv_example = run-Inv options options_ok calls (queue_of-Inv fresh fresh-IsValid refl)

run-terminal_example : get_elem? (run options calls (queue_of finished)).records 0 ≡ some finished
unfolding is_active_status
run-terminal_example =
    run-terminal options options_ok calls 0 finished (queue_of-Inv finished finished-IsValid refl)
      refl refl

run-cancel_sticks_example :
    (r' : WorkerWorkRecord) × (get_elem? (run options calls (queue_of stopping)).records 0
      ≡ some r')
    × ((r'.status ≡ WorkStatus.claimed) × (is_some r'.cancel_requested_at ≡ true)
        ⊎ (r'.status ≡ WorkStatus.cancelled))
run-cancel_sticks_example =
    run-cancel_sticks options options_ok calls 0 stopping
      (queue_of-Inv stopping stopping-IsValid refl) refl refl refl

queue_of-fresh-IsTight : IsTight (queue_of fresh)
unfolding maximum
queue_of-fresh-IsTight = record { next = refl }

run-restore-read_example :
    restore (read (run options calls (queue_of fresh))) 9
    ≡ record (run options calls (queue_of fresh)) { next_id = 9 }
run-restore-read_example =
    run-restore-read options options_ok calls 9 (queue_of-Inv fresh fresh-IsValid refl)
      queue_of-fresh-IsTight

requeue_expired_leases-Clears_example :
    Clears 60 (requeue_expired_leases options 60 (queue_of working))
requeue_expired_leases-Clears_example =
    requeue_expired_leases-Clears options 60 (queue_of working)
      (queue_of-Inv working working-IsValid refl)

claim_next_lem_example :
    (p : Queue) × ((requeue_expired_leases options 60 (queue_of working)).1 ≡ p)
    × (Hands "worker_2" 30 60 p (claim_next options "worker_2" 30 none 60 (queue_of working))
        ⊎ HasNone 60 p (claim_next options "worker_2" 30 none 60 (queue_of working)))
claim_next_lem_example =
    claim_next_lem options "worker_2" 30 none 60 (queue_of working)
      (queue_of-Inv working working-IsValid refl) refl

settle_failure_lem_example :
    (3 ≤ 1)
      × IsBuried options
          (queue_of working)
          0
          working
          failure
          40
          (settle_failure options 0 working failure 40 (queue_of working))
    ⊎ (1 < 3)
      × IsRetried options
          (queue_of working)
          0
          working
          40
          (settle_failure options 0 working failure 40 (queue_of working))
settle_failure_lem_example =
    settle_failure_lem options (queue_of working) 0 working failure 40 working-IsValid refl refl
      options_ok

abbrev resumption : Outcome ResumeDecision × Queue
resumption = resume_after_approval options approval none none 50 (queue_of waiting)

abbrev resumed : WorkerWorkRecord
resumed = record waiting {
  item = record item { reason = RuntimeWorkReason.approval_granted; enqueued_at = 50 };
  status = WorkStatus.queued;
  attempt_state = AttemptState.queued;
  available_at = 50;
  updated_at = 50;
  approval = some (record gate { status = ApprovalStatus.approved });
}

resumption_reply : resumption.0 ≡ returned (resume_enqueued resumed)
unfolding resume_after_approval resume_gated decide_wait resume_record find_index find_from
    can_transition_run_attempt_state run_attempt_state_transitions transition_record or_throw any
resumption_reply = refl

resumption_stands : get_elem? resumption.1.records 0 ≡ some resumed
unfolding resume_after_approval resume_gated decide_wait resume_record find_index find_from
    can_transition_run_attempt_state run_attempt_state_transitions transition_record or_throw any
    put emit
resumption_stands = refl

resume-IsGranted_example :
    (get_elem? (queue_of waiting).records 0 ≡ some resumed)
    ⊎ (resumption.0 ≡ returned (resume_enqueued resumed))
      × IsGranted (queue_of waiting) resumption.1 approval 0 resumed
resume-IsGranted_example =
    resume-IsGranted options approval none none 50 (queue_of waiting) 0 resumed
      (queue_of-Inv waiting waiting-IsValid refl) resumption_stands refl

resume_enqueued-IsGranted_example :
    (i : ℕ) × IsGranted (queue_of waiting) resumption.1 approval i resumed
resume_enqueued-IsGranted_example =
    resume_enqueued-IsGranted options approval none none 50 (queue_of waiting) resumed
      (queue_of-Inv waiting waiting-IsValid refl) resumption_reply

retry_delay_ms_bounds_example :
    (d e : ℕ) × (retry_delay_ms 2 default_worker_retry_policy ≡ some d)
    × (retry_delay_ms 5 default_worker_retry_policy ≡ some e)
    × (1 ≤ d)
    × (d ≤ e)
    × (e ≤ 30000)
retry_delay_ms_bounds_example =
    retry_delay_ms_bounds 2 5 default_worker_retry_policy options_ok (omega arith)
