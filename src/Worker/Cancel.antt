-- ===== src/Worker/Cancel.antt =====
-- Cancelling a run: `cancelRun` of packages/worker/src/index.ts.
use bek.Common.{
  ℕ, zero, suc, String, Bool, ◌&&◌, Option, none, some, List, [], ◌∷◌, ◌++◌, length, get_elem?,
  keep, if◌then◌else◌, ◌==◌,
}
use bek.Worker.Types.{WorkStatus, AttemptState, WorkerEventType, WorkerWorkRecord}
use bek.Worker.Attempts.{is_active_status, is_claimed}
use bek.Worker.State.{
  QueueOptions, Queue, Outcome, returned, and_then, time, put, transition_record, or_throw, emit,
  event_for,
}
use bek.Worker.Enqueue.{is_active_run}

pub data CancelDecision : Type 0 where
  cancel_requested : List WorkerWorkRecord → CancelDecision
  already_terminal : List WorkerWorkRecord → CancelDecision
  not_found : CancelDecision

abbrev pub is_of_run : String → String → WorkerWorkRecord → Bool
is_of_run org_id run_id r = r.item.org_id == org_id && r.item.run_id == run_id

module _ (o : QueueOptions) where
  -- One round of the loop over the active records. What is claimed is told to stop; the rest is
  -- cancelled at once.
  unfoldable pub cancel_record :
      ℕ → WorkerWorkRecord → String → ℕ → Queue → Outcome WorkerWorkRecord × Queue
  cancel_record i r reason now q =
      let r1 : WorkerWorkRecord = record r {
        cancel_requested_at = some now;
        cancel_reason = some reason;
      } in
      let q1 =
        emit o (event_for WorkerEventType.cancel_requested r reason none now) now (put i r1 q) in
      let told : Outcome WorkerWorkRecord × Queue =
        or_throw (transition_record r1 WorkStatus.claimed AttemptState.cancel_requested now) q1
          λ t. (returned t, put i t q1) in
      let stopped : Outcome WorkerWorkRecord × Queue =
        or_throw (transition_record r1 WorkStatus.cancelled AttemptState.cancelled now) q1 λ t.
          let r2 : WorkerWorkRecord = record t { lease = none; terminal_reason = some reason } in
          let event = event_for WorkerEventType.cancelled r reason none now in
          (returned r2, emit o event now (put i r2 q1)) in
      if is_claimed r.status then told else stopped

  -- The loop from index `i` on, with the number of rounds left. The records that it passes over
  -- are those that the filter before the loop leaves out: a round changes its own record alone.
  unfoldable pub cancel_from :
      ℕ
      → ℕ
      → String
      → String
      → String
      → ℕ
      → List WorkerWorkRecord
      → Queue
      → Outcome (List WorkerWorkRecord) × Queue
  cancel_from zero i org_id run_id reason now done q = (returned done, q)
  cancel_from (suc n) i org_id run_id reason now done q = elim (get_elem? q.records i) [
    | none ↦ (returned done, q)
    | some r ↦
        let skipped = cancel_from n (suc i) org_id run_id reason now done q in
        let taken =
          and_then (cancel_record i r reason now q)
            (λ r'. cancel_from n (suc i) org_id run_id reason now (done ++ r' ∷ [])) in
        if is_active_run org_id run_id r then taken else skipped
  ]

  -- `cancelRun` where the run has active records.
  unfoldable pub cancel_active :
      String → String → String → ℕ → Queue → Outcome CancelDecision × Queue
  cancel_active org_id run_id reason now q =
      and_then (cancel_from (length q.records) 0 org_id run_id reason now [] q)
        (λ affected q'. (returned (cancel_requested affected), q'))

  -- `cancelRun` on the records of the run and the active ones among them.
  unfoldable pub cancel_found :
      List WorkerWorkRecord
      → List WorkerWorkRecord
      → String
      → String
      → String
      → ℕ
      → Queue
      → Outcome CancelDecision × Queue
  cancel_found [] active org_id run_id reason now q = (returned not_found, q)
  cancel_found (r ∷ rs) [] org_id run_id reason now q = (returned (already_terminal (r ∷ rs)), q)
  cancel_found (r ∷ rs) (_ ∷ _) org_id run_id reason now q =
      cancel_active org_id run_id reason now q

  unfoldable pub cancel_run :
      String → String → String → Option ℕ → ℕ → Queue → Outcome CancelDecision × Queue
  cancel_run org_id run_id reason at clock q =
      let of_run = keep (is_of_run org_id run_id) q.records in
      let active = keep (λ r. is_active_status r.status) of_run in
      cancel_found of_run active org_id run_id reason (time at clock) q
