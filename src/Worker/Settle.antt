-- ===== src/Worker/Settle.antt =====
-- Settling claimed work: `settle` and `settleFailure` of packages/worker/src/index.ts.
use bek.Common.{
  ℕ, ◌+◌, String, Bool, true, false, ◌||◌, ◌&&◌, Option, none, some, or_else, is_some, leb,
  if◌then◌else◌, concat, decimal, ◌==◌, [], ◌∷◌,
}
use bek.Common.Json.{Json, Fields}
use bek.Worker.Types.{
  ResultStatus, RuntimeResult, ApprovalRequest, WorkStatus, AttemptState, WorkerLease,
  WorkerEventType, WorkerWorkRecord, WorkerDeadLetterRecord,
}
use bek.Worker.Attempts.{is_claimed, risk_name, retry_delay_ms, approval_gate_from_request}
use bek.Worker.State.{
  QueueOptions, Queue, approval_missing, approval_of_other_work, invalid_retry_policy, Outcome,
  returned, threw, and_then, time, put, push_record, push_dead_letter, transition_record, or_throw,
  find_by_lease_id, emit, event_for,
}
use bek.Worker.Leases.{expire_claimed_record}
use bek.Worker.Enqueue.{new_record, retry_item}

pub data SettleDecision : Type 0 where
  completed : WorkerWorkRecord → SettleDecision
  paused_for_approval : WorkerWorkRecord → SettleDecision
  retry : WorkerWorkRecord → WorkerWorkRecord → ℕ → SettleDecision
  dead : WorkerWorkRecord → WorkerDeadLetterRecord → SettleDecision
  cancelled : WorkerWorkRecord → SettleDecision
  lost_lease : String → SettleDecision

abbrev pub is_cancelled_result : ResultStatus → Bool
is_cancelled_result ResultStatus.cancelled = true
is_cancelled_result _ = false

-- What `settleFailure` writes first.
abbrev pub failed_record : WorkerWorkRecord → RuntimeResult → String → ℕ → WorkerWorkRecord
failed_record r result reason now = record r {
  lease = none;
  result = some result;
  terminal_reason = some reason;
  updated_at = now;
}

module _ (o : QueueOptions) where
  unfoldable pub settle_dead :
      ℕ → WorkerWorkRecord → RuntimeResult → String → ℕ → Queue → Outcome SettleDecision × Queue
  settle_dead i r result reason now q =
      or_throw (transition_record r WorkStatus.dead AttemptState.dead_lettered now) q λ t.
        let q1 = put i t q in
        let letter : WorkerDeadLetterRecord = record {
          id = o.id_factory "dead" q1.next_id;
          sequence = q1.next_sequence;
          work_id = t.id;
          idempotency_key = t.idempotency_key;
          item = t.item;
          reason = reason;
          failed_at = now;
          result = result;
          retry_policy = o.retry_policy;
        } in
        let q2 = push_dead_letter letter q1 in
        let dead_letter_id = Fields.field "deadLetterId" (Json.str letter.id) Fields.end in
        let detail =
          Fields.field "maxAttempts" (Json.num o.retry_policy.max_attempts) dead_letter_id in
        let q3 = emit o (event_for WorkerEventType.failed t reason (some detail) now) now q2 in
        let message : String = "Run work moved to dead-letter queue." in
        let event = event_for WorkerEventType.dead_lettered t message (some dead_letter_id) now in
        (returned (dead t letter), emit o event now q3)

  unfoldable pub settle_retry :
      ℕ → WorkerWorkRecord → ℕ → ℕ → Queue → Outcome SettleDecision × Queue
  settle_retry i r delay_ms now q =
      let retry_at = now + delay_ms in
      let item = retry_item r.item now in
      let next =
        new_record (o.id_factory "work" q.next_id) q.next_sequence item retry_at now (some r.id) in
      let q2 = push_record next q in
      let detail =
        Fields.field "retryAt" (Json.num retry_at)
          (Fields.field "previousAttempt" (Json.num r.item.attempt) Fields.end) in
      let message = concat ("Retry " ∷ decimal item.attempt ∷ " scheduled." ∷ []) in
      let event = record (event_for WorkerEventType.retry_scheduled r message (some detail) now) {
        attempt = some item.attempt;
      } in
      (returned (retry r next retry_at), emit o event now q2)

  unfoldable pub settle_failure :
      ℕ → WorkerWorkRecord → RuntimeResult → ℕ → Queue → Outcome SettleDecision × Queue
  settle_failure i r result now q =
      let reason = or_else result.error "Run work failed." in
      let r1 = failed_record r result reason now in
      let q1 = put i r1 q in
      let gone = settle_dead i r1 result reason now q1 in
      let again : Outcome SettleDecision × Queue =
        or_throw (transition_record r1 WorkStatus.failed AttemptState.retry_scheduled now) q1 λ t.
          let q2 = put i t q1 in
          elim (retry_delay_ms t.item.attempt o.retry_policy) [
            | none ↦ (threw invalid_retry_policy, q2)
            | some delay_ms ↦ settle_retry i t delay_ms now q2
          ] in
      if leb o.retry_policy.max_attempts r.item.attempt then gone else again

  unfoldable pub settle_cancelled :
      ℕ → WorkerWorkRecord → RuntimeResult → ℕ → Queue → Outcome SettleDecision × Queue
  settle_cancelled i r result now q =
      or_throw (transition_record r WorkStatus.cancelled AttemptState.cancelled now) q λ t.
        let reason = or_else r.cancel_reason (or_else result.error "Run cancelled.") in
        let r' : WorkerWorkRecord = record t {
          lease = none;
          result = some result;
          terminal_reason = some reason;
        } in
        let event = event_for WorkerEventType.cancelled r reason none now in
        (returned (cancelled r'), emit o event now (put i r' q))

  unfoldable pub settle_completed :
      ℕ → WorkerWorkRecord → RuntimeResult → ℕ → Queue → Outcome SettleDecision × Queue
  settle_completed i r result now q =
      or_throw (transition_record r WorkStatus.completed AttemptState.completed now) q λ t.
        let r' : WorkerWorkRecord = record t {
          lease = none;
          result = some result;
          terminal_reason = some (or_else result.final_text "Run completed.");
        } in
        let detail =
          Fields.field "actualCostCents" (Json.num result.actual_cost_cents) Fields.end in
        let event = event_for WorkerEventType.completed r "Run work completed." (some detail) now in
        (returned (completed r'), emit o event now (put i r' q))

  unfoldable pub settle_paused :
      ℕ
      → WorkerWorkRecord
      → RuntimeResult
      → ApprovalRequest
      → ℕ
      → Queue
      → Outcome SettleDecision × Queue
  settle_paused i r result approval now q =
      or_throw (transition_record r WorkStatus.awaiting_approval AttemptState.awaiting_approval now)
        q
        λ t.
          let r' : WorkerWorkRecord = record t {
            lease = none;
            result = some result;
            approval = some (approval_gate_from_request approval);
          } in
          let detail = Fields.field "approvalId" (Json.str approval.id) (
            Fields.field "action" (Json.str approval.action)
              (Fields.field "risk" (Json.str (risk_name approval.risk)) Fields.end)) in
          let message = concat ("Run is waiting on approval " ∷ approval.id ∷ "." ∷ []) in
          let event = event_for WorkerEventType.approval_waiting r message (some detail) now in
          (returned (paused_for_approval r'), emit o event now (put i r' q))

  -- `settle` on a live lease with no cancellation, by the status of the result.
  unfoldable pub settle_result :
      ResultStatus
      → Option ApprovalRequest
      → ℕ
      → WorkerWorkRecord
      → RuntimeResult
      → ℕ
      → Queue
      → Outcome SettleDecision × Queue
  settle_result ResultStatus.completed approval i r result now q = settle_completed i r result now q
  settle_result ResultStatus.awaiting_approval none i r result now q = (threw approval_missing, q)
  settle_result ResultStatus.awaiting_approval (some a) i r result now q =
      let paused = settle_paused i r result a now q in
      if a.org_id == r.item.org_id && a.run_id == r.item.run_id
      then paused
      else (threw approval_of_other_work, q)
  settle_result ResultStatus.failed approval i r result now q = settle_failure i r result now q
  settle_result ResultStatus.cancelled approval i r result now q = settle_failure i r result now q

  -- `settle` once the lease is known to be live.
  unfoldable pub settle_live :
      ℕ
      → WorkerWorkRecord
      → RuntimeResult
      → Option ApprovalRequest
      → ℕ
      → Queue
      → Outcome SettleDecision × Queue
  settle_live i r result approval now q =
      let stopped = settle_cancelled i r result now q in
      let going = settle_result result.status approval i r result now q in
      if is_some r.cancel_requested_at || is_cancelled_result result.status then stopped else going

  unfoldable pub settle_record :
      Option WorkerLease
      → ℕ
      → WorkerWorkRecord
      → RuntimeResult
      → Option ApprovalRequest
      → ℕ
      → Queue
      → Outcome SettleDecision × Queue
  settle_record none i r result approval now q =
      (returned (lost_lease "Worker lease is not active."), q)
  settle_record (some l) i r result approval now q =
      let lost =
        and_then (expire_claimed_record o i r now "Worker lease expired before settlement." q)
          (λ _ q'. (returned (lost_lease "Worker lease expired."), q')) in
      let live = settle_live i r result approval now q in
      if is_claimed r.status
      then if leb l.expires_at now then lost else live
      else (returned (lost_lease "Worker lease is not active."), q)

  unfoldable pub settle :
      String
      → RuntimeResult
      → Option ApprovalRequest
      → Option ℕ
      → ℕ
      → Queue
      → Outcome SettleDecision × Queue
  settle lease_id result approval at clock q = elim (find_by_lease_id lease_id q) [
    | none ↦ (returned (lost_lease "Worker lease is not active."), q)
    | some (i, r) ↦ settle_record r.lease i r result approval (time at clock) q
  ]
