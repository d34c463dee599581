-- ===== src/Worker/Approvals.antt =====
-- Resuming work after a decision on its approval: `resumeAfterApproval` and `cancelApprovalWait`
-- of packages/worker/src/index.ts.
use bek.Common.{
  ℕ, String, Bool, false, ◌&&◌, Option, none, some, [], ◌∷◌, or_else, find_index, leb,
  if◌then◌else◌, concat, ◌==◌,
}
use bek.Common.Json.{Json, Fields}
use bek.Worker.Types.{
  RuntimeWorkReason, RunWorkItem, ApprovalStatus, ApprovalRequest, WorkStatus, AttemptState,
  WorkerEventType, WorkerApprovalGate, WorkerWorkRecord,
}
use bek.Worker.Attempts.{is_awaiting, status_name}
use bek.Worker.State.{
  QueueOptions, Queue, Outcome, returned, time, put, transition_record, or_throw, emit, event_for,
}

pub data ResumeDecision : Type 0 where
  resume_enqueued : WorkerWorkRecord → ResumeDecision
  already_resumed : WorkerWorkRecord → ResumeDecision
  waiting : WorkerWorkRecord → ResumeDecision
  cancelled : WorkerWorkRecord → ResumeDecision
  blocked : String → WorkerWorkRecord → ResumeDecision
  not_found : String → ResumeDecision

-- The record waits, or has waited, for that approval.
abbrev pub is_gated_by : ApprovalRequest → WorkerWorkRecord → Bool
is_gated_by approval r =
    r.item.org_id == approval.org_id
    && (r.item.run_id == approval.run_id
        && elim r.approval [ none ↦ false | some gate ↦ gate.approval_id == approval.id ])

abbrev optional_id : Option String → Json
optional_id none = Json.null
optional_id (some id) = Json.str id

module _ (o : QueueOptions) where
  unfoldable pub cancel_approval_wait :
      ℕ
      → WorkerWorkRecord
      → WorkerApprovalGate
      → ApprovalStatus
      → String
      → ℕ
      → Queue
      → Outcome ResumeDecision × Queue
  cancel_approval_wait i r gate status reason now q =
      or_throw (transition_record r WorkStatus.cancelled AttemptState.cancelled now) q λ t.
        let r' : WorkerWorkRecord = record t {
          approval = some (record gate { status = status });
          terminal_reason = some reason;
        } in
        let detail = Fields.field "approvalId" (Json.str gate.approval_id) Fields.end in
        let event = event_for WorkerEventType.cancelled r reason (some detail) now in
        (returned (cancelled r'), emit o event now (put i r' q))

  -- The approval is granted: the record goes back to the queue.
  unfoldable pub resume_record :
      ℕ
      → WorkerWorkRecord
      → WorkerApprovalGate
      → ApprovalRequest
      → Option String
      → ℕ
      → Queue
      → Outcome ResumeDecision × Queue
  resume_record i r gate approval trace_id now q =
      let item : RunWorkItem = record (r.item) {
        reason = RuntimeWorkReason.approval_granted;
        trace_id = or_else trace_id r.item.trace_id;
        enqueued_at = now;
      } in
      let r1 : WorkerWorkRecord = record r { item = item } in
      let q1 = put i r1 q in
      or_throw (transition_record r1 WorkStatus.queued AttemptState.queued now) q1 λ t.
        let metadata : Option Fields = elim approval.payload_metadata [
          | none ↦ gate.payload_metadata
          | some m ↦ some m
        ] in
        let gate' : WorkerApprovalGate = record gate {
          status = approval.status;
          payload_metadata = metadata;
        } in
        let r' : WorkerWorkRecord = record t { available_at = now; approval = some gate' } in
        let detail = Fields.field "approvalId" (Json.str approval.id) (
          Fields.field "decidedByPrincipalId" (optional_id approval.decided_by_principal_id)
            Fields.end) in
        let message : String = "Approval granted; run work is queued to resume." in
        let event = event_for WorkerEventType.approval_resumed r' message (some detail) now in
        (returned (resume_enqueued r'), emit o event now (put i r' q1))

  -- The record is awaiting its approval, and the payload's hash agrees: by the approval's status.
  unfoldable pub decide_wait :
      ApprovalStatus
      → ℕ
      → WorkerWorkRecord
      → WorkerApprovalGate
      → ApprovalRequest
      → Option String
      → ℕ
      → Queue
      → Outcome ResumeDecision × Queue
  decide_wait ApprovalStatus.pending i r gate approval trace_id now q =
      let lapsed = cancel_approval_wait i r gate ApprovalStatus.expired "Approval expired." now q in
      if leb gate.expires_at now then lapsed else (returned (waiting r), q)
  decide_wait ApprovalStatus.denied i r gate approval trace_id now q =
      cancel_approval_wait i r gate ApprovalStatus.denied "Approval denied." now q
  decide_wait ApprovalStatus.expired i r gate approval trace_id now q =
      cancel_approval_wait i r gate ApprovalStatus.expired "Approval expired." now q
  decide_wait ApprovalStatus.approved i r gate approval trace_id now q =
      resume_record i r gate approval trace_id now q

  -- The record is no longer awaiting its approval.
  unfoldable pub already_decided : WorkerWorkRecord → WorkerApprovalGate → ResumeDecision
  already_decided r gate =
      let blocked_by : ResumeDecision =
        blocked
          (concat ("Approval gate is " ∷ status_name r.status ∷ ", not awaiting approval." ∷ []))
          r in
      elim gate.status [
        | ApprovalStatus.approved ↦ already_resumed r
        | _ ↦ elim r.status [ WorkStatus.cancelled ↦ cancelled r | _ ↦ blocked_by ]
      ]

  unfoldable pub resume_gated :
      Option WorkerApprovalGate
      → ℕ
      → WorkerWorkRecord
      → ApprovalRequest
      → Option String
      → ℕ
      → Queue
      → Outcome ResumeDecision × Queue
  unfolding already_decided
  resume_gated none i r approval trace_id now q =
      (returned (blocked "Paused work is missing its approval gate." r), q)
  resume_gated (some gate) i r approval trace_id now q =
      let detail = Fields.field "approvalId" (Json.str approval.id) Fields.end in
      let message : String = "Approval payload hash did not match paused work." in
      let event = event_for WorkerEventType.approval_blocked r message (some detail) now in
      let mismatch : Outcome ResumeDecision × Queue = (
        returned (blocked "Approval payload hash does not match paused work." r),
        emit o event now q,
      ) in
      let decided = decide_wait approval.status i r gate approval trace_id now q in
      if gate.payload_hash == approval.payload_hash
      then if is_awaiting r.status then decided else (returned (already_decided r gate), q)
      else mismatch

  unfoldable pub resume_after_approval :
      ApprovalRequest → Option String → Option ℕ → ℕ → Queue → Outcome ResumeDecision × Queue
  resume_after_approval approval trace_id at clock q =
      elim (find_index (is_gated_by approval) q.records) [
        | none ↦ (returned (not_found "No paused work is waiting for that approval."), q)
        | some (i, r) ↦ resume_gated r.approval i r approval trace_id (time at clock) q
      ]
