-- ===== src/Worker/Runs/Resumes.antt =====
-- Resuming after an approval evolves the queue, and throws only for its input.
use bek.Common.{
  ℕ, ◌≡◌, inl, inr, Bool-cases, true, Option, Option-cases, none, some, get_elem?, All-get_elem?,
  find_index, find_index-some, leb, ◌==◌, arith, String,
}
use bek.Worker.Types.{
  WorkStatus, AttemptState, ApprovalStatus, ApprovalRequest, WorkerApprovalGate, WorkerWorkRecord,
}
use bek.Worker.Attempts.{can_transition_run_attempt_state, is_awaiting}
use bek.Worker.State.{QueueOptions, Queue, time}
use bek.Worker.Approvals.{
  is_gated_by, cancel_approval_wait, resume_record, decide_wait, resume_gated,
  resume_after_approval,
}
use bek.Worker.Evolution.{IsValid, same, changed, Runs}
use bek.Worker.Evolution.Keeps.{Inv}
use bek.Worker.Runs.{or_throw-Runs, returned-Runs, emit-Evolves, changed_twice}

module _ (o : QueueOptions) where
  cancel_approval_wait-Runs :
      {q : Queue} (i : ℕ) (r : WorkerWorkRecord) (gate : WorkerApprovalGate)
      (status : ApprovalStatus) (reason : String) (now : ℕ)
      → get_elem? q.records i ≡ some r
      → IsValid r
      → r.status ≡ WorkStatus.awaiting_approval
      → Runs q (cancel_approval_wait o i r gate status reason now q)
  unfolding cancel_approval_wait can_transition_run_attempt_state
  cancel_approval_wait-Runs i r gate status reason now at v a =
      or_throw-Runs _ _ r WorkStatus.cancelled AttemptState.cancelled now (ground arith)
        (returned-Runs _ (emit-Evolves o _ now (changed same i r _ at (ground arith))))

  resume_record-Runs :
      {q : Queue} (i : ℕ) (r : WorkerWorkRecord) (gate : WorkerApprovalGate)
      (approval : ApprovalRequest) (trace_id : Option String) (now : ℕ)
      → get_elem? q.records i ≡ some r
      → IsValid r
      → r.status ≡ WorkStatus.awaiting_approval
      → Runs q (resume_record o i r gate approval trace_id now q)
  unfolding resume_record can_transition_run_attempt_state
  resume_record-Runs i r gate approval trace_id now at v a =
      or_throw-Runs _ _ _ WorkStatus.queued AttemptState.queued now (ground arith)
        (returned-Runs _ (emit-Evolves o _ now (changed_twice i r _ _ same at (ground arith))))

  decide_wait-Runs :
      {q : Queue} (status : ApprovalStatus) (i : ℕ) (r : WorkerWorkRecord)
      (gate : WorkerApprovalGate) (approval : ApprovalRequest) (trace_id : Option String) (now : ℕ)
      → get_elem? q.records i ≡ some r
      → IsValid r
      → r.status ≡ WorkStatus.awaiting_approval
      → Runs q (decide_wait o status i r gate approval trace_id now q)
  unfolding decide_wait
  decide_wait-Runs ApprovalStatus.pending i r gate approval trace_id now at v a =
      elim (Bool-cases (leb gate.expires_at now)) [
        | inl lapsed ↦ rw lapsed (cancel_approval_wait-Runs i r gate _ _ now at v a)
        | inr open_still ↦ rw open_still (returned-Runs _ same)
      ]
  decide_wait-Runs ApprovalStatus.denied i r gate approval trace_id now at v a =
      cancel_approval_wait-Runs i r gate _ _ now at v a
  decide_wait-Runs ApprovalStatus.expired i r gate approval trace_id now at v a =
      cancel_approval_wait-Runs i r gate _ _ now at v a
  decide_wait-Runs ApprovalStatus.approved i r gate approval trace_id now at v a =
      resume_record-Runs i r gate approval trace_id now at v a

  is_awaiting-eq : (s : WorkStatus) → is_awaiting s ≡ true → s ≡ WorkStatus.awaiting_approval
  is_awaiting-eq s h = ground arith

  resume_gated-Runs :
      {q : Queue} (waits_for : Option WorkerApprovalGate) (i : ℕ) (r : WorkerWorkRecord)
      (approval : ApprovalRequest) (trace_id : Option String) (now : ℕ)
      → get_elem? q.records i ≡ some r
      → IsValid r
      → Runs q (resume_gated o waits_for i r approval trace_id now q)
  unfolding resume_gated
  resume_gated-Runs none i r approval trace_id now at v = returned-Runs _ same
  resume_gated-Runs (some gate) i r approval trace_id now at v =
      elim (Bool-cases (gate.payload_hash == approval.payload_hash)) [
        | inr differs ↦ rw differs (returned-Runs _ (emit-Evolves o _ now same))
        | inl agrees ↦ rw agrees (elim (Bool-cases (is_awaiting r.status)) [
          | inl a ↦ rw a (
              decide_wait-Runs approval.status i r gate approval trace_id now at v
                (is_awaiting-eq r.status a))
          | inr over ↦ rw over (returned-Runs _ same)
        ])
      ]

  pub resume_after_approval-Runs :
      {q : Queue} (approval : ApprovalRequest) (trace_id : Option String) (at : Option ℕ)
      (clock : ℕ)
      → Inv q
      → Runs q (resume_after_approval o approval trace_id at clock q)
  unfolding resume_after_approval
  resume_after_approval-Runs {q} approval trace_id at clock h =
      elim (Option-cases (find_index (is_gated_by approval) q.records)) [
        | inl out ↦ rw (out, resume_after_approval) (returned-Runs _ same)
        | inr ((i, r), found) ↦
            let stands = (find_index-some (is_gated_by approval) q.records i found).0 in
            rw (found, resume_after_approval)
              (resume_gated-Runs r.approval i r approval trace_id (time at clock) stands
                (All-get_elem? IsValid q.records i h.valid stands))
      ]
