-- ===== src/Worker/Behaviour/Resuming.antt =====
-- Who comes back to the queue after an approval: `resumeAfterApproval` of
-- packages/worker/src/index.ts.
use bek.Common.{
  ℕ, ◌≡◌, ◌≢◌, refl, subst, inl, inr, Bool-cases, true, Option, Option-cases, none, some, get_elem?,
  set, get_elem?-set_self, find_index, find_index-some, All-get_elem?, ◌==◌, eq_iff, arith, String,
}
use bek.Worker.Types.{
  WorkStatus, AttemptState, ApprovalStatus, ApprovalRequest, WorkerApprovalGate, WorkerEventInput,
  WorkerWorkRecord,
}
use bek.Worker.Attempts.{can_transition_run_attempt_state, is_awaiting}
use bek.Worker.State.{
  QueueOptions, Queue, Outcome, returned, time, put, or_throw, emit, transition_record,
}
use bek.Worker.Approvals.{
  ResumeDecision, resume_enqueued, blocked, not_found, is_gated_by, cancel_approval_wait,
  resume_record, decide_wait, already_decided, resume_gated, resume_after_approval,
}
use bek.Worker.Evolution.{IsValid}
use bek.Worker.Evolution.Keeps.{Inv}
use bek.Worker.Runs.{or_throw-lets}

-- Why a record was queued again.
pub record IsGranted (q q' : Queue) (approval : ApprovalRequest) (at : ℕ)
    (resumed : WorkerWorkRecord) : Type 0 where
  pub before : WorkerWorkRecord
  pub gate : WorkerApprovalGate
  pub stood : get_elem? q.records at ≡ some before
  pub waited : before.status ≡ WorkStatus.awaiting_approval
  pub gated : before.approval ≡ some gate
  pub same_approval : gate.approval_id ≡ approval.id
  pub same_payload : gate.payload_hash ≡ approval.payload_hash
  pub same_org : before.item.org_id ≡ approval.org_id
  pub same_run : before.item.run_id ≡ approval.run_id
  pub approved : approval.status ≡ ApprovalStatus.approved
  pub stands : get_elem? q'.records at ≡ some resumed
  pub queued : resumed.status ≡ WorkStatus.queued

-- What a reply that the work is resumed says of the queue.
abbrev Writes : ℕ → Outcome ResumeDecision × Queue → Type 0
Writes i x =
    (r' : WorkerWorkRecord)
    → x.0 ≡ returned (resume_enqueued r')
    → (get_elem? x.1.records i ≡ some r') × (r'.status ≡ WorkStatus.queued)

resumed-eq :
    {a b : WorkerWorkRecord}
    → ◌≡◌ {A = Outcome ResumeDecision} (returned (resume_enqueued a)) (returned (resume_enqueued b))
    → a ≡ b
resumed-eq e = cc

decided-eq :
    {a b : ResumeDecision} → ◌≡◌ {A = Outcome ResumeDecision} (returned a) (returned b) → a ≡ b
decided-eq e = cc

blocked-not_resumed :
    {reason : String} {a b : WorkerWorkRecord}
    → ◌≢◌ {A = Outcome ResumeDecision} (returned (blocked reason a)) (returned (resume_enqueued b))
blocked-not_resumed e = cc

not_found-not_resumed :
    {reason : String} {b : WorkerWorkRecord}
    → ◌≢◌ {A = Outcome ResumeDecision} (returned (not_found reason)) (returned (resume_enqueued b))
not_found-not_resumed e = cc

is_gated_by-some :
    (approval : ApprovalRequest) (r : WorkerWorkRecord) (gate : WorkerApprovalGate)
    → r.approval ≡ some gate
    → is_gated_by approval r ≡ true
    → (r.item.org_id ≡ approval.org_id)
      × (r.item.run_id ≡ approval.run_id)
      × (gate.approval_id ≡ approval.id)
is_gated_by-some approval r gate e h = ground (
  arith,
  eq_iff r.item.org_id approval.org_id,
  eq_iff r.item.run_id approval.run_id,
  eq_iff gate.approval_id approval.id,
)

module _ (o : QueueOptions) where
  -- Only `resume_record` replies so, and it writes the record that it returns.
  cancel_approval_wait-not_resumed :
      (i : ℕ) (r : WorkerWorkRecord) (gate : WorkerApprovalGate) (status : ApprovalStatus)
      (reason : String) (now : ℕ) (q : Queue) (r' : WorkerWorkRecord)
      → (cancel_approval_wait o i r gate status reason now q).0 ≢ returned (resume_enqueued r')
  unfolding cancel_approval_wait or_throw transition_record
  cancel_approval_wait-not_resumed i r gate status reason now q r' e = ground arith

  Writes-resumed :
      (i : ℕ) (m t : WorkerWorkRecord) (input : WorkerEventInput) (clock : ℕ) (p : Queue)
      → get_elem? p.records i ≡ some m
      → t.status ≡ WorkStatus.queued
      → Writes i (returned (resume_enqueued t), emit o input clock (put i t p))
  unfolding put emit
  Writes-resumed i m t input clock p at queued r' e =
      let same = resumed-eq e in
      (
        subst (λ s. get_elem? (set p.records i t) i ≡ some s) same
            (get_elem?-set_self p.records i m t at),
        subst (λ s. s.status ≡ WorkStatus.queued) same queued,
      )

  resume_record-Writes :
      (i : ℕ) (r : WorkerWorkRecord) (gate : WorkerApprovalGate) (approval : ApprovalRequest)
      (trace_id : Option String) (now : ℕ) (q : Queue)
      → get_elem? q.records i ≡ some r
      → r.attempt_state ≡ AttemptState.awaiting_approval
      → Writes i (resume_record o i r gate approval trace_id now q)
  unfolding resume_record can_transition_run_attempt_state put
  resume_record-Writes i r gate approval trace_id now q at a =
      or_throw-lets (Writes i) _ _ _ WorkStatus.queued AttemptState.queued now (rw a)
        (Writes-resumed i _ _ _ now _ (get_elem?-set_self q.records i r _ at) refl)

  decide_wait-writes :
      (status : ApprovalStatus) (i : ℕ) (r : WorkerWorkRecord) (gate : WorkerApprovalGate)
      (approval : ApprovalRequest) (trace_id : Option String) (now : ℕ) (q : Queue)
      (r' : WorkerWorkRecord)
      → get_elem? q.records i ≡ some r
      → r.attempt_state ≡ AttemptState.awaiting_approval
      → (decide_wait o status i r gate approval trace_id now q).0 ≡ returned (resume_enqueued r')
      → (status ≡ ApprovalStatus.approved)
        × (get_elem? (decide_wait o status i r gate approval trace_id now q).1.records i ≡ some r')
        × (r'.status ≡ WorkStatus.queued)
  unfolding decide_wait
  decide_wait-writes ApprovalStatus.pending i r gate approval trace_id now q r' at a e = absurd (
      ground (
        arith,
        cancel_approval_wait-not_resumed i r gate ApprovalStatus.expired "Approval expired." now q
            r',
      ))
  decide_wait-writes ApprovalStatus.denied i r gate approval trace_id now q r' at a e =
      absurd (cancel_approval_wait-not_resumed i r gate _ _ now q r' e)
  decide_wait-writes ApprovalStatus.expired i r gate approval trace_id now q r' at a e =
      absurd (cancel_approval_wait-not_resumed i r gate _ _ now q r' e)
  decide_wait-writes ApprovalStatus.approved i r gate approval trace_id now q r' at a e =
      let (stands, queued) = resume_record-Writes i r gate approval trace_id now q at a r' e in
      (refl, stands, queued)

  already_decided-not_resumed :
      (r : WorkerWorkRecord) (gate : WorkerApprovalGate) (r' : WorkerWorkRecord)
      → already_decided o r gate ≢ resume_enqueued r'
  unfolding already_decided
  already_decided-not_resumed r gate r' e = ground arith

  pub awaiting-attempt :
      (r : WorkerWorkRecord)
      → IsValid r
      → r.status ≡ WorkStatus.awaiting_approval
      → r.attempt_state ≡ AttemptState.awaiting_approval
  awaiting-attempt r v a = ground arith

  pub is_awaiting-eq : (s : WorkStatus) → is_awaiting s ≡ true → s ≡ WorkStatus.awaiting_approval
  is_awaiting-eq s h = ground arith

  resume_gated-writes :
      (waits_for : Option WorkerApprovalGate) (i : ℕ) (r : WorkerWorkRecord)
      (approval : ApprovalRequest) (trace_id : Option String) (now : ℕ) (q : Queue)
      (r' : WorkerWorkRecord)
      → get_elem? q.records i ≡ some r
      → IsValid r
      → (resume_gated o waits_for i r approval trace_id now q).0 ≡ returned (resume_enqueued r')
      → (gate : WorkerApprovalGate) × (waits_for ≡ some gate)
        × (gate.payload_hash ≡ approval.payload_hash)
        × (r.status ≡ WorkStatus.awaiting_approval)
        × (approval.status ≡ ApprovalStatus.approved)
        × (get_elem? (resume_gated o waits_for i r approval trace_id now q).1.records i ≡ some r')
        × (r'.status ≡ WorkStatus.queued)
  unfolding resume_gated
  resume_gated-writes none i r approval trace_id now q r' at v e = absurd (cc)
  resume_gated-writes (some gate) i r approval trace_id now q r' at v e =
      elim (Bool-cases (gate.payload_hash == approval.payload_hash)) [
        | inr differs ↦ absurd (blocked-not_resumed (rw differs at e))
        | inl agrees ↦ elim (Bool-cases (is_awaiting r.status)) [
          | inr over ↦
              absurd (already_decided-not_resumed r gate r' (decided-eq (rw (agrees, over) at e)))
          | inl waits ↦
              let a = is_awaiting-eq r.status waits in
              let (approved, stands, queued) =
                decide_wait-writes approval.status i r gate approval trace_id now q r' at
                  (awaiting-attempt r v a) (rw (agrees, waits) at e) in
              (gate, refl, (eq_iff _ _).0 agrees, a, approved, rw (agrees, waits) stands, queued)
        ]
      ]

  pub found-IsGranted :
      (approval : ApprovalRequest) (trace_id : Option String) (now : ℕ) (q : Queue) (i : ℕ)
      (r resumed : WorkerWorkRecord)
      → Inv q
      → find_index (is_gated_by approval) q.records ≡ some (i, r)
      → (resume_gated o r.approval i r approval trace_id now q).0
        ≡ returned (resume_enqueued resumed)
      → IsGranted q (resume_gated o r.approval i r approval trace_id now q).1 approval i resumed
  found-IsGranted approval trace_id now q i r resumed h found e =
      let (stood, fits) = find_index-some (is_gated_by approval) q.records i found in
      let (gate, gated, hash, waited, approved, stands, queued) =
        resume_gated-writes r.approval i r approval trace_id now q resumed stood
          (All-get_elem? IsValid q.records i h.valid stood) e in
      let (org, run, same) = is_gated_by-some approval r gate gated fits in
      record {
        before = r;
        gate = gate;
        stood = stood;
        waited = waited;
        gated = gated;
        same_approval = same;
        same_payload = hash;
        same_org = org;
        same_run = run;
        approved = approved;
        stands = stands;
        queued = queued;
      }

  -- In a queue of the invariant, a reply that work is resumed is about a record that was awaiting
  -- approval, whose gate is of this approval and this payload's hash, for this organisation and run,
  -- while the approval is approved. It is then the record that the queue holds, and it is queued.
  pub resume_enqueued-IsGranted :
      (approval : ApprovalRequest) (trace_id : Option String) (at : Option ℕ) (clock : ℕ)
      (q : Queue) (resumed : WorkerWorkRecord)
      → Inv q
      → (resume_after_approval o approval trace_id at clock q).0
        ≡ returned (resume_enqueued resumed)
      → (i : ℕ) × IsGranted q
          (resume_after_approval o approval trace_id at clock q).1
          approval
          i
          resumed
  unfolding resume_after_approval
  resume_enqueued-IsGranted approval trace_id at clock q resumed h e =
      elim (Option-cases (find_index (is_gated_by approval) q.records)) [
        | inl out ↦ absurd (not_found-not_resumed (rw (out, resume_after_approval) at e))
        | inr ((i, r), found) ↦ (
          i,
          rw (found, resume_after_approval)
              (found-IsGranted approval trace_id (time at clock) q i r resumed h found
                (rw (found, resume_after_approval) at e)),
        )
      ]
