-- ===== src/Worker/Behaviour/Requeueing.antt =====
-- That nothing but a granted approval brings work back: `resumeAfterApproval` of
-- packages/worker/src/index.ts on the whole queue.
use bek.Common.{
  ℕ, zero, suc, ◌≡◌, refl, ap, ◌⊎◌, inl, inr, Bool-cases, Option, Option-cases, none, some, List,
  [], ◌∷◌, get_elem?, set, set-set, leb, find_index, find_index-some, All-get_elem?, ◌==◌, arith,
  String,
}
use bek.Worker.Types.{
  WorkStatus, AttemptState, ApprovalStatus, ApprovalRequest, WorkerApprovalGate, WorkerEventInput,
  WorkerWorkRecord,
}
use bek.Worker.Attempts.{can_transition_run_attempt_state, is_awaiting}
use bek.Worker.State.{QueueOptions, Queue, Outcome, returned, time, put, emit}
use bek.Worker.Approvals.{
  ResumeDecision, resume_enqueued, cancelled, is_gated_by, cancel_approval_wait, resume_record,
  decide_wait, resume_gated, resume_after_approval,
}
use bek.Worker.Evolution.{IsValid}
use bek.Worker.Evolution.Keeps.{Inv}
use bek.Worker.Runs.{or_throw-lets}
use bek.Worker.Behaviour.Resuming.{IsGranted, found-IsGranted, awaiting-attempt, is_awaiting-eq}

-- What stands in a list that is written to stood there, or is what was written.
written {ℓ} :
    {A : Type ℓ} (xs : List A) (i j : ℕ) (t : A) {x : A}
    → get_elem? (set xs i t) j ≡ some x
    → (get_elem? xs j ≡ some x) ⊎ (j ≡ i) × (t ≡ x)
written [] i j t at = inl at
written (y ∷ ys) zero zero t at = inr (refl, ground (arith, at))
written (y ∷ ys) zero (suc j) t at = inl at
written (y ∷ ys) (suc i) zero t at = inl at
written (y ∷ ys) (suc i) (suc j) t at = elim (written ys i j t at) [
  | inl stood ↦ inl stood
  | inr (same, e) ↦ inr (ap suc same, e)
]

-- Every record that is queued afterwards stood in the queue as it is, or is the one at that place
-- that the reply is about.
abbrev Spares : Queue → ℕ → Outcome ResumeDecision × Queue → Type 0
Spares q i x =
    (j : ℕ) (r' : WorkerWorkRecord)
    → get_elem? x.1.records j ≡ some r'
    → r'.status ≡ WorkStatus.queued
    → (get_elem? q.records j ≡ some r') ⊎ (j ≡ i) × (x.0 ≡ returned (resume_enqueued r'))

module _ (o : QueueOptions) where
  cancelled-Spares :
      (i : ℕ) (t : WorkerWorkRecord) (input : WorkerEventInput) (clock : ℕ) (q : Queue)
      → t.status ≡ WorkStatus.cancelled
      → Spares q i (returned (cancelled t), emit o input clock (put i t q))
  unfolding put emit
  cancelled-Spares i t input clock q over j r' at queued = elim (written q.records i j t at) [
    | inl stood ↦ inl stood
    | inr (_, same) ↦
        absurd (ground (arith, over, queued, ap (λ (r : WorkerWorkRecord). r.status) same))
  ]

  resumed-Spares :
      (i : ℕ) (m t : WorkerWorkRecord) (input : WorkerEventInput) (clock : ℕ) (q : Queue)
      → Spares q i (returned (resume_enqueued t), emit o input clock (put i t (put i m q)))
  unfolding put emit
  resumed-Spares i m t input clock q j r' at queued =
      elim (written q.records i j t (rw (set-set q.records i m t) at at)) [
        | inl stood ↦ inl stood
        | inr (here, same) ↦ inr (here, ap (λ r. returned (resume_enqueued r)) same)
      ]

  module _ (i : ℕ) (r : WorkerWorkRecord) (gate : WorkerApprovalGate) (now : ℕ) (q : Queue)
      (waits : r.attempt_state ≡ AttemptState.awaiting_approval) where
    cancel_approval_wait-Spares :
        (status : ApprovalStatus) (reason : String)
        → Spares q i (cancel_approval_wait o i r gate status reason now q)
    unfolding cancel_approval_wait can_transition_run_attempt_state
    cancel_approval_wait-Spares status reason =
        or_throw-lets (Spares q i) _ _ _ WorkStatus.cancelled AttemptState.cancelled now (rw waits)
          (cancelled-Spares i _ _ now q refl)

    resume_record-Spares :
        (approval : ApprovalRequest) (trace_id : Option String)
        → Spares q i (resume_record o i r gate approval trace_id now q)
    unfolding resume_record can_transition_run_attempt_state
    resume_record-Spares approval trace_id =
        or_throw-lets (Spares q i) _ _ _ WorkStatus.queued AttemptState.queued now (rw waits)
          (resumed-Spares i _ _ _ now q)

    decide_wait-Spares :
        (status : ApprovalStatus) (approval : ApprovalRequest) (trace_id : Option String)
        → Spares q i (decide_wait o status i r gate approval trace_id now q)
    unfolding decide_wait
    decide_wait-Spares ApprovalStatus.pending approval trace_id =
        elim (Bool-cases (leb gate.expires_at now)) [
          | inl late ↦
              rw late (cancel_approval_wait-Spares ApprovalStatus.expired "Approval expired.")
          | inr live ↦ rw live (λ j r' at queued. inl at)
        ]
    decide_wait-Spares ApprovalStatus.denied approval trace_id =
        cancel_approval_wait-Spares ApprovalStatus.denied "Approval denied."
    decide_wait-Spares ApprovalStatus.expired approval trace_id =
        cancel_approval_wait-Spares ApprovalStatus.expired "Approval expired."
    decide_wait-Spares ApprovalStatus.approved approval trace_id =
        resume_record-Spares approval trace_id

  resume_gated-Spares :
      (waits_for : Option WorkerApprovalGate) (i : ℕ) (r : WorkerWorkRecord)
      (approval : ApprovalRequest) (trace_id : Option String) (now : ℕ) (q : Queue)
      → IsValid r
      → Spares q i (resume_gated o waits_for i r approval trace_id now q)
  unfolding resume_gated emit
  resume_gated-Spares none i r approval trace_id now q v = λ j r' at queued. inl at
  resume_gated-Spares (some gate) i r approval trace_id now q v =
      elim (Bool-cases (gate.payload_hash == approval.payload_hash)) [
        | inr differs ↦ rw differs (λ j r' at queued. inl at)
        | inl agrees ↦ elim (Bool-cases (is_awaiting r.status)) [
          | inr over ↦ rw (agrees, over) (λ j r' at queued. inl at)
          | inl waits ↦
              rw (agrees, waits)
                (decide_wait-Spares i r gate now q
                  (awaiting-attempt o r v (is_awaiting-eq o r.status waits)) approval.status
                  approval trace_id)
        ]
      ]

  -- In a queue of the invariant, whatever `resume_after_approval` replies, every record that is
  -- queued afterwards stood in the queue as it is, or was awaiting approval at that place, with a
  -- gate of this approval and this payload's hash, for this organisation and run, while the approval
  -- is approved; and then it is the record that the reply names as resumed.
  pub resume-IsGranted :
      (approval : ApprovalRequest) (trace_id : Option String) (at : Option ℕ) (clock : ℕ)
      (q : Queue) (j : ℕ) (resumed : WorkerWorkRecord)
      → Inv q
      → get_elem? (resume_after_approval o approval trace_id at clock q).1.records j ≡ some resumed
      → resumed.status ≡ WorkStatus.queued
      → (get_elem? q.records j ≡ some resumed)
        ⊎ ((resume_after_approval o approval trace_id at clock q).0
            ≡ returned (resume_enqueued resumed))
          × IsGranted q (resume_after_approval o approval trace_id at clock q).1 approval j resumed
  unfolding resume_after_approval
  resume-IsGranted approval trace_id at clock q j resumed h there queued =
      elim (Option-cases (find_index (is_gated_by approval) q.records)) [
        | inl out ↦ inl (rw (out, resume_after_approval) at there)
        | inr ((i, r), found) ↦
            let now = time at clock in
            let valid =
              All-get_elem? IsValid q.records i h.valid
                (find_index-some (is_gated_by approval) q.records i found).0 in
            rw (found, resume_after_approval)
              (elim (resume_gated-Spares r.approval i r approval trace_id now q valid j resumed
                (rw (found, resume_after_approval) at there) queued) [
                  | inl stood ↦ inl stood
                  | inr (here, reply) ↦ inr (
                    reply,
                    rw here (found-IsGranted o approval trace_id now q i r resumed h found reply),
                  )
                ])
      ]
