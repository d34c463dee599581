-- ===== src/Worker/Runs/Settle.antt =====
-- `settle` evolves the queue, and throws only for its input.
use bek.Common.{
  ℕ, ◌-◌, ◌*◌, ◌^◌, min, ◌≡◌, refl, or_else, inl, inr, Bool-cases, true, false, ◌&&◌, ◌||◌, Option,
  Option-cases, none, some, get_elem?, All-get_elem?, is_some, leb, ◌==◌, arith, String,
}
use bek.Worker.Types.{
  WorkStatus, AttemptState, WorkerWorkRecord, WorkerLease, ResultStatus, RuntimeResult,
  ApprovalRequest, WorkerRetryPolicy,
}
use bek.Worker.Attempts.{
  can_transition_run_attempt_state, is_claimed, retry_delay_ms, assert_retry_policy,
}
use bek.Worker.State.{QueueOptions, Queue, time, put, find_by_lease_id}
use bek.Worker.Enqueue.{new_record}
use bek.Worker.Settle.{
  failed_record, settle_dead, settle_retry, settle_failure, settle_cancelled, settle_completed,
  settle_paused, is_cancelled_result, settle_result, settle_live, settle_record, settle,
}
use bek.Worker.Evolution.{IsValid, Change, Evolves, same, changed, pushed, buried, Runs}
use bek.Worker.Evolution.Keeps.{Inv}
use bek.Worker.Runs.{or_throw-Runs, and_then-Runs, returned-Runs, emit-Evolves, changed_twice}
use bek.Worker.Runs.Leases.{
  claimed-can_cancel, claimed-attempt, is_claimed-eq, find_by_lease_id-some,
  expire_claimed_record-Runs,
}

pub retry_delay_ms-some :
    (attempt : ℕ) (policy : WorkerRetryPolicy)
    → assert_retry_policy policy ≡ true
    → retry_delay_ms attempt policy
      ≡ some (min policy.max_delay_ms (policy.base_delay_ms * 2 ^ (attempt - 1)))
unfolding retry_delay_ms
retry_delay_ms-some attempt policy ok = rw ok

module _ (o : QueueOptions) where
  settle_dead-Runs :
      {q p : Queue} (i : ℕ) (r m : WorkerWorkRecord) (result : RuntimeResult) (reason : String)
      (now : ℕ)
      → Evolves q p
      → get_elem? p.records i ≡ some r
      → m.attempt_state ≡ AttemptState.claimed
      → Change r (record m {
        status = WorkStatus.dead;
        attempt_state = AttemptState.dead_lettered;
        updated_at = now;
      })
      → Runs q (settle_dead o i m result reason now (put i m p))
  unfolding settle_dead can_transition_run_attempt_state
  settle_dead-Runs i r m result reason now w at a c =
      or_throw-Runs _ _ m WorkStatus.dead AttemptState.dead_lettered now (rw a) (
        returned-Runs _ (
          emit-Evolves o _ now
            (emit-Evolves o _ now (buried (changed_twice i r m _ w at c) _ refl))))

  settle_retry-Runs :
      {q p : Queue} (i : ℕ) (r : WorkerWorkRecord) (delay_ms now : ℕ)
      → Evolves q p
      → Runs q (settle_retry o i r delay_ms now p)
  unfolding settle_retry new_record
  settle_retry-Runs i r delay_ms now w =
      returned-Runs _ (emit-Evolves o _ now (pushed w _ refl refl (ground arith)))

  settle_cancelled-Runs :
      {q : Queue} (i : ℕ) (r : WorkerWorkRecord) (result : RuntimeResult) (now : ℕ)
      → get_elem? q.records i ≡ some r
      → IsValid r
      → r.status ≡ WorkStatus.claimed
      → Runs q (settle_cancelled o i r result now q)
  unfolding settle_cancelled
  settle_cancelled-Runs i r result now at v c =
      or_throw-Runs _ _ r WorkStatus.cancelled AttemptState.cancelled now (claimed-can_cancel v c)
        (returned-Runs _ (emit-Evolves o _ now (changed same i r _ at (ground arith))))

  -- Below, no cancellation is asked for.
  module _ {q : Queue} (i : ℕ) (r : WorkerWorkRecord) (result : RuntimeResult) (now : ℕ)
      (at : get_elem? q.records i ≡ some r) (v : IsValid r) (c : r.status ≡ WorkStatus.claimed)
      (n : is_some r.cancel_requested_at ≡ false) where
    settle_failure-Runs :
        assert_retry_policy o.retry_policy ≡ true → Runs q (settle_failure o i r result now q)
    unfolding settle_failure can_transition_run_attempt_state
    settle_failure-Runs ok =
        let reason = or_else result.error "Run work failed." in
        let m = failed_record r result reason now in
        let claimed : r.attempt_state ≡ AttemptState.claimed = claimed-attempt v c n in
        elim (Bool-cases (leb o.retry_policy.max_attempts r.item.attempt)) [
          | inl last ↦
              rw last (settle_dead-Runs i r m result reason now same at claimed (ground arith))
          | inr more ↦ rw more (
              or_throw-Runs _ _ m WorkStatus.failed AttemptState.retry_scheduled now (rw claimed) (
                rw (retry_delay_ms-some r.item.attempt o.retry_policy ok)
                  (settle_retry-Runs i _ _ now (changed_twice i r m _ same at (ground arith)))))
        ]

    settle_completed-Runs : Runs q (settle_completed o i r result now q)
    unfolding settle_completed can_transition_run_attempt_state
    settle_completed-Runs =
        or_throw-Runs _ _ r WorkStatus.completed AttemptState.completed now
          (rw (claimed-attempt v c n))
          (returned-Runs _ (emit-Evolves o _ now (changed same i r _ at (ground arith))))

    settle_paused-Runs :
        (approval : ApprovalRequest) → Runs q (settle_paused o i r result approval now q)
    unfolding settle_paused can_transition_run_attempt_state
    settle_paused-Runs approval =
        or_throw-Runs _ _ r WorkStatus.awaiting_approval AttemptState.awaiting_approval now
          (rw (claimed-attempt v c n))
          (returned-Runs _ (emit-Evolves o _ now (changed same i r _ at (ground arith))))

    settle_result-Runs :
        (status : ResultStatus) (approval : Option ApprovalRequest)
        → assert_retry_policy o.retry_policy ≡ true
        → Runs q (settle_result o status approval i r result now q)
    unfolding settle_result
    settle_result-Runs ResultStatus.completed approval ok = settle_completed-Runs
    settle_result-Runs ResultStatus.awaiting_approval none ok = record {
      evolves = same;
      sound = tt;
    }
    settle_result-Runs ResultStatus.awaiting_approval (some a) ok =
        elim (Bool-cases (a.org_id == r.item.org_id && a.run_id == r.item.run_id)) [
          | inl own ↦ rw own (settle_paused-Runs a)
          | inr other ↦ rw other (record { evolves = same; sound = tt })
        ]
    settle_result-Runs ResultStatus.failed approval ok = settle_failure-Runs ok
    settle_result-Runs ResultStatus.cancelled approval ok = settle_failure-Runs ok

  settle_live-Runs :
      {q : Queue} (i : ℕ) (r : WorkerWorkRecord) (result : RuntimeResult)
      (approval : Option ApprovalRequest) (now : ℕ)
      → assert_retry_policy o.retry_policy ≡ true
      → get_elem? q.records i ≡ some r
      → IsValid r
      → r.status ≡ WorkStatus.claimed
      → Runs q (settle_live o i r result approval now q)
  unfolding settle_live
  settle_live-Runs i r result approval now ok at v c =
      elim (Bool-cases (is_some r.cancel_requested_at || is_cancelled_result result.status)) [
        | inl stop ↦ rw stop (settle_cancelled-Runs i r result now at v c)
        | inr go ↦
            rw go
              (settle_result-Runs i r result now at v c (ground arith) result.status approval ok)
      ]

  settle_record-Runs :
      {q : Queue} (lease : Option WorkerLease) (i : ℕ) (r : WorkerWorkRecord)
      (result : RuntimeResult) (approval : Option ApprovalRequest) (now : ℕ)
      → assert_retry_policy o.retry_policy ≡ true
      → Inv q
      → get_elem? q.records i ≡ some r
      → Runs q (settle_record o lease i r result approval now q)
  unfolding settle_record
  settle_record-Runs none i r result approval now ok h at = returned-Runs _ same
  settle_record-Runs {q} (some l) i r result approval now ok h at =
      elim (Bool-cases (is_claimed r.status)) [
        | inr other ↦ rw other (returned-Runs _ same)
        | inl c ↦ rw c (elim (Bool-cases (leb l.expires_at now)) [
          | inl over ↦ rw over (
              and_then-Runs _ _
                (expire_claimed_record-Runs o i r now _ same h at (is_claimed-eq r.status c))
                (λ _ p w. returned-Runs _ w))
          | inr live ↦ rw live (
              settle_live-Runs i r result approval now ok at
                (All-get_elem? IsValid q.records i h.valid at) (is_claimed-eq r.status c))
        ])
      ]

  pub settle-Runs :
      {q : Queue} (lease_id : String) (result : RuntimeResult) (approval : Option ApprovalRequest)
      (at : Option ℕ) (clock : ℕ)
      → assert_retry_policy o.retry_policy ≡ true
      → Inv q
      → Runs q (settle o lease_id result approval at clock q)
  unfolding settle
  settle-Runs {q} lease_id result approval at clock ok h =
      elim (Option-cases (find_by_lease_id lease_id q)) [
        | inl out ↦ rw (out, settle) (returned-Runs _ same)
        | inr ((i, r), found) ↦
            rw (found, settle)
              (settle_record-Runs r.lease i r result approval (time at clock) ok h
                (find_by_lease_id-some lease_id q i found).0)
      ]
