-- ===== src/Worker/Behaviour/Failing.antt =====
-- A failed attempt: `settleFailure` of packages/worker/src/index.ts.
use bek.Common.{
  ℕ, ◌+◌, ◌≤◌, ◌<◌, ◌≡◌, refl, ◌⊎◌, inl, inr, Bool-cases, true, false, some, none, [], ◌∷◌, ◌++◌,
  set, set-set, is_some, or_else, leb, leb→le, arith,
}
use bek.Worker.Types.{
  WorkStatus, AttemptState, RuntimeResult, WorkerWorkRecord, WorkerDeadLetterRecord,
}
use bek.Worker.Attempts.{can_transition_run_attempt_state, assert_retry_policy, retry_delay_ms}
use bek.Worker.State.{
  QueueOptions, Queue, Outcome, returned, put, push_record, push_dead_letter, emit,
}
use bek.Worker.Enqueue.{new_record, retry_item}
use bek.Worker.Settle.{
  SettleDecision, retry, dead, failed_record, settle_dead, settle_retry, settle_failure,
}
use bek.Worker.Evolution.{IsValid}
use bek.Worker.Runs.{moved, or_throw-lets}
use bek.Worker.Runs.Leases.{claimed-attempt}
use bek.Worker.Runs.Settle.{retry_delay_ms-some}

-- The reply of `settle_failure` to the last attempt that the policy grants, and the queue.
pub record IsBuried (o : QueueOptions) (q : Queue) (i : ℕ) (r : WorkerWorkRecord)
    (result : RuntimeResult) (now : ℕ) (x : Outcome SettleDecision × Queue) : Type 0 where
  pub gone : WorkerWorkRecord
  pub letter : WorkerDeadLetterRecord
  pub reply : x.0 ≡ returned (dead gone letter)
  pub records : x.1.records ≡ set q.records i gone
  pub letters : x.1.dead_letters ≡ q.dead_letters ++ letter ∷ []
  pub status : gone.status ≡ WorkStatus.dead
  pub no_lease : gone.lease ≡ none
  pub of_work : letter.work_id ≡ r.id
  pub of_item : letter.item ≡ r.item
  pub because : letter.reason ≡ or_else result.error "Run work failed."

-- The reply to an attempt after which the policy grants another, and the queue.
pub record IsRetried (o : QueueOptions) (q : Queue) (i : ℕ) (r : WorkerWorkRecord) (now : ℕ)
    (x : Outcome SettleDecision × Queue) : Type 0 where
  pub over : WorkerWorkRecord
  pub next : WorkerWorkRecord
  pub delay_ms : ℕ
  pub reply : x.0 ≡ returned (retry over next (now + delay_ms))
  pub records : x.1.records ≡ set q.records i over ++ next ∷ []
  pub letters : x.1.dead_letters ≡ q.dead_letters
  pub status : over.status ≡ WorkStatus.failed
  pub no_lease : over.lease ≡ none
  pub delay : retry_delay_ms r.item.attempt o.retry_policy ≡ some delay_ms
  pub queued : next.status ≡ WorkStatus.queued
  pub available : next.available_at ≡ now + delay_ms
  pub attempt : next.item.attempt ≡ r.item.attempt + 1
  pub same_run : next.item.run_id ≡ r.item.run_id
  pub same_org : next.item.org_id ≡ r.item.org_id
  pub granted : next.item.attempt ≤ o.retry_policy.max_attempts
  pub after : next.retry_of ≡ some r.id

module _ (o : QueueOptions) (q : Queue) (i : ℕ) (r : WorkerWorkRecord) (result : RuntimeResult)
    (now : ℕ) (v : IsValid r) (c : r.status ≡ WorkStatus.claimed)
    (n : is_some r.cancel_requested_at ≡ false) where
  settle_failure-buries :
      leb o.retry_policy.max_attempts r.item.attempt ≡ true
      → IsBuried o q i r result now (settle_failure o i r result now q)
  unfolding settle_failure settle_dead can_transition_run_attempt_state put push_dead_letter emit
  settle_failure-buries last =
      let m = failed_record r result (or_else result.error "Run work failed.") now in
      let claimed : r.attempt_state ≡ AttemptState.claimed = claimed-attempt v c n in
      rw last (
        or_throw-lets (IsBuried o q i r result now) _ _ m WorkStatus.dead AttemptState.dead_lettered
          now (rw claimed)
          (record {
            gone = _;
            letter = _;
            reply = refl;
            records = set-set q.records i _ _;
            letters = refl;
            status = refl;
            no_lease = refl;
            of_work = refl;
            of_item = refl;
            because = refl;
          }))

  settle_failure-retries :
      leb o.retry_policy.max_attempts r.item.attempt ≡ false
      → assert_retry_policy o.retry_policy ≡ true
      → IsRetried o q i r now (settle_failure o i r result now q)
  unfolding settle_failure settle_retry can_transition_run_attempt_state put push_record emit
      new_record retry_item
  settle_failure-retries more ok =
      let m = failed_record r result (or_else result.error "Run work failed.") now in
      let claimed : r.attempt_state ≡ AttemptState.claimed = claimed-attempt v c n in
      let delay = retry_delay_ms-some r.item.attempt o.retry_policy ok in
      rw more (
        or_throw-lets (IsRetried o q i r now) _ _ m WorkStatus.failed AttemptState.retry_scheduled
          now (rw claimed)
          (rw delay (record {
            over = moved m WorkStatus.failed AttemptState.retry_scheduled now;
            next = _;
            delay_ms = _;
            reply = refl;
            records = rw set-set;
            letters = refl;
            status = refl;
            no_lease = refl;
            delay = delay;
            queued = refl;
            available = refl;
            attempt = refl;
            same_run = refl;
            same_org = refl;
            granted = ground arith;
            after = refl;
          })))

  -- Claimed work whose attempt fails, with no cancellation asked for. Where the policy grants no
  -- further attempt, the work is dead with its lease gone, and one dead letter of that work and
  -- that reason is added. Where it grants one, the work is failed with its lease gone, and one new
  -- record of the same run is queued for the next attempt, which is within the policy's count, to
  -- be available after the delay of the attempt that failed. The other records are the same.
  pub settle_failure_lem :
      assert_retry_policy o.retry_policy ≡ true
      → (o.retry_policy.max_attempts ≤ r.item.attempt)
          × IsBuried o q i r result now (settle_failure o i r result now q)
        ⊎ (r.item.attempt < o.retry_policy.max_attempts)
          × IsRetried o q i r now (settle_failure o i r result now q)
  settle_failure_lem ok = elim (Bool-cases (leb o.retry_policy.max_attempts r.item.attempt)) [
    | inl last ↦ inl (leb→le _ _ last, settle_failure-buries last)
    | inr more ↦ inr (ground arith, settle_failure-retries more ok)
  ]
