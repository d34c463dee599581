-- ===== src/Worker/Runs/Leases.antt =====
-- The operations on leases evolve the queue, and throw only for their input.
use bek.Common.{
  ℕ, zero, suc, ◌-◌, ◌≡◌, refl, inl, inr, Bool-cases, true, false, Option, Option-cases, none, some,
  List, ◌++◌, [], ◌∷◌, get_elem?, All-get_elem?, find_index-some, or_else, length, is_some, eqb,
  leb, arith, String,
}
use bek.Worker.Types.{WorkStatus, AttemptState, WorkerWorkRecord, WorkerLease}
use bek.Worker.Attempts.{can_transition_run_attempt_state, is_claimed}
use bek.Worker.State.{QueueOptions, Queue, time, find_by_lease_id, holds_lease}
use bek.Worker.Leases.{
  expire_asked, expire_claimed_record, requeue_from, requeue_expired_leases, has_expired_lease,
  expire_leases, renew_lease, heartbeat_live, heartbeat_record, heartbeat,
}
use bek.Worker.Evolution.{IsValid, Evolves, same, changed, Runs}
use bek.Worker.Evolution.Keeps.{Inv, Evolves-Inv}
use bek.Worker.Runs.{or_throw-Runs, and_then-Runs, returned-Runs, emit-Evolves}

-- From a claimed record the table leads to cancellation in either attempt state, and to the rest
-- where no cancellation is asked for.
pub claimed-can_cancel :
    {r : WorkerWorkRecord}
    → IsValid r
    → r.status ≡ WorkStatus.claimed
    → can_transition_run_attempt_state r.attempt_state AttemptState.cancelled ≡ true
unfolding can_transition_run_attempt_state
claimed-can_cancel v c = ground arith

pub is_claimed-eq : (s : WorkStatus) → is_claimed s ≡ true → s ≡ WorkStatus.claimed
is_claimed-eq s h = ground arith

pub claimed-attempt :
    {r : WorkerWorkRecord}
    → IsValid r
    → r.status ≡ WorkStatus.claimed
    → is_some r.cancel_requested_at ≡ false
    → r.attempt_state ≡ AttemptState.claimed
claimed-attempt v c n = ground arith

-- A record found by its lease stands at its index.
pub find_by_lease_id-some :
    (lease_id : String) (q : Queue) (i : ℕ) {r : WorkerWorkRecord}
    → find_by_lease_id lease_id q ≡ some (i, r)
    → (get_elem? q.records i ≡ some r) × (holds_lease lease_id r ≡ true)
unfolding find_by_lease_id
find_by_lease_id-some lease_id q i e = find_index-some (holds_lease lease_id) q.records i e

module _ (o : QueueOptions) where
  expire_asked-Runs :
      {q p : Queue} (asked : Option ℕ) (i : ℕ) (r : WorkerWorkRecord) (now : ℕ) (message : String)
      → Evolves q p
      → get_elem? p.records i ≡ some r
      → IsValid r
      → r.status ≡ WorkStatus.claimed
      → r.cancel_requested_at ≡ asked
      → Runs q (expire_asked o asked i r now message p)
  unfolding expire_asked can_transition_run_attempt_state
  expire_asked-Runs {p} none i r now message w at v c e =
      or_throw-Runs p _ r WorkStatus.queued AttemptState.queued now
        (rw (claimed-attempt v c (rw e)) refl)
        (returned-Runs _ (emit-Evolves o _ now (changed w i r _ at (ground arith))))
  expire_asked-Runs {p} (some a) i r now message w at v c e =
      or_throw-Runs p _ r WorkStatus.cancelled AttemptState.cancelled now (claimed-can_cancel v c)
        (returned-Runs _ (emit-Evolves o _ now (changed w i r _ at (ground arith))))

  pub expire_claimed_record-Runs :
      {q p : Queue} (i : ℕ) (r : WorkerWorkRecord) (now : ℕ) (message : String)
      → Evolves q p
      → Inv p
      → get_elem? p.records i ≡ some r
      → r.status ≡ WorkStatus.claimed
      → Runs q (expire_claimed_record o i r now message p)
  unfolding expire_claimed_record
  expire_claimed_record-Runs {p} i r now message w h at c =
      expire_asked-Runs r.cancel_requested_at i r now message w at
        (All-get_elem? IsValid p.records i h.valid at) c refl

  pub has_expired_lease-claimed :
      (now : ℕ) (r : WorkerWorkRecord)
      → has_expired_lease now r ≡ true
      → r.status ≡ WorkStatus.claimed
  unfolding has_expired_lease
  has_expired_lease-claimed now r e = ground arith

  requeue_from-Runs :
      {q p : Queue} (n i now : ℕ) (done : List WorkerWorkRecord)
      → Inv q
      → Evolves q p
      → Runs q (requeue_from o n i now done p)
  unfolding requeue_from
  requeue_from-Runs zero i now done h w = returned-Runs done w
  requeue_from-Runs {p} (suc n) i now done h w = elim (Option-cases (get_elem? p.records i)) [
    | inl out ↦ rw (out, requeue_from) (returned-Runs done w)
    | inr (r, at) ↦
        rw (at, requeue_from)
          (elim (Bool-cases (has_expired_lease now r)) [
            | inl old ↦ rw old (
                and_then-Runs _ _
                  (expire_claimed_record-Runs i r now _ w (Evolves-Inv w h) at
                    (has_expired_lease-claimed now r old))
                  (λ r' p' w'. requeue_from-Runs n (suc i) now (done ++ r' ∷ []) h w'))
            | inr live ↦ rw live (requeue_from-Runs n (suc i) now done h w)
          ])
  ]

  pub requeue_expired_leases-Runs :
      {q : Queue} (now : ℕ) → Inv q → Runs q (requeue_expired_leases o now q)
  unfolding requeue_expired_leases
  requeue_expired_leases-Runs {q} now h = requeue_from-Runs (length q.records) 0 now [] h same

  pub expire_leases-Runs :
      {q : Queue} (at : Option ℕ) (clock : ℕ) → Inv q → Runs q (expire_leases o at clock q)
  unfolding expire_leases
  expire_leases-Runs at clock h =
      and_then-Runs _ _ (requeue_expired_leases-Runs (time at clock) h)
        (λ rs p w. returned-Runs _ w)

  renew_lease-Runs :
      {q : Queue} (i : ℕ) (r : WorkerWorkRecord) (l : WorkerLease) (by : Option ℕ) (now : ℕ)
      → get_elem? q.records i ≡ some r
      → IsValid r
      → r.status ≡ WorkStatus.claimed
      → Runs q (renew_lease o i r l by now q)
  unfolding renew_lease
  renew_lease-Runs i r l by now at v c = elim (Bool-cases (eqb (or_else by span) 0)) [
    | inl zero_span ↦ rw zero_span (record { evolves = same; sound = tt })
    | inr longer ↦
        rw longer (returned-Runs _ (emit-Evolves o _ now (changed same i r _ at (ground arith))))
  ]
    where
      span : ℕ
      span = l.expires_at - l.claimed_at

  heartbeat_live-Runs :
      {q : Queue} (asked : Option ℕ) (i : ℕ) (r : WorkerWorkRecord) (l : WorkerLease)
      (by : Option ℕ) (now : ℕ)
      → get_elem? q.records i ≡ some r
      → IsValid r
      → r.status ≡ WorkStatus.claimed
      → Runs q (heartbeat_live o asked i r l by now q)
  unfolding heartbeat_live
  heartbeat_live-Runs none i r l by now at v c = renew_lease-Runs i r l by now at v c
  heartbeat_live-Runs (some _) i r l by now at v c = returned-Runs _ same

  heartbeat_record-Runs :
      {q : Queue} (lease : Option WorkerLease) (i : ℕ) (r : WorkerWorkRecord) (by : Option ℕ)
      (now : ℕ)
      → Inv q
      → get_elem? q.records i ≡ some r
      → Runs q (heartbeat_record o lease i r by now q)
  unfolding heartbeat_record
  heartbeat_record-Runs none i r by now h at = returned-Runs _ same
  heartbeat_record-Runs {q} (some l) i r by now h at = elim (Bool-cases (is_claimed r.status)) [
    | inr other ↦ rw other (returned-Runs _ same)
    | inl c ↦ rw c (elim (Bool-cases (leb l.expires_at now)) [
      | inl over ↦ rw over (
          and_then-Runs _ _
            (expire_claimed_record-Runs i r now _ same h at (is_claimed-eq r.status c))
            (λ _ p w. returned-Runs _ w))
      | inr live ↦ rw live (
          heartbeat_live-Runs r.cancel_requested_at i r l by now at
            (All-get_elem? IsValid q.records i h.valid at) (is_claimed-eq r.status c))
    ])
  ]

  pub heartbeat-Runs :
      {q : Queue} (lease_id : String) (by at : Option ℕ) (clock : ℕ)
      → Inv q
      → Runs q (heartbeat o lease_id by at clock q)
  unfolding heartbeat
  heartbeat-Runs {q} lease_id by at clock h = elim (Option-cases (find_by_lease_id lease_id q)) [
    | inl out ↦ rw (out, heartbeat) (returned-Runs _ same)
    | inr ((i, r), found) ↦
        rw (found, heartbeat)
          (heartbeat_record-Runs r.lease i r by (time at clock) h
            (find_by_lease_id-some lease_id q i found).0)
  ]
