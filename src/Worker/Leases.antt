-- ===== src/Worker/Leases.antt =====
-- Claiming, renewing and expiring leases: packages/worker/src/index.ts. An operation takes the
-- reading of the clock, and returns its outcome with the new queue.
use bek.Common.{
  ℕ, zero, suc, ◌+◌, ◌-◌, String, Bool, false, ◌&&◌, ◌||◌, Option, none, some, List, [], ◌∷◌, ◌++◌,
  length, get_elem?, keep, indexed_from, or_else, ltb, leb, eqb, if◌then◌else◌, concat, head?,
  sort_with,
}
use bek.Common.Json.{Json, Fields}
use bek.Worker.Types.{WorkStatus, AttemptState, WorkerEventType, WorkerWorkRecord, WorkerLease}
use bek.Worker.Attempts.{is_claimed, is_queued, status_name}
use bek.Worker.State.{
  QueueOptions, Queue, lease_ms_not_positive, extend_by_ms_not_positive, Outcome, returned, threw,
  and_then, time, put, draw_id, transition_record, or_throw, find_by_lease_id, emit, event_for,
}

pub data ClaimDecision : Type 0 where
  claimed : WorkerLease → WorkerWorkRecord → ClaimDecision
  empty : ClaimDecision

pub data HeartbeatDecision : Type 0 where
  continue : WorkerLease → WorkerWorkRecord → HeartbeatDecision
  cancel : String → WorkerWorkRecord → HeartbeatDecision
  lost_lease : String → HeartbeatDecision
  not_found : String → HeartbeatDecision

pub data ExpireDecision : Type 0 where
  expired : List WorkerWorkRecord → ExpireDecision
  nothing : ExpireDecision

-- `status === "claimed" && lease && lease.expiresAt <= now`
unfoldable pub has_expired_lease : ℕ → WorkerWorkRecord → Bool
has_expired_lease now r =
    is_claimed r.status && elim r.lease [ none ↦ false | some l ↦ leb l.expires_at now ]

unfoldable pub is_claimable : ℕ → WorkerWorkRecord → Bool
is_claimable now r = is_queued r.status && leb r.available_at now

-- The comparator of `claimNext` is negative.
unfoldable pub claims_before : ℕ × WorkerWorkRecord → ℕ × WorkerWorkRecord → Bool
claims_before a b =
    ltb a.1.available_at b.1.available_at
    || eqb a.1.available_at b.1.available_at && ltb a.1.sequence b.1.sequence

unfoldable pub next_claimable : ℕ → Queue → Option (ℕ × WorkerWorkRecord)
unfolding is_claimable claims_before
next_claimable now q =
    head? (sort_with claims_before (keep (λ c. is_claimable now c.1) (indexed_from 0 q.records)))

module _ (o : QueueOptions) where
  -- `expireClaimedRecord` by whether a cancellation is asked for; the record that it leaves is
  -- returned with the queue.
  unfoldable pub expire_asked :
      Option ℕ → ℕ → WorkerWorkRecord → ℕ → String → Queue → Outcome WorkerWorkRecord × Queue
  expire_asked (some _) i r now message q =
      or_throw (transition_record r WorkStatus.cancelled AttemptState.cancelled now) q λ t.
        let reason = or_else r.cancel_reason "Run cancellation requested." in
        let r' : WorkerWorkRecord = record t { lease = none; terminal_reason = some reason } in
        let event = event_for WorkerEventType.cancelled r reason none now in
        (returned r', emit o event now (put i r' q))
  expire_asked none i r now message q =
      or_throw (transition_record r WorkStatus.queued AttemptState.queued now) q λ t.
        let r' : WorkerWorkRecord = record t { lease = none } in
        let event = event_for WorkerEventType.lease_expired r message none now in
        (returned r', emit o event now (put i r' q))

  unfoldable pub expire_claimed_record :
      ℕ → WorkerWorkRecord → ℕ → String → Queue → Outcome WorkerWorkRecord × Queue
  expire_claimed_record i r now message q = expire_asked r.cancel_requested_at i r now message q

  -- The loop of `requeueExpiredLeases` from index `i` on, with the number of rounds left.
  unfoldable pub requeue_from :
      ℕ → ℕ → ℕ → List WorkerWorkRecord → Queue → Outcome (List WorkerWorkRecord) × Queue
  requeue_from zero i now done q = (returned done, q)
  requeue_from (suc n) i now done q = elim (get_elem? q.records i) [
    | none ↦ (returned done, q)
    | some r ↦
        let skipped = requeue_from n (suc i) now done q in
        let taken =
          and_then (expire_claimed_record i r now "Worker lease expired; work returned to queue." q)
            (λ r'. requeue_from n (suc i) now (done ++ r' ∷ [])) in
        if has_expired_lease now r then taken else skipped
  ]

  unfoldable pub requeue_expired_leases : ℕ → Queue → Outcome (List WorkerWorkRecord) × Queue
  requeue_expired_leases now q = requeue_from (length q.records) 0 now [] q

  unfoldable pub expire_leases : Option ℕ → ℕ → Queue → Outcome ExpireDecision × Queue
  expire_leases at clock q =
      and_then (requeue_expired_leases (time at clock) q)
        λ rs q'. (returned (elim rs [ [] ↦ nothing | r ∷ rest ↦ expired (r ∷ rest) ]), q')

  -- `claimNext` once a record is chosen.
  unfoldable pub claim_record :
      String → ℕ → ℕ → ℕ → WorkerWorkRecord → Queue → Outcome ClaimDecision × Queue
  claim_record worker_id lease_ms now i r q =
      let lease : WorkerLease = record {
        id = o.id_factory "lease" q.next_id;
        idempotency_key = r.idempotency_key;
        worker_id = worker_id;
        org_id = r.item.org_id;
        run_id = r.item.run_id;
        attempt = r.item.attempt;
        trace_id = r.item.trace_id;
        claimed_at = now;
        heartbeat_at = now;
        expires_at = now + lease_ms;
      } in
      let q' = draw_id q in
      or_throw (transition_record r WorkStatus.claimed AttemptState.claimed now) q' λ t.
        let r' : WorkerWorkRecord = record t { lease = some lease } in
        let detail =
          Fields.field "workerId" (Json.str worker_id)
            (Fields.field "leaseId" (Json.str lease.id) Fields.end) in
        let message = concat ("Worker " ∷ worker_id ∷ " claimed run work." ∷ []) in
        let event = event_for WorkerEventType.claimed r message (some detail) now in
        (returned (claimed lease r'), emit o event now (put i r' q'))

  -- `claimNext` after the expired leases are requeued.
  unfoldable pub claim_available : String → ℕ → ℕ → Queue → Outcome ClaimDecision × Queue
  claim_available worker_id lease_ms now q = elim (next_claimable now q) [
    | none ↦ (returned empty, q)
    | some (i, r) ↦ claim_record worker_id lease_ms now i r q
  ]

  unfoldable pub claim_next : String → ℕ → Option ℕ → ℕ → Queue → Outcome ClaimDecision × Queue
  claim_next worker_id lease_ms at clock q =
      let now = time at clock in
      let attempted =
        and_then (requeue_expired_leases now q) (λ _. claim_available worker_id lease_ms now) in
      if eqb lease_ms 0 then (threw lease_ms_not_positive, q) else attempted

  -- `heartbeat` once the lease is live and no cancellation is pending.
  unfoldable pub renew_lease :
      ℕ → WorkerWorkRecord → WorkerLease → Option ℕ → ℕ → Queue → Outcome HeartbeatDecision × Queue
  renew_lease i r l extend_by_ms now q =
      let extension = or_else extend_by_ms (l.expires_at - l.claimed_at) in
      let l' : WorkerLease = record l { heartbeat_at = now; expires_at = now + extension } in
      let r' : WorkerWorkRecord = record r { lease = some l'; updated_at = now } in
      let detail =
        Fields.field "leaseId" (Json.str l'.id)
          (Fields.field "expiresAt" (Json.num l'.expires_at) Fields.end) in
      let event =
        event_for WorkerEventType.heartbeat r "Worker heartbeat accepted." (some detail) now in
      if eqb extension 0
      then (threw extend_by_ms_not_positive, q)
      else (returned (continue l' r'), emit o event now (put i r' q))

  -- `heartbeat` on a live lease, by whether a cancellation is asked for.
  unfoldable pub heartbeat_live :
      Option ℕ
      → ℕ
      → WorkerWorkRecord
      → WorkerLease
      → Option ℕ
      → ℕ
      → Queue
      → Outcome HeartbeatDecision × Queue
  heartbeat_live (some _) i r l extend_by_ms now q =
      (returned (cancel (or_else r.cancel_reason "Run cancellation requested.") r), q)
  heartbeat_live none i r l extend_by_ms now q = renew_lease i r l extend_by_ms now q

  abbrev not_claimed : WorkerWorkRecord → HeartbeatDecision
  not_claimed r = lost_lease (concat ("Work is " ∷ status_name r.status ∷ ", not claimed." ∷ []))

  -- `heartbeat` on the record that holds the lease.
  unfoldable pub heartbeat_record :
      Option WorkerLease
      → ℕ
      → WorkerWorkRecord
      → Option ℕ
      → ℕ
      → Queue
      → Outcome HeartbeatDecision × Queue
  heartbeat_record none i r extend_by_ms now q = (returned (not_claimed r), q)
  heartbeat_record (some l) i r extend_by_ms now q =
      let lost =
        and_then (expire_claimed_record i r now "Worker lease expired before heartbeat." q)
          (λ _ q'. (returned (lost_lease "Worker lease expired."), q')) in
      let live = heartbeat_live r.cancel_requested_at i r l extend_by_ms now q in
      if is_claimed r.status
      then if leb l.expires_at now then lost else live
      else (returned (not_claimed r), q)

  unfoldable pub heartbeat :
      String → Option ℕ → Option ℕ → ℕ → Queue → Outcome HeartbeatDecision × Queue
  heartbeat lease_id extend_by_ms at clock q = elim (find_by_lease_id lease_id q) [
    | none ↦ (returned (not_found "Unknown worker lease."), q)
    | some (i, r) ↦ heartbeat_record r.lease i r extend_by_ms (time at clock) q
  ]
