-- ===== src/Worker/Behaviour/Claiming.antt =====
-- Which work a worker is given: `claimNext` of packages/worker/src/index.ts.
use bek.Common.{
  ◌≤◌, ◌<◌, arith, ℕ, ◌+◌, ◌≡◌, refl, ◌⊎◌, inl, inr, true, false, Option, Option-cases, some,
  get_elem?, set, All-get_elem?, eqb, String,
}
use bek.Worker.Types.{WorkStatus, AttemptState, WorkerWorkRecord, WorkerLease}
use bek.Worker.State.{QueueOptions, Queue, Outcome, returned, time, draw_id, put, emit}
use bek.Worker.Leases.{
  ClaimDecision, claimed, empty, is_claimable, claims_before, next_claimable,
  requeue_expired_leases, claim_record, claim_available, claim_next,
}
use bek.Worker.Evolution.{IsValid}
use bek.Worker.Evolution.Keeps.{Inv, Evolves-Inv}
use bek.Worker.Runs.{or_throw-lets}
use bek.Worker.Runs.Leases.{requeue_expired_leases-Runs}
use bek.Worker.Runs.Claims.{
  next_claimable-stands, next_claimable-first, next_claimable-none, is_claimable-queued,
  queued-can_claim,
}
use bek.Worker.Behaviour.Expiring.{and_then-returned, requeue_expired_leases-Clears}

-- The reply that hands a record of `p` to a worker, and the queue.
pub record Hands (worker_id : String) (lease_ms now : ℕ) (p : Queue)
    (x : Outcome ClaimDecision × Queue) : Type 0 where
  pub at : ℕ
  pub chosen : WorkerWorkRecord
  pub lease : WorkerLease
  pub handed : WorkerWorkRecord
  pub reply : x.0 ≡ returned (claimed lease handed)
  pub stood : get_elem? p.records at ≡ some chosen
  pub queued : chosen.status ≡ WorkStatus.queued
  pub available : chosen.available_at ≤ now
  pub first :
      (j : ℕ) (s : WorkerWorkRecord)
      → get_elem? p.records j ≡ some s
      → s.status ≡ WorkStatus.queued
      → s.available_at ≤ now
      → (chosen.available_at < s.available_at)
        ⊎ (chosen.available_at ≡ s.available_at) × (chosen.sequence ≤ s.sequence)
  pub records : x.1.records ≡ set p.records at handed
  pub status : handed.status ≡ WorkStatus.claimed
  pub held : handed.lease ≡ some lease
  pub same_item : handed.item ≡ chosen.item
  pub to_worker : lease.worker_id ≡ worker_id
  pub expires : lease.expires_at ≡ now + lease_ms

-- No record may be claimed, and the reply says so.
pub record HasNone (now : ℕ) (p : Queue) (x : Outcome ClaimDecision × Queue) : Type 0 where
  pub reply : x ≡ (returned empty, p)
  pub later :
      (j : ℕ) (s : WorkerWorkRecord)
      → get_elem? p.records j ≡ some s
      → s.status ≡ WorkStatus.queued
      → now < s.available_at

is_claimable-available :
    (now : ℕ) (r : WorkerWorkRecord) → is_claimable now r ≡ true → r.available_at ≤ now
unfolding is_claimable
is_claimable-available now r h = ground arith

is_claimable-later :
    (now : ℕ) (r : WorkerWorkRecord)
    → is_claimable now r ≡ false
    → r.status ≡ WorkStatus.queued
    → now < r.available_at
unfolding is_claimable
is_claimable-later now r h queued = ground arith

is_claimable-of :
    (now : ℕ) (r : WorkerWorkRecord)
    → r.status ≡ WorkStatus.queued
    → r.available_at ≤ now
    → is_claimable now r ≡ true
unfolding is_claimable
is_claimable-of now r queued available = ground arith

claims_before-order :
    (j i : ℕ) (s r : WorkerWorkRecord)
    → claims_before (j, s) (i, r) ≡ false
    → (r.available_at < s.available_at)
      ⊎ (r.available_at ≡ s.available_at) × (r.sequence ≤ s.sequence)
unfolding claims_before
claims_before-order j i s r h = ground arith

module _ (o : QueueOptions) (worker_id : String) (lease_ms : ℕ) where
  claim_record-Hands :
      (now i : ℕ) (r : WorkerWorkRecord) (p : Queue)
      → next_claimable now p ≡ some (i, r)
      → IsValid r
      → Hands worker_id lease_ms now p (claim_record o worker_id lease_ms now i r p)
  unfolding claim_record put emit draw_id
  claim_record-Hands now i r p found v =
      let (stood, passes) = next_claimable-stands now p i found in
      or_throw-lets (Hands worker_id lease_ms now p) _ _ r WorkStatus.claimed AttemptState.claimed
        now (queued-can_claim v (is_claimable-queued now r passes))
        (record {
          at = i;
          chosen = r;
          lease = _;
          handed = _;
          reply = refl;
          stood = stood;
          queued = is_claimable-queued now r passes;
          available = is_claimable-available now r passes;
          first = λ j s at queued available.
              claims_before-order j i s r
                (next_claimable-first now p i found j at (is_claimable-of now s queued available));
          records = refl;
          status = refl;
          held = refl;
          same_item = refl;
          to_worker = refl;
          expires = refl;
        })

  claim_available-lem :
      (now : ℕ) (p : Queue)
      → Inv p
      → Hands worker_id lease_ms now p (claim_available o worker_id lease_ms now p)
        ⊎ HasNone now p (claim_available o worker_id lease_ms now p)
  unfolding claim_available
  claim_available-lem now p h = elim (Option-cases (next_claimable now p)) [
    | inl out ↦ inr (record {
      reply = rw (out, claim_available) refl;
      later = λ j s at. is_claimable-later now s (next_claimable-none now p out j at);
    })
    | inr ((i, r), found) ↦
        let stood = (next_claimable-stands now p i found).0 in
        inl (
          rw (found, claim_available)
            (claim_record-Hands now i r p found (All-get_elem? IsValid p.records i h.valid stood)))
  ]

  -- With a lease that is longer than nothing, a claim requeues every lease that has expired and
  -- then, if any record is queued and available, hands out one that is available first of all
  -- such records, by the lowest sequence number among equals, with a lease of this worker that
  -- expires after the given time. It replies that there is none only where no record may be claimed.
  pub claim_next_lem :
      (at : Option ℕ) (clock : ℕ) (q : Queue)
      → Inv q
      → eqb lease_ms 0 ≡ false
      → (p : Queue) × ((requeue_expired_leases o (time at clock) q).1 ≡ p)
        × (Hands worker_id lease_ms (time at clock) p (claim_next o worker_id lease_ms at clock q)
            ⊎ HasNone (time at clock) p (claim_next o worker_id lease_ms at clock q))
  unfolding claim_next
  claim_next_lem at clock q h positive =
      let now = time at clock in
      let p = (requeue_expired_leases o now q).1 in
      let c = requeue_expired_leases-Clears o now q h in
      let inv : Inv p = Evolves-Inv (requeue_expired_leases-Runs o now h).evolves h in
      (
        p,
        refl,
        rw
            (
              positive,
              and_then-returned (requeue_expired_leases o now q)
                  (λ _. claim_available o worker_id lease_ms now) c.reply,
            )
            (claim_available-lem now p inv),
      )
