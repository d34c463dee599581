-- ===== src/Worker/Runs/Claims.antt =====
-- What `claimNext` chooses, and that it evolves the queue.
use bek.Common.{
  ℕ, ◌≡◌, inl, inr, Bool-cases, true, false, Option, Option-cases, none, some, get_elem?, All,
  All-keep, keep-passes, All-of_keep, indexed_from, indexed_from-stands, All-of_indexed, All-head,
  All-sort_with, head-sort_with, nil-sort_with, keep, All-get_elem?, eqb, arith, String, List, [],
}
use bek.Worker.Types.{WorkStatus, AttemptState, WorkerWorkRecord}
use bek.Worker.Attempts.{can_transition_run_attempt_state}
use bek.Worker.State.{QueueOptions, Queue, time, draw_id}
use bek.Worker.Leases.{
  is_claimable, claims_before, next_claimable, claim_record, claim_available, claim_next,
}
use bek.Worker.Evolution.{IsValid, Evolves, same, drawn, changed, Runs}
use bek.Worker.Evolution.Keeps.{Inv, Evolves-Inv}
use bek.Worker.Runs.{or_throw-Runs, and_then-Runs, returned-Runs, emit-Evolves}
use bek.Worker.Runs.Leases.{requeue_expired_leases-Runs}

claims_before_irrefl : (a : ℕ × WorkerWorkRecord) → claims_before a a ≡ false
unfolding claims_before
claims_before_irrefl a = ground arith

claims_before_asym :
    (a b : ℕ × WorkerWorkRecord) → claims_before a b ≡ true → claims_before b a ≡ false
unfolding claims_before
claims_before_asym a b h = ground arith

claims_before_cotrans :
    (a b c : ℕ × WorkerWorkRecord)
    → claims_before a b ≡ false
    → claims_before b c ≡ false
    → claims_before a c ≡ false
unfolding claims_before
claims_before_cotrans a b c h k = ground arith

abbrev Stands : Queue → ℕ × WorkerWorkRecord → Type 0
Stands q c = get_elem? q.records c.0 ≡ some c.1

-- The candidates of `claimNext`, in the order of the records.
abbrev candidates : ℕ → Queue → List (ℕ × WorkerWorkRecord)
candidates now q = keep (λ c. is_claimable now c.1) (indexed_from 0 q.records)

pub next_claimable-stands :
    (now : ℕ) (q : Queue) (i : ℕ) {r : WorkerWorkRecord}
    → next_claimable now q ≡ some (i, r)
    → (get_elem? q.records i ≡ some r) × (is_claimable now r ≡ true)
unfolding next_claimable
next_claimable-stands now q i e = (
  All-head (Stands q) _
      (All-sort_with (Stands q) claims_before _
        (All-keep (Stands q) (λ c. is_claimable now c.1) _ (indexed_from-stands q.records)))
      e,
  All-head (λ c. is_claimable now c.1 ≡ true) _
      (All-sort_with (λ c. is_claimable now c.1 ≡ true) claims_before _
        (keep-passes (λ c. is_claimable now c.1) (indexed_from 0 q.records)))
      e,
)

-- No record that may be claimed comes before the one that is chosen.
pub next_claimable-first :
    (now : ℕ) (q : Queue) (i : ℕ) {r : WorkerWorkRecord}
    → next_claimable now q ≡ some (i, r)
    → (j : ℕ) {s : WorkerWorkRecord} → get_elem? q.records j ≡ some s
    → is_claimable now s ≡ true
    → claims_before (j, s) (i, r) ≡ false
unfolding next_claimable claims_before
next_claimable-first now q i {r} e j {s} at passes =
    All-of_indexed (λ c. is_claimable now c.1 ≡ true → claims_before c (i, r) ≡ false) 0 q.records
      (All-of_keep (λ c. is_claimable now c.1) (λ c. claims_before c (i, r) ≡ false) _
        (head-sort_with claims_before claims_before_irrefl claims_before_asym claims_before_cotrans
          (candidates now q) e))
      j at passes

pub next_claimable-none :
    (now : ℕ) (q : Queue)
    → next_claimable now q ≡ none
    → (j : ℕ) {s : WorkerWorkRecord} → get_elem? q.records j ≡ some s
    → is_claimable now s ≡ false
unfolding next_claimable
next_claimable-none now q e j {s} at =
    let empty : candidates now q ≡ [] =
      nil-sort_with claims_before claims_before_irrefl claims_before_asym claims_before_cotrans
        (candidates now q) e in
    let no_more : All (λ (c : ℕ × WorkerWorkRecord). ⊥) (candidates now q) = rw empty tt in
    let refuted =
      All-of_indexed (λ c. is_claimable now c.1 ≡ true → ⊥) 0 q.records
        (All-of_keep (λ c. is_claimable now c.1) (λ c. ⊥) _ no_more) j at in
    elim (Bool-cases (is_claimable now s)) [ inl hit ↦ absurd (refuted hit) | inr miss ↦ miss ]

pub is_claimable-queued :
    (now : ℕ) (r : WorkerWorkRecord) → is_claimable now r ≡ true → r.status ≡ WorkStatus.queued
unfolding is_claimable
is_claimable-queued now r h = ground arith

pub queued-can_claim :
    {r : WorkerWorkRecord}
    → IsValid r
    → r.status ≡ WorkStatus.queued
    → can_transition_run_attempt_state r.attempt_state AttemptState.claimed ≡ true
unfolding can_transition_run_attempt_state
queued-can_claim v c = ground arith

module _ (o : QueueOptions) where
  claim_record-Runs :
      {q p : Queue} (worker_id : String) (lease_ms now i : ℕ) (r : WorkerWorkRecord)
      → Evolves q p
      → get_elem? p.records i ≡ some r
      → IsValid r
      → r.status ≡ WorkStatus.queued
      → Runs q (claim_record o worker_id lease_ms now i r p)
  unfolding claim_record draw_id
  claim_record-Runs {p} worker_id lease_ms now i r w at v c =
      or_throw-Runs _ _ r WorkStatus.claimed AttemptState.claimed now (queued-can_claim v c)
        (returned-Runs _ (emit-Evolves o _ now (changed (drawn w) i r _ at (ground arith))))

  claim_available-Runs :
      {q p : Queue} (worker_id : String) (lease_ms now : ℕ)
      → Inv q
      → Evolves q p
      → Runs q (claim_available o worker_id lease_ms now p)
  unfolding claim_available
  claim_available-Runs {p} worker_id lease_ms now h w = elim (Option-cases (next_claimable now p)) [
    | inl out ↦ rw (out, claim_available) (returned-Runs _ w)
    | inr ((i, r), found) ↦
        let (at, passes) = next_claimable-stands now p i found in
        rw (found, claim_available)
          (claim_record-Runs worker_id lease_ms now i r w at
            (All-get_elem? IsValid p.records i (Evolves-Inv w h).valid at)
            (is_claimable-queued now r passes))
  ]

  pub claim_next-Runs :
      {q : Queue} (worker_id : String) (lease_ms : ℕ) (at : Option ℕ) (clock : ℕ)
      → Inv q
      → Runs q (claim_next o worker_id lease_ms at clock q)
  unfolding claim_next
  claim_next-Runs worker_id lease_ms at clock h = elim (Bool-cases (eqb lease_ms 0)) [
    | inl bad ↦ rw bad (record { evolves = same; sound = tt })
    | inr fine ↦ rw fine (
        and_then-Runs _ _ (requeue_expired_leases-Runs o (time at clock) h)
          (λ _ p w. claim_available-Runs worker_id lease_ms (time at clock) h w))
  ]
