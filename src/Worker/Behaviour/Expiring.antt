-- ===== src/Worker/Behaviour/Expiring.antt =====
-- What is left of the leases that have expired: `requeueExpiredLeases` of
-- packages/worker/src/index.ts.
use bek.Common.{
  UpTo, UpTo-next, UpTo-set, UpTo-end, ℕ, zero, suc, ◌+◌, ◌<◌, ◌≤◌, ◌≡◌, refl, sym, subst, inl, inr,
  Bool-cases, false, Option, Option-cases, none, some, List, [], ◌∷◌, ◌++◌, length, get_elem?, set,
  length-set, get_elem?-none, All-get_elem?, arith, String,
}
use bek.Worker.Types.{WorkStatus, AttemptState, WorkerWorkRecord, WorkerLease}
use bek.Worker.Attempts.{can_transition_run_attempt_state, is_claimed}
use bek.Worker.State.{QueueOptions, Queue, Outcome, returned, and_then, put, emit}
use bek.Worker.Leases.{
  has_expired_lease, expire_asked, expire_claimed_record, requeue_from, requeue_expired_leases,
}
use bek.Worker.Evolution.{IsValid, same}
use bek.Worker.Evolution.Keeps.{Inv, Evolves-Inv}
use bek.Worker.Runs.{or_throw-lets}
use bek.Worker.Runs.Leases.{
  claimed-can_cancel, claimed-attempt, has_expired_lease-claimed, expire_claimed_record-Runs,
}

-- What giving up one lease leaves.
pub record GivesUp (i : ℕ) (q : Queue) (x : Outcome WorkerWorkRecord × Queue) : Type 0 where
  pub left : WorkerWorkRecord
  pub reply : x.0 ≡ returned left
  pub records : x.1.records ≡ set q.records i left
  pub unclaimed : is_claimed left.status ≡ false

abbrev IsFresh : ℕ → WorkerWorkRecord → Type 0
IsFresh now r = has_expired_lease now r ≡ false

-- The reply of a call after which every lease that is held is live, and the queue.
pub record Clears (now : ℕ) (x : Outcome (List WorkerWorkRecord) × Queue) : Type 0 where
  pub done : List WorkerWorkRecord
  pub reply : x.0 ≡ returned done
  pub live :
      (j : ℕ) {s : WorkerWorkRecord} {l : WorkerLease}
      → get_elem? x.1.records j ≡ some s
      → s.status ≡ WorkStatus.claimed
      → s.lease ≡ some l
      → now < l.expires_at

pub and_then-returned :
    {A B : Type 0} (x : Outcome A × Queue) (k : A → Queue → Outcome B × Queue) {a : A}
    → x.0 ≡ returned a
    → and_then x k ≡ k a x.1
unfolding and_then
and_then-returned (y, q) k e = rw e refl

unexpired-live :
    (now : ℕ) (r : WorkerWorkRecord) (l : WorkerLease)
    → has_expired_lease now r ≡ false
    → r.status ≡ WorkStatus.claimed
    → r.lease ≡ some l
    → now < l.expires_at
unfolding has_expired_lease
unexpired-live now r l fresh c held = ground arith

-- What follows on a lease that is given up.
and_then-Clears :
    (now i : ℕ) (q : Queue) (x : Outcome WorkerWorkRecord × Queue)
    (k : WorkerWorkRecord → Queue → Outcome (List WorkerWorkRecord) × Queue)
    → GivesUp i q x
    → ((left : WorkerWorkRecord)
        → x.1.records ≡ set q.records i left
        → is_claimed left.status ≡ false
        → Clears now (k left x.1))
    → Clears now (and_then x k)
and_then-Clears now i q x k g rest =
    subst (Clears now) (sym (and_then-returned x k g.reply)) (rest g.left g.records g.unclaimed)

unclaimed-fresh :
    (now : ℕ) (r : WorkerWorkRecord) → is_claimed r.status ≡ false → has_expired_lease now r ≡ false
unfolding has_expired_lease
unclaimed-fresh now r e = rw e refl

module _ (o : QueueOptions) where
  pub expire_asked-GivesUp :
      (asked : Option ℕ) (i : ℕ) (r : WorkerWorkRecord) (now : ℕ) (message : String) (q : Queue)
      → IsValid r
      → r.status ≡ WorkStatus.claimed
      → r.cancel_requested_at ≡ asked
      → GivesUp i q (expire_asked o asked i r now message q)
  unfolding expire_asked can_transition_run_attempt_state put emit
  expire_asked-GivesUp none i r now message q v c e =
      or_throw-lets (GivesUp i q) q _ r WorkStatus.queued AttemptState.queued now
        (rw (claimed-attempt v c (rw e)) refl)
        (record { left = _; reply = refl; records = refl; unclaimed = refl })
  expire_asked-GivesUp (some a) i r now message q v c e =
      or_throw-lets (GivesUp i q) q _ r WorkStatus.cancelled AttemptState.cancelled now
        (claimed-can_cancel v c)
        (record { left = _; reply = refl; records = refl; unclaimed = refl })

  requeue_from-Clears :
      (n i now : ℕ) (done : List WorkerWorkRecord) (q : Queue)
      → Inv q
      → length q.records ≤ i + n
      → UpTo (IsFresh now) i q.records
      → Clears now (requeue_from o n i now done q)
  unfolding requeue_from expire_claimed_record
  requeue_from-Clears zero i now done q h bound clear = record {
    done = done;
    reply = refl;
    live = λ j {s} {l} at c held.
        unexpired-live now s l
          (UpTo-end (IsFresh now) i q.records (omega (arith, bound)) clear j s at) c held;
  }
  requeue_from-Clears (suc n) i now done q h bound clear =
      elim (Option-cases (get_elem? q.records i)) [
        | inl out ↦
            rw (out, requeue_from)
              (record {
                done = done;
                reply = refl;
                live = λ j {s} {l} at c held.
                    let passed =
                      UpTo-end (IsFresh now) i q.records (get_elem?-none q.records i out) clear in
                    unexpired-live now s l (passed j s at) c held;
              })
        | inr (r, at) ↦
            rw (at, requeue_from)
              (elim (Bool-cases (has_expired_lease now r)) [
                | inr live ↦ rw live (
                    requeue_from-Clears n (suc i) now done q h (omega (arith, bound))
                      (UpTo-next (IsFresh now) i r q.records at live clear))
                | inl old ↦
                    let c = has_expired_lease-claimed o now r old in
                    let v = All-get_elem? IsValid q.records i h.valid at in
                    rw old (
                      and_then-Clears now i q _ _ (expire_asked-GivesUp _ i r now _ q v c refl)
                        (λ left e unclaimed.
                          requeue_from-Clears n (suc i) now (done ++ left ∷ []) _
                            (Evolves-Inv
                              (expire_claimed_record-Runs o i r now _ same h at c).evolves h)
                            (rw (e, length-set) (omega (arith, bound)))
                            (UpTo-set (IsFresh now) i r left q.records _ e at
                              (unclaimed-fresh now left unclaimed) clear)))
              ])
      ]

  -- Requeueing the expired leases always returns, and no record holds an expired lease after it:
  -- the loop reaches every record.
  pub requeue_expired_leases-Clears :
      (now : ℕ) (q : Queue) → Inv q → Clears now (requeue_expired_leases o now q)
  unfolding requeue_expired_leases
  requeue_expired_leases-Clears now q h =
      requeue_from-Clears (length q.records) 0 now [] q h (omega arith)
        (λ j s lt at. absurd (ground arith))
