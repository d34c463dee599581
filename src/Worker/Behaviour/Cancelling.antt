-- ===== src/Worker/Behaviour/Cancelling.antt =====
-- What is left of a run that is cancelled: `cancelRun` of packages/worker/src/index.ts.
use bek.Common.{
  ℕ, zero, suc, ◌+◌, ◌≤◌, ◌≡◌, refl, sym, subst, ◌⊎◌, inl, inr, Bool-cases, true, false, Option,
  Option-cases, some, List, [], ◌∷◌, ◌++◌, length, get_elem?, set, set-set, length-set,
  get_elem?-none, All, All-get_elem?, All-of_keep, keep, is_some, UpTo, UpTo-next, UpTo-set,
  UpTo-end, eq_iff, String, arith,
}
use bek.Worker.Types.{WorkStatus, AttemptState, WorkerWorkRecord}
use bek.Worker.Attempts.{can_transition_run_attempt_state, is_active_status, is_claimed}
use bek.Worker.State.{QueueOptions, Queue, Outcome, returned, and_then, time, put, emit}
use bek.Worker.Enqueue.{is_active_run}
use bek.Worker.Cancel.{
  CancelDecision, already_terminal, not_found, is_of_run, cancel_record, cancel_from, cancel_active,
  cancel_found, cancel_run,
}
use bek.Worker.Evolution.{IsValid, same}
use bek.Worker.Evolution.Keeps.{Inv, Evolves-Inv}
use bek.Worker.Runs.{or_throw-lets}
use bek.Worker.Runs.Control.{cancel_record-Runs, is_active_run-active}
use bek.Worker.Behaviour.Expiring.{and_then-returned}

-- A record is over, or is claimed by a worker that is told to stop.
abbrev pub IsStopped : WorkerWorkRecord → Type 0
IsStopped r =
    (is_active_status r.status ≡ false)
    ⊎ (r.status ≡ WorkStatus.claimed) × (is_some r.cancel_requested_at ≡ true)

-- A record of the run is stopped.
abbrev StopsRun : String → String → WorkerWorkRecord → Type 0
StopsRun org_id run_id r = r.item.org_id ≡ org_id → r.item.run_id ≡ run_id → IsStopped r

-- What cancelling one record leaves.
record Leaves (i : ℕ) (q : Queue) (x : Outcome WorkerWorkRecord × Queue) : Type 0 where
  left : WorkerWorkRecord
  reply : x.0 ≡ returned left
  records : x.1.records ≡ set q.records i left
  stopped : IsStopped left

-- The reply of the loop, after which the run is stopped.
record Stops {A : Type 0} (org_id run_id : String) (x : Outcome A × Queue) : Type 0 where
  done : A
  reply : x.0 ≡ returned done
  stopped :
      (j : ℕ) (r : WorkerWorkRecord) → get_elem? x.1.records j ≡ some r → StopsRun org_id run_id r

and_then-Stops :
    (org_id run_id : String) (i : ℕ) (q : Queue) (x : Outcome WorkerWorkRecord × Queue)
    (k : WorkerWorkRecord → Queue → Outcome (List WorkerWorkRecord) × Queue)
    → Leaves i q x
    → ((left : WorkerWorkRecord)
        → x.1.records ≡ set q.records i left
        → IsStopped left
        → Stops org_id run_id (k left x.1))
    → Stops org_id run_id (and_then x k)
and_then-Stops org_id run_id i q x k g rest =
    subst (Stops org_id run_id) (sym (and_then-returned x k g.reply))
      (rest g.left g.records g.stopped)

-- A record of the run that is not active is over.
other-StopsRun :
    (org_id run_id : String) (r : WorkerWorkRecord)
    → is_active_run org_id run_id r ≡ false
    → StopsRun org_id run_id r
other-StopsRun org_id run_id r h org run =
    inl (ground (arith, eq_iff r.item.org_id org_id, eq_iff r.item.run_id run_id))

module _ (o : QueueOptions) where
  cancel_record-Leaves :
      (i : ℕ) (r : WorkerWorkRecord) (reason : String) (now : ℕ) (q : Queue)
      → IsValid r
      → is_active_status r.status ≡ true
      → Leaves i q (cancel_record o i r reason now q)
  unfolding cancel_record can_transition_run_attempt_state is_active_status put emit
  cancel_record-Leaves i r reason now q v a = elim (Bool-cases (is_claimed r.status)) [
    | inl c ↦ rw c (
        or_throw-lets (Leaves i q) _ _ _ WorkStatus.claimed AttemptState.cancel_requested now
          (ground arith)
          (record {
            left = _;
            reply = refl;
            records = set-set q.records i _ _;
            stopped = inr (refl, refl);
          }))
    | inr n ↦ rw n (
        or_throw-lets (Leaves i q) _ _ _ WorkStatus.cancelled AttemptState.cancelled now
          (ground arith)
          (record {
            left = _;
            reply = refl;
            records = set-set q.records i _ _;
            stopped = inl refl;
          }))
  ]

  cancel_from-Stops :
      (n i : ℕ) (org_id run_id reason : String) (now : ℕ) (done : List WorkerWorkRecord) (q : Queue)
      → Inv q
      → length q.records ≤ i + n
      → UpTo (StopsRun org_id run_id) i q.records
      → Stops org_id run_id (cancel_from o n i org_id run_id reason now done q)
  unfolding cancel_from
  cancel_from-Stops zero i org_id run_id reason now done q h bound before = record {
    done = done;
    reply = refl;
    stopped = UpTo-end (StopsRun org_id run_id) i q.records (omega (arith, bound)) before;
  }
  cancel_from-Stops (suc n) i org_id run_id reason now done q h bound before =
      elim (Option-cases (get_elem? q.records i)) [
        | inl out ↦
            rw (out, cancel_from)
              (record {
                done = done;
                reply = refl;
                stopped =
                    UpTo-end (StopsRun org_id run_id) i q.records (get_elem?-none q.records i out)
                      before;
              })
        | inr (r, at) ↦
            rw (at, cancel_from)
              (elim (Bool-cases (is_active_run org_id run_id r)) [
                | inr other ↦ rw other (
                    cancel_from-Stops n (suc i) org_id run_id reason now done q h
                      (omega (arith, bound))
                      (UpTo-next (StopsRun org_id run_id) i r q.records at
                        (other-StopsRun org_id run_id r other) before))
                | inl active ↦
                    let v = All-get_elem? IsValid q.records i h.valid at in
                    let a = is_active_run-active o org_id run_id r active in
                    rw active (
                      and_then-Stops org_id run_id i q _ _
                        (cancel_record-Leaves i r reason now q v a)
                        (λ left e stopped.
                          cancel_from-Stops n (suc i) org_id run_id reason now (done ++ left ∷ []) _
                            (Evolves-Inv (cancel_record-Runs o i r reason now same at v a).evolves
                              h)
                            (rw (e, length-set) (omega (arith, bound)))
                            (UpTo-set (StopsRun org_id run_id) i r left q.records _ e at
                              (λ _ _. stopped) before)))
              ])
      ]

  cancel_active-Stops :
      (org_id run_id reason : String) (now : ℕ) (q : Queue)
      → Inv q
      → Stops org_id run_id (cancel_active o org_id run_id reason now q)
  unfolding cancel_active
  cancel_active-Stops org_id run_id reason now q h =
      let loop =
        cancel_from-Stops (length q.records) 0 org_id run_id reason now [] q h (omega arith)
          (λ j r lt at. absurd (omega (arith, lt))) in
      subst (Stops org_id run_id) (sym (and_then-returned _ _ loop.reply))
        (record { done = _; reply = refl; stopped = loop.stopped })

  -- Where the filters of `cancelRun` leave no active record, the run is stopped already.
  idle-stopped :
      (org_id run_id : String) (q : Queue)
      → keep (λ r. is_active_status r.status) (keep (is_of_run org_id run_id) q.records) ≡ []
      → (j : ℕ) (r : WorkerWorkRecord) → get_elem? q.records j ≡ some r
      → StopsRun org_id run_id r
  idle-stopped org_id run_id q e j r at org run =
      let none_left : All (λ (x : WorkerWorkRecord). ⊥)
          (keep (λ r. is_active_status r.status) (keep (is_of_run org_id run_id) q.records)) =
        rw e tt in
      let idle =
        All-get_elem? _ q.records j
          (All-of_keep (is_of_run org_id run_id) _ q.records
            (All-of_keep (λ x. is_active_status x.status) (λ _. ⊥) _ none_left))
          at in
      elim (Bool-cases (is_active_status r.status)) [
        | inr over ↦ inl over
        | inl active ↦
            absurd (
              idle (ground (arith, eq_iff r.item.org_id org_id, eq_iff r.item.run_id run_id))
                active)
      ]

  cancel_found-Stops :
      (of_run active : List WorkerWorkRecord) (org_id run_id reason : String) (now : ℕ) (q : Queue)
      → Inv q
      → keep (is_of_run org_id run_id) q.records ≡ of_run
      → keep (λ r. is_active_status r.status) of_run ≡ active
      → Stops org_id run_id (cancel_found o of_run active org_id run_id reason now q)
  unfolding cancel_found keep
  cancel_found-Stops [] active org_id run_id reason now q h e k = record {
    done = not_found;
    reply = refl;
    stopped = idle-stopped org_id run_id q (rw e refl);
  }
  cancel_found-Stops (r ∷ rs) [] org_id run_id reason now q h e k = record {
    done = already_terminal (r ∷ rs);
    reply = refl;
    stopped = idle-stopped org_id run_id q (rw (e, k) refl);
  }
  cancel_found-Stops (r ∷ rs) (a ∷ as') org_id run_id reason now q h e k =
      cancel_active-Stops org_id run_id reason now q h

  -- A run that is cancelled always gets a reply, and then every record of it is stopped: it is
  -- over, or it is claimed by a worker that is told to stop. None is left queued or waiting for
  -- an approval.
  pub cancel_run_lem :
      (org_id run_id reason : String) (at : Option ℕ) (clock : ℕ) (q : Queue)
      → Inv q
      → (decision : CancelDecision) × ((cancel_run o org_id run_id reason at clock q).0
          ≡ returned decision)
        × ((j : ℕ) (r : WorkerWorkRecord)
            → get_elem? (cancel_run o org_id run_id reason at clock q).1.records j ≡ some r
            → r.item.org_id ≡ org_id
            → r.item.run_id ≡ run_id
            → IsStopped r)
  unfolding cancel_run
  cancel_run_lem org_id run_id reason at clock q h =
      let s = cancel_found-Stops _ _ org_id run_id reason (time at clock) q h refl refl in
      (s.done, s.reply, s.stopped)
