-- ===== src/Worker/Runs/Control.antt =====
-- Queueing and cancelling evolve the queue, and throw only for their input.
use bek.Common.{
  ℕ, zero, suc, ◌≡◌, refl, inl, inr, Bool-cases, true, Option, Option-cases, none, some, List, [],
  ◌∷◌, ◌++◌, get_elem?, All-get_elem?, find_index, length, arith, String,
}
use bek.Worker.Types.{
  RunWorkItem, WorkStatus, AttemptState, WorkerWorkRecord, WorkerDeadLetterRecord,
}
use bek.Worker.Attempts.{
  can_transition_run_attempt_state, is_active_status, is_claimed, create_worker_idempotency_key,
}
use bek.Worker.State.{QueueOptions, Queue, time}
use bek.Worker.Enqueue.{
  new_record, is_active_key, is_active_run, is_letter, enqueue, redrive_letter, redrive_found,
  redrive_dead_letter,
}
use bek.Worker.Cancel.{cancel_record, cancel_from, cancel_active, cancel_found, cancel_run}
use bek.Worker.Evolution.{IsValid, Evolves, same, drawn, pushed, Runs}
use bek.Worker.Evolution.Keeps.{Inv, Evolves-Inv}
use bek.Worker.Runs.{or_throw-Runs, and_then-Runs, returned-Runs, emit-Evolves, changed_around}

module _ (o : QueueOptions) where
  pub enqueue-Runs :
      {q : Queue} (item : RunWorkItem) (available_at at : Option ℕ) (clock : ℕ)
      → Runs q (enqueue o item available_at at clock q)
  unfolding enqueue new_record
  enqueue-Runs {q} item available_at at clock =
      elim (Option-cases
        (find_index (is_active_key (create_worker_idempotency_key item)) q.records)) [
          | inl out ↦
              rw (out, enqueue)
                (returned-Runs _ (emit-Evolves o _ _ (pushed same _ refl refl (ground arith))))
          | inr ((i, r), found) ↦ rw (found, enqueue) (returned-Runs _ same)
        ]

  redrive_letter-Runs :
      {q : Queue} (letter : WorkerDeadLetterRecord) (reason trace_id : Option String) (now : ℕ)
      → Runs q (redrive_letter o letter reason trace_id now q)
  unfolding redrive_letter new_record
  redrive_letter-Runs letter reason none now =
      returned-Runs _ (emit-Evolves o _ now (pushed (drawn same) _ refl refl (ground arith)))
  redrive_letter-Runs letter reason (some t) now =
      returned-Runs _ (emit-Evolves o _ now (pushed same _ refl refl (ground arith)))

  pub cancel_record-Runs :
      {q p : Queue} (i : ℕ) (r : WorkerWorkRecord) (reason : String) (now : ℕ)
      → Evolves q p
      → get_elem? p.records i ≡ some r
      → IsValid r
      → is_active_status r.status ≡ true
      → Runs q (cancel_record o i r reason now p)
  unfolding cancel_record can_transition_run_attempt_state is_active_status
  cancel_record-Runs i r reason now w at v a = elim (Bool-cases (is_claimed r.status)) [
    | inl c ↦ rw c (
        or_throw-Runs _ _ _ WorkStatus.claimed AttemptState.cancel_requested now (ground arith)
          (returned-Runs _ (changed_around o i r _ _ _ now w at (ground arith))))
    | inr n ↦ rw n (
        or_throw-Runs _ _ _ WorkStatus.cancelled AttemptState.cancelled now (ground arith) (
          returned-Runs _
            (emit-Evolves o _ now (changed_around o i r _ _ _ now w at (ground arith)))))
  ]

  pub is_active_run-active :
      (org_id run_id : String) (r : WorkerWorkRecord)
      → is_active_run org_id run_id r ≡ true
      → is_active_status r.status ≡ true
  is_active_run-active org_id run_id r h = ground arith

  redrive_found-Runs :
      {q : Queue} (letter : WorkerDeadLetterRecord) (reason trace_id : Option String) (now : ℕ)
      → Runs q (redrive_found o letter reason trace_id now q)
  unfolding redrive_found
  redrive_found-Runs {q} letter reason trace_id now =
      elim (Option-cases
        (find_index (is_active_run letter.item.org_id letter.item.run_id) q.records)) [
          | inl out ↦ rw (out, redrive_found) (redrive_letter-Runs letter reason trace_id now)
          | inr ((i, r), found) ↦ rw (found, redrive_found) (returned-Runs _ same)
        ]

  pub redrive_dead_letter-Runs :
      {q : Queue} (org_id dead_letter_id : String) (reason trace_id : Option String) (at : Option ℕ)
      (clock : ℕ)
      → Runs q (redrive_dead_letter o org_id dead_letter_id reason trace_id at clock q)
  unfolding redrive_dead_letter
  redrive_dead_letter-Runs {q} org_id dead_letter_id reason trace_id at clock =
      elim (Option-cases (find_index (is_letter org_id dead_letter_id) q.dead_letters)) [
        | inl out ↦ rw (out, redrive_dead_letter) (returned-Runs _ same)
        | inr ((j, letter), found) ↦
            rw (found, redrive_dead_letter)
              (redrive_found-Runs letter reason trace_id (time at clock))
      ]

  cancel_from-Runs :
      {q p : Queue} (n i : ℕ) (org_id run_id reason : String) (now : ℕ)
      (done : List WorkerWorkRecord)
      → Inv q
      → Evolves q p
      → Runs q (cancel_from o n i org_id run_id reason now done p)
  unfolding cancel_from
  cancel_from-Runs zero i org_id run_id reason now done h w = returned-Runs done w
  cancel_from-Runs {p} (suc n) i org_id run_id reason now done h w =
      elim (Option-cases (get_elem? p.records i)) [
        | inl out ↦ rw (out, cancel_from) (returned-Runs done w)
        | inr (r, at) ↦
            rw (at, cancel_from)
              (elim (Bool-cases (is_active_run org_id run_id r)) [
                | inl active ↦ rw active (
                    and_then-Runs _ _
                      (cancel_record-Runs i r reason now w at
                        (All-get_elem? IsValid p.records i (Evolves-Inv w h).valid at)
                        (is_active_run-active org_id run_id r active))
                      (λ r' p' w'.
                        cancel_from-Runs n (suc i) org_id run_id reason now (done ++ r' ∷ []) h w'))
                | inr other ↦
                    rw other (cancel_from-Runs n (suc i) org_id run_id reason now done h w)
              ])
      ]

  cancel_active-Runs :
      {q : Queue} (org_id run_id reason : String) (now : ℕ)
      → Inv q
      → Runs q (cancel_active o org_id run_id reason now q)
  unfolding cancel_active
  cancel_active-Runs {q} org_id run_id reason now h =
      and_then-Runs _ _ (cancel_from-Runs (length q.records) 0 org_id run_id reason now [] h same)
        (λ affected p w. returned-Runs _ w)

  cancel_found-Runs :
      {q : Queue} (of_run active : List WorkerWorkRecord) (org_id run_id reason : String) (now : ℕ)
      → Inv q
      → Runs q (cancel_found o of_run active org_id run_id reason now q)
  unfolding cancel_found
  cancel_found-Runs [] active org_id run_id reason now h = returned-Runs _ same
  cancel_found-Runs (r ∷ rs) [] org_id run_id reason now h = returned-Runs _ same
  cancel_found-Runs (r ∷ rs) (a ∷ as') org_id run_id reason now h =
      cancel_active-Runs org_id run_id reason now h

  pub cancel_run-Runs :
      {q : Queue} (org_id run_id reason : String) (at : Option ℕ) (clock : ℕ)
      → Inv q
      → Runs q (cancel_run o org_id run_id reason at clock q)
  unfolding cancel_run
  cancel_run-Runs {q} org_id run_id reason at clock h =
      cancel_found-Runs _ _ org_id run_id reason (time at clock) h
