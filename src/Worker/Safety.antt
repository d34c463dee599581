-- ===== src/Worker/Safety.antt =====
-- What holds of the worker queue over every sequence of calls: packages/worker/src/index.ts.
pub mod Restart
pub mod History
use bek.Common.{
  ℕ, String, ◌≡◌, ◌⊎◌, inl, inr, Option-cases, true, false, Option, some, List, [], ◌∷◌, ◌++◌,
  get_elem?, All, Ascends, is_some, arith,
}
use bek.Worker.Types.{
  WorkStatus, WorkerEventType, WorkerEvent, WorkerDeadLetterRecord, WorkerWorkRecord,
}
use bek.Worker.Attempts.{assert_retry_policy, is_active_status}
use bek.Worker.State.{QueueOptions, Queue, Outcome, returned, threw, find_by_lease_id}
use bek.Common.Json.{Fields}
use bek.Worker.Snapshots.{emit_runtime_event, read, restore}
use bek.Worker.Commands.{Command, Reply, reply_with, perform, run}
use bek.Worker.Evolution.{
  IsValid, Evolves, same, drawn, logged, changed, pushed, buried, HasNoFault, Runs,
}
use bek.Worker.Evolution.Keeps.{Inv, Evolves-Inv}
use bek.Worker.Evolution.Stays.{Later, Stays, Evolves-Stays}
use History.{Evolves-event, Evolves-letter}
use Restart.{IsTight, restore-read}
use bek.Worker.Runs.{returned-Runs, emit-Evolves}
use bek.Worker.Runs.Leases.{expire_leases-Runs, heartbeat-Runs}
use bek.Worker.Runs.Claims.{claim_next-Runs}
use bek.Worker.Runs.Settle.{settle-Runs}
use bek.Worker.Runs.Control.{enqueue-Runs, redrive_dead_letter-Runs, cancel_run-Runs}
use bek.Worker.Runs.Resumes.{resume_after_approval-Runs}

reply-Runs :
    {A : Type 0} {q : Queue} (f : A → Reply) (x : Outcome A × Queue)
    → Runs q x
    → Runs q (reply_with f x.0, x.1)
reply-Runs f (returned a, p) h = record { evolves = h.evolves; sound = tt }
reply-Runs f (threw e, p) h = record { evolves = h.evolves; sound = h.sound }

Evolves-trans : {q p s : Queue} → Evolves q p → Evolves p s → Evolves q s
Evolves-trans v same = v
Evolves-trans v (drawn w) = drawn (Evolves-trans v w)
Evolves-trans v (logged w e h) = logged (Evolves-trans v w) e h
Evolves-trans v (changed w i r r' at c) = changed (Evolves-trans v w) i r r' at c
Evolves-trans v (pushed w r s t u) = pushed (Evolves-trans v w) r s t u
Evolves-trans v (buried w d s) = buried (Evolves-trans v w) d s

module _ (o : QueueOptions) (ok : assert_retry_policy o.retry_policy ≡ true) where
  emit_runtime_event-Evolves :
      (lease_id : String) (type : WorkerEventType) (message : String) (data_fields : Option Fields)
      (at : Option ℕ) (clock : ℕ) (q : Queue)
      → Evolves q (emit_runtime_event o lease_id type message data_fields at clock q).1
  unfolding emit_runtime_event
  emit_runtime_event-Evolves lease_id type message data_fields at clock q =
      elim (Option-cases (find_by_lease_id lease_id q)) [
        | inl out ↦ rw (out, emit_runtime_event) same
        | inr ((i, r), found) ↦ rw (found, emit_runtime_event) (emit-Evolves o _ clock same)
      ]

  perform-Runs : (c : Command) (clock : ℕ) {q : Queue} → Inv q → Runs q (perform o c clock q)
  unfolding perform
  perform-Runs (Command.enqueue item available_at at) clock h =
      reply-Runs Reply.enqueue _ (enqueue-Runs o item available_at at clock)
  perform-Runs (Command.claim_next worker_id lease_ms at) clock h =
      reply-Runs Reply.claim_next _ (claim_next-Runs o worker_id lease_ms at clock h)
  perform-Runs (Command.heartbeat lease_id by at) clock h =
      reply-Runs Reply.heartbeat _ (heartbeat-Runs o lease_id by at clock h)
  perform-Runs (Command.expire_leases at) clock h =
      reply-Runs Reply.expire_leases _ (expire_leases-Runs o at clock h)
  perform-Runs (Command.settle lease_id result approval at) clock h =
      reply-Runs Reply.settle _ (settle-Runs o lease_id result approval at clock ok h)
  perform-Runs (Command.cancel_run org_id run_id reason at) clock h =
      reply-Runs Reply.cancel_run _ (cancel_run-Runs o org_id run_id reason at clock h)
  perform-Runs (Command.redrive_dead_letter org_id letter_id reason trace_id at) clock h =
      reply-Runs Reply.redrive_dead_letter _
        (redrive_dead_letter-Runs o org_id letter_id reason trace_id at clock)
  perform-Runs (Command.resume_after_approval approval trace_id at) clock h =
      reply-Runs Reply.resume_after_approval _
        (resume_after_approval-Runs o approval trace_id at clock h)
  perform-Runs (Command.emit input) clock h = returned-Runs _ (emit-Evolves o input clock same)
  perform-Runs (Command.emit_runtime_event lease_id type message data_fields at) clock {q} h =
      returned-Runs _ (emit_runtime_event-Evolves lease_id type message data_fields at clock q)

  run-Evolves : (calls : List (Command × ℕ)) {q : Queue} → Inv q → Evolves q (run o calls q)
  unfolding run
  run-Evolves [] h = same
  run-Evolves ((c, clock) ∷ calls) h =
      let w = (perform-Runs c clock h).evolves in
      Evolves-trans w (run-Evolves calls (Evolves-Inv w h))

  -- Whatever calls are made, every record stays consistent (its attempt state, its lease and its
  -- cancellation agree with its status, and one that awaits an approval has its gate), and the
  -- records, the dead letters and the events each stay in the strict order of their sequence
  -- numbers, all below the next one.
  pub run-Inv : (calls : List (Command × ℕ)) {q : Queue} → Inv q → Inv (run o calls q)
  run-Inv calls h = Evolves-Inv (run-Evolves calls h) h

  -- A record that is completed, failed, cancelled or dead is the same for ever.
  pub run-terminal :
      (calls : List (Command × ℕ)) {q : Queue} (i : ℕ) (r : WorkerWorkRecord)
      → Inv q
      → get_elem? q.records i ≡ some r
      → is_active_status r.status ≡ false
      → get_elem? (run o calls q).records i ≡ some r
  run-terminal calls i r h at over =
      let (r', there, later) = Evolves-Stays i r (run-Evolves calls h) at in
      rw (← later.frozen over) there

  -- Claimed work whose cancellation is asked for never completes, fails or goes back to the queue:
  -- after any calls it is still claimed with the cancellation asked for, or cancelled.
  pub run-cancel_sticks :
      (calls : List (Command × ℕ)) {q : Queue} (i : ℕ) (r : WorkerWorkRecord)
      → Inv q
      → get_elem? q.records i ≡ some r
      → r.status ≡ WorkStatus.claimed
      → is_some r.cancel_requested_at ≡ true
      → (r' : WorkerWorkRecord) × (get_elem? (run o calls q).records i ≡ some r')
        × ((r'.status ≡ WorkStatus.claimed) × (is_some r'.cancel_requested_at ≡ true)
            ⊎ (r'.status ≡ WorkStatus.cancelled))
  run-cancel_sticks calls i r h at claimed asked =
      let (r', there, later) = Evolves-Stays i r (run-Evolves calls h) at in
      (r', there, later.stops claimed asked)

  -- After any calls, a queue that is built from the snapshot that `read` gives is the queue itself,
  -- with the same records, dead letters, events and next sequence number, and with the count that
  -- its new identifiers' factory is given.
  pub run-restore-read :
      (calls : List (Command × ℕ)) (n : ℕ) {q : Queue}
      → Inv q
      → IsTight q
      → restore (read (run o calls q)) n ≡ record (run o calls q) { next_id = n }
  run-restore-read calls n h t = restore-read n (run-Evolves calls h) h t

  -- The events and the dead letters are only added to: after any calls, each is still where it
  -- was.
  pub run-history :
      (calls : List (Command × ℕ)) {q : Queue}
      → Inv q
      → ((i : ℕ) (e : WorkerEvent)
          → get_elem? q.events i ≡ some e
          → get_elem? (run o calls q).events i ≡ some e)
        × ((i : ℕ) (d : WorkerDeadLetterRecord)
            → get_elem? q.dead_letters i ≡ some d
            → get_elem? (run o calls q).dead_letters i ≡ some d)
  run-history calls h = (
    λ i e at. Evolves-event i e (run-Evolves calls h) at,
    λ i d at. Evolves-letter i d (run-Evolves calls h) at,
  )
