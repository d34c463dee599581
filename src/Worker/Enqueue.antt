-- ===== src/Worker/Enqueue.antt =====
-- Putting work on the queue: `enqueue` and `redriveDeadLetter` of packages/worker/src/index.ts, and
-- the records that queued work starts from.
use bek.Common.{
  ℕ, ◌+◌, String, Bool, ◌&&◌, Option, none, some, or_else, find_index, concat, ◌==◌, [], ◌∷◌,
}
use bek.Common.Json.{Json, Fields}
use bek.Worker.Types.{
  RuntimeWorkReason, RunWorkItem, WorkStatus, AttemptState, WorkerEventType, WorkerWorkRecord,
  WorkerDeadLetterRecord,
}
use bek.Worker.Attempts.{is_active_status, reason_name, create_worker_idempotency_key}
use bek.Worker.State.{
  QueueOptions, Queue, Outcome, returned, time, push_record, draw_id, emit, event_for,
}

pub data EnqueueDecision : Type 0 where
  enqueued : WorkerWorkRecord → EnqueueDecision
  duplicate : WorkerWorkRecord → EnqueueDecision

pub data RedriveDecision : Type 0 where
  redrive_enqueued : WorkerWorkRecord → WorkerDeadLetterRecord → RedriveDecision
  active_work_exists : WorkerWorkRecord → WorkerDeadLetterRecord → RedriveDecision
  not_found : String → RedriveDecision

-- A record as every operation that queues work makes it.
unfoldable pub new_record : String → ℕ → RunWorkItem → ℕ → ℕ → Option String → WorkerWorkRecord
new_record id sequence item available_at now retry_of = record {
  id = id;
  sequence = sequence;
  idempotency_key = create_worker_idempotency_key item;
  item = item;
  status = WorkStatus.queued;
  attempt_state = AttemptState.queued;
  available_at = available_at;
  created_at = now;
  updated_at = now;
  lease = none;
  approval = none;
  retry_of = retry_of;
  cancel_requested_at = none;
  cancel_reason = none;
  terminal_reason = none;
  result = none;
}

-- The work that is tried again, with the next attempt number.
unfoldable pub retry_item : RunWorkItem → ℕ → RunWorkItem
retry_item item now = record item {
  attempt = item.attempt + 1;
  reason = RuntimeWorkReason.retry;
  enqueued_at = now;
}

abbrev pub is_active_key : String → WorkerWorkRecord → Bool
is_active_key key r = r.idempotency_key == key && is_active_status r.status

-- Active work of the run.
abbrev pub is_active_run : String → String → WorkerWorkRecord → Bool
is_active_run org_id run_id r =
    r.item.org_id == org_id && (r.item.run_id == run_id && is_active_status r.status)

abbrev pub is_letter : String → String → WorkerDeadLetterRecord → Bool
is_letter org_id dead_letter_id d = d.id == dead_letter_id && d.item.org_id == org_id

module _ (o : QueueOptions) where
  unfoldable pub enqueue :
      RunWorkItem → Option ℕ → Option ℕ → ℕ → Queue → Outcome EnqueueDecision × Queue
  unfolding new_record
  enqueue item available_at at clock q =
      let now = time at clock in
      let key = create_worker_idempotency_key item in
      elim (find_index (is_active_key key) q.records) [
        | some (i, r) ↦ (returned (duplicate r), q)
        | none ↦
            let available = or_else available_at item.enqueued_at in
            let r =
              new_record (o.id_factory "work" q.next_id) q.next_sequence item available now none in
            let reason = reason_name item.reason in
            let message = concat ("Queued run work for " ∷ reason ∷ "." ∷ []) in
            let detail = Fields.field "reason" (Json.str reason) Fields.end in
            let event = event_for WorkerEventType.enqueued r message (some detail) now in
            (returned (enqueued r), emit o event now (push_record r q))
      ]

  -- The work of a dead letter starts again at its first attempt.
  unfoldable pub redrive_item : RunWorkItem → String → ℕ → RunWorkItem
  redrive_item item trace_id now = record item {
    attempt = 1;
    reason = RuntimeWorkReason.resume;
    trace_id = trace_id;
    enqueued_at = now;
  }

  -- `redriveDeadLetter` once the letter is found and its run has no active work.
  unfoldable pub redrive_letter :
      WorkerDeadLetterRecord
      → Option String
      → Option String
      → ℕ
      → Queue
      → Outcome RedriveDecision × Queue
  unfolding redrive_item new_record
  redrive_letter letter reason trace_id now q =
      let trace = or_else trace_id (o.id_factory "trace" q.next_id) in
      let q1 : Queue = elim trace_id [ none ↦ draw_id q | some _ ↦ q ] in
      let item = redrive_item letter.item trace now in
      let id = o.id_factory "work" q1.next_id in
      let r = new_record id q1.next_sequence item now now (some letter.work_id) in
      let detail = Fields.field "deadLetterId" (Json.str letter.id) (
        Fields.field "previousWorkId" (Json.str letter.work_id)
          (Fields.field "previousAttempt" (Json.num letter.item.attempt) Fields.end)) in
      let message = or_else reason "Dead-lettered run work was redriven." in
      let event = event_for WorkerEventType.redrive_enqueued r message (some detail) now in
      (returned (redrive_enqueued r letter), emit o event now (push_record r q1))

  -- `redriveDeadLetter` once the letter is found.
  unfoldable pub redrive_found :
      WorkerDeadLetterRecord
      → Option String
      → Option String
      → ℕ
      → Queue
      → Outcome RedriveDecision × Queue
  redrive_found letter reason trace_id now q =
      elim (find_index (is_active_run letter.item.org_id letter.item.run_id) q.records) [
        | some (_, r) ↦ (returned (active_work_exists r letter), q)
        | none ↦ redrive_letter letter reason trace_id now q
      ]

  unfoldable pub redrive_dead_letter :
      String
      → String
      → Option String
      → Option String
      → Option ℕ
      → ℕ
      → Queue
      → Outcome RedriveDecision × Queue
  redrive_dead_letter org_id dead_letter_id reason trace_id at clock q =
      elim (find_index (is_letter org_id dead_letter_id) q.dead_letters) [
        | none ↦ (returned (not_found "Dead letter not found."), q)
        | some (_, letter) ↦ redrive_found letter reason trace_id (time at clock) q
      ]
