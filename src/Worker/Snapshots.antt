-- ===== src/Worker/Snapshots.antt =====
-- The constructor of the queue, `read` and `emitRuntimeEvent`: packages/worker/src/index.ts.
use bek.Common.{
  ℕ, suc, max, String, Option, none, some, List, [], ◌∷◌, map, by_key, sort_with, if◌then◌else◌,
}
use bek.Common.Json.{Fields}
use bek.Worker.Types.{
  WorkerEventType, WorkerEvent, WorkerEventInput, WorkerWorkRecord, WorkerDeadLetterRecord,
}
use bek.Worker.Attempts.{assert_retry_policy}
use bek.Worker.State.{
  QueueOptions, Queue, invalid_retry_policy, Outcome, returned, threw, find_by_lease_id, emit,
  event_of,
}

pub record WorkerSnapshot : Type 0 where
  pub records : List WorkerWorkRecord
  pub dead_letters : List WorkerDeadLetterRecord
  pub events : List WorkerEvent

unfoldable pub read : Queue → WorkerSnapshot
read q = record {
  records = sort_with (by_key λ r. r.sequence) q.records;
  dead_letters = sort_with (by_key λ d. d.sequence) q.dead_letters;
  events = sort_with (by_key λ e. e.sequence) q.events;
}

-- `Math.max(0, ...values)`
unfoldable pub maximum : List ℕ → ℕ
maximum [] = 0
maximum (n ∷ ns) = max n (maximum ns)

unfoldable pub max_worker_sequence : WorkerSnapshot → ℕ
unfolding maximum
max_worker_sequence s = max (maximum (map (λ r. r.sequence) s.records)) (
    max (maximum (map (λ d. d.sequence) s.dead_letters)) (maximum (map (λ e. e.sequence) s.events)))

abbrev pub empty_queue : ℕ → Queue
empty_queue next_id = record {
  records = [];
  dead_letters = [];
  events = [];
  next_sequence = 1;
  next_id = next_id;
}

-- The queue of a snapshot.
unfoldable pub restore : WorkerSnapshot → ℕ → Queue
unfolding max_worker_sequence
restore s next_id = record {
  records = sort_with (by_key λ r. r.sequence) s.records;
  dead_letters = sort_with (by_key λ d. d.sequence) s.dead_letters;
  events = sort_with (by_key λ e. e.sequence) s.events;
  next_sequence = suc (max_worker_sequence s);
  next_id = next_id;
}

module _ (o : QueueOptions) where
  -- The constructor, with the count of the given identifiers' factory.
  unfoldable pub create_queue : Option WorkerSnapshot → ℕ → Outcome Queue
  unfolding restore assert_retry_policy
  create_queue initial_snapshot next_id =
      let q : Queue = elim initial_snapshot [
        | none ↦ empty_queue next_id
        | some s ↦ restore s next_id
      ] in
      if assert_retry_policy o.retry_policy then returned q else threw invalid_retry_policy

  unfoldable pub emit_runtime_event :
      String
      → WorkerEventType
      → String
      → Option Fields
      → Option ℕ
      → ℕ
      → Queue
      → Option WorkerEvent × Queue
  emit_runtime_event lease_id type message data_fields at clock q =
      elim (find_by_lease_id lease_id q) [
        | none ↦ (none, q)
        | some (i, r) ↦
            let input : WorkerEventInput = record {
              type = type;
              org_id = r.item.org_id;
              run_id = r.item.run_id;
              attempt = some r.item.attempt;
              trace_id = some r.item.trace_id;
              message = message;
              data_fields = data_fields;
              now = at;
            } in
            (some (event_of o input clock q), emit o input clock q)
      ]
