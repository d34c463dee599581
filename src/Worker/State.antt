-- ===== src/Worker/State.antt =====
-- The state of `InMemoryWorkerQueue` and the private steps that every operation is made of:
-- packages/worker/src/index.ts. A reference to a record of `this.records` is its index.
use bek.Common.{
  ℕ, suc, String, Bool, false, Option, none, some, List, [], ◌∷◌, ◌++◌, set, or_else, find_index,
  if◌then◌else◌, ◌==◌,
}
use bek.Common.Json.{Fields}
use bek.Core.Security.{Redactor, redact_fields}
use bek.Worker.Types.{
  WorkStatus, AttemptState, WorkerWorkRecord, WorkerDeadLetterRecord, WorkerEventType, WorkerEvent,
  WorkerEventInput, WorkerRetryPolicy,
}
use bek.Worker.Attempts.{can_transition_run_attempt_state}

-- What the constructor is given: the identifiers' factory, as a function of the prefix and of how
-- many identifiers it has made, and the redaction of secrets.
pub record QueueOptions : Type 0 where
  pub id_factory : String → ℕ → String
  pub redactor : Redactor
  pub retry_policy : WorkerRetryPolicy

pub record Queue : Type 0 where
  pub records : List WorkerWorkRecord
  pub dead_letters : List WorkerDeadLetterRecord
  pub events : List WorkerEvent
  pub next_sequence : ℕ
  -- The state of the identifiers' factory.
  pub next_id : ℕ

-- What an operation throws.
pub data QueueError : Type 0 where
  lease_ms_not_positive extend_by_ms_not_positive approval_missing approval_of_other_work
        invalid_transition invalid_retry_policy :
      QueueError

pub data Outcome {ℓ} (A : Type ℓ) : Type ℓ where
  returned : A → Outcome A
  threw : QueueError → Outcome A

-- The rest of an operation after a part that may throw.
unfoldable pub and_then :
    {A B : Type 0} → Outcome A × Queue → (A → Queue → Outcome B × Queue) → Outcome B × Queue
and_then (threw e, q) k = (threw e, q)
and_then (returned a, q) k = k a q

abbrev pub time : Option ℕ → ℕ → ℕ
time override clock = or_else override clock

-- `this.records[i]` is given new fields.
unfoldable pub put : ℕ → WorkerWorkRecord → Queue → Queue
put i r q = record q { records = set q.records i r }

-- A new record takes the next sequence number and a new identifier.
unfoldable pub push_record : WorkerWorkRecord → Queue → Queue
push_record r q = record q {
  records = q.records ++ r ∷ [];
  next_sequence = suc q.next_sequence;
  next_id = suc q.next_id;
}

unfoldable pub push_dead_letter : WorkerDeadLetterRecord → Queue → Queue
push_dead_letter d q = record q {
  dead_letters = q.dead_letters ++ d ∷ [];
  next_sequence = suc q.next_sequence;
  next_id = suc q.next_id;
}

-- An identifier that is not of a record, a dead letter or an event.
unfoldable pub draw_id : Queue → Queue
draw_id q = record q { next_id = suc q.next_id }

unfoldable pub transition_record :
    WorkerWorkRecord → WorkStatus → AttemptState → ℕ → Option WorkerWorkRecord
transition_record r status attempt_state now =
    if can_transition_run_attempt_state r.attempt_state attempt_state
    then some (record r { status = status; attempt_state = attempt_state; updated_at = now })
    else none

-- The rest of an operation after `transitionRecord`, which throws with the queue as it is.
unfoldable pub or_throw {ℓ} :
    {A : Type ℓ}
    → Option WorkerWorkRecord
    → Queue
    → (WorkerWorkRecord → Outcome A × Queue)
    → Outcome A × Queue
or_throw none q k = (threw invalid_transition, q)
or_throw (some r) q k = k r

-- `record.lease?.id === leaseId`
abbrev pub holds_lease : String → WorkerWorkRecord → Bool
holds_lease lease_id r = elim r.lease [ none ↦ false | some l ↦ l.id == lease_id ]

unfoldable pub find_by_lease_id : String → Queue → Option (ℕ × WorkerWorkRecord)
find_by_lease_id lease_id q = find_index (holds_lease lease_id) q.records

module _ (o : QueueOptions) where
  unfoldable pub event_of : WorkerEventInput → ℕ → Queue → WorkerEvent
  event_of input clock q = record {
    id = o.id_factory "event" q.next_id;
    sequence = q.next_sequence;
    type = input.type;
    org_id = input.org_id;
    run_id = input.run_id;
    attempt = input.attempt;
    trace_id = input.trace_id;
    message = o.redactor.redact_secrets input.message;
    data_fields = elim input.data_fields [
      | none ↦ none
      | some d ↦ some (redact_fields o.redactor d)
    ];
    created_at = time input.now clock;
  }

  unfoldable pub emit : WorkerEventInput → ℕ → Queue → Queue
  emit input clock q = record q {
    events = q.events ++ event_of input clock q ∷ [];
    next_sequence = suc q.next_sequence;
    next_id = suc q.next_id;
  }

-- The event of an operation on a record.
abbrev pub event_for :
    WorkerEventType → WorkerWorkRecord → String → Option Fields → ℕ → WorkerEventInput
event_for type r message data_fields now = record {
  type = type;
  org_id = r.item.org_id;
  run_id = r.item.run_id;
  attempt = some r.item.attempt;
  trace_id = some r.item.trace_id;
  message = message;
  data_fields = data_fields;
  now = some now;
}
