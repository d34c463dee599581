-- ===== src/Worker/Evolution.antt =====
-- What the operations of the worker queue may do, as a relation between queues: the states that a
-- record may be in, the moves of a record, and the sequences of primitive steps.
pub mod Keeps
pub mod Stays
use bek.Common.{
  ℕ, suc, ◌≡◌, ◌⊎◌, Bool, true, false, Option, some, List, [], ◌∷◌, ◌++◌, get_elem?, is_some,
}
use bek.Worker.Types.{
  WorkStatus, AttemptState, WorkerWorkRecord, WorkerDeadLetterRecord, WorkerEvent,
}
use bek.Worker.Attempts.{is_active_status}
use bek.Worker.State.{
  Queue, QueueError, lease_ms_not_positive, extend_by_ms_not_positive, approval_missing,
  approval_of_other_work, invalid_transition, invalid_retry_policy, Outcome, returned, threw, put,
  push_record, push_dead_letter, draw_id,
}

-- Which attempt state a status goes with, whether a lease is held and a cancellation asked for.
abbrev pub Consistent : WorkStatus → AttemptState → Bool → Bool → Type 0
Consistent WorkStatus.queued a leased asked =
    (a ≡ AttemptState.queued) × (leased ≡ false) × (asked ≡ false)
Consistent WorkStatus.claimed a leased asked =
    (leased ≡ true)
    × ((a ≡ AttemptState.claimed) × (asked ≡ false)
        ⊎ (a ≡ AttemptState.cancel_requested) × (asked ≡ true))
Consistent WorkStatus.awaiting_approval a leased asked =
    (a ≡ AttemptState.awaiting_approval) × (leased ≡ false) × (asked ≡ false)
Consistent WorkStatus.completed a leased asked =
    (a ≡ AttemptState.completed) × (leased ≡ false) × (asked ≡ false)
Consistent WorkStatus.failed a leased asked =
    (a ≡ AttemptState.retry_scheduled) × (leased ≡ false) × (asked ≡ false)
Consistent WorkStatus.cancelled a leased asked = (a ≡ AttemptState.cancelled) × (leased ≡ false)
Consistent WorkStatus.dead a leased asked =
    (a ≡ AttemptState.dead_lettered) × (leased ≡ false) × (asked ≡ false)

abbrev pub Gated : WorkStatus → Bool → Type 0
Gated WorkStatus.awaiting_approval gated = gated ≡ true
Gated _ gated = Unit

pub record IsValid (r : WorkerWorkRecord) : Type 0 where
  pub consistent :
      Consistent r.status r.attempt_state (is_some r.lease) (is_some r.cancel_requested_at)
  pub gated : Gated r.status (is_some r.approval)

-- The moves between statuses. No move leaves a terminal status.
abbrev pub Moves : WorkStatus → WorkStatus → Type 0
Moves WorkStatus.queued WorkStatus.claimed = Unit
Moves WorkStatus.queued WorkStatus.cancelled = Unit
Moves WorkStatus.claimed WorkStatus.claimed = Unit
Moves WorkStatus.claimed WorkStatus.queued = Unit
Moves WorkStatus.claimed WorkStatus.awaiting_approval = Unit
Moves WorkStatus.claimed WorkStatus.completed = Unit
Moves WorkStatus.claimed WorkStatus.failed = Unit
Moves WorkStatus.claimed WorkStatus.cancelled = Unit
Moves WorkStatus.claimed WorkStatus.dead = Unit
Moves WorkStatus.awaiting_approval WorkStatus.queued = Unit
Moves WorkStatus.awaiting_approval WorkStatus.cancelled = Unit
Moves _ _ = ⊥

-- A claimed record whose cancellation is asked for can only stay so or be cancelled.
abbrev pub Stops : Bool → WorkStatus → Bool → Type 0
Stops true status asked =
    (asked ≡ true) × ((status ≡ WorkStatus.claimed) ⊎ (status ≡ WorkStatus.cancelled))
Stops false status asked = Unit

pub record Change (r r' : WorkerWorkRecord) : Type 0 where
  pub same_id : r'.id ≡ r.id
  pub same_sequence : r'.sequence ≡ r.sequence
  pub same_key : r'.idempotency_key ≡ r.idempotency_key
  pub same_org : r'.item.org_id ≡ r.item.org_id
  pub same_run : r'.item.run_id ≡ r.item.run_id
  pub same_attempt : r'.item.attempt ≡ r.item.attempt
  pub moves : Moves r.status r'.status
  pub stops : Stops (is_some r.cancel_requested_at) r'.status (is_some r'.cancel_requested_at)
  pub valid : IsValid r'

abbrev pub log : WorkerEvent → Queue → Queue
log e q = record q {
  events = q.events ++ e ∷ [];
  next_sequence = suc q.next_sequence;
  next_id = suc q.next_id;
}

-- The queue `q` becomes another by primitive steps.
pub data Evolves (q : Queue) : Queue → Type 0 where
  same : Evolves q q
  drawn : {q' : Queue} → Evolves q q' → Evolves q (draw_id q')
  logged :
      {q' : Queue}
      → Evolves q q'
      → (e : WorkerEvent) → e.sequence ≡ q'.next_sequence
      → Evolves q (log e q')
  changed :
      {q' : Queue}
      → Evolves q q'
      → (i : ℕ) (r r' : WorkerWorkRecord) → get_elem? q'.records i ≡ some r
      → Change r r'
      → Evolves q (put i r' q')
  pushed :
      {q' : Queue}
      → Evolves q q'
      → (r : WorkerWorkRecord) → r.sequence ≡ q'.next_sequence
      → r.status ≡ WorkStatus.queued
      → IsValid r
      → Evolves q (push_record r q')
  buried :
      {q' : Queue}
      → Evolves q q'
      → (d : WorkerDeadLetterRecord) → d.sequence ≡ q'.next_sequence
      → Evolves q (push_dead_letter d q')

-- The errors that an operation's input explains.
abbrev pub IsInputError : QueueError → Type 0
IsInputError lease_ms_not_positive = Unit
IsInputError extend_by_ms_not_positive = Unit
IsInputError approval_missing = Unit
IsInputError approval_of_other_work = Unit
IsInputError invalid_transition = ⊥
IsInputError invalid_retry_policy = ⊥

abbrev pub HasNoFault : {A : Type 0} → Outcome A → Type 0
HasNoFault (returned _) = Unit
HasNoFault (threw e) = IsInputError e

-- An operation evolves the queue, and throws only for its input.
pub record Runs {A : Type 0} (q : Queue) (x : Outcome A × Queue) : Type 0 where
  pub evolves : Evolves q x.1
  pub sound : HasNoFault x.0
