-- ===== src/Worker/Behaviour/Enqueueing.antt =====
-- What is enqueued, and what is a duplicate: `enqueue` of packages/worker/src/index.ts.
use bek.Common.{
  ℕ, ◌≡◌, refl, ◌⊎◌, inl, inr, true, false, Option, Option-cases, some, [], ◌∷◌, ◌++◌, get_elem?,
  All-get_elem?, find_index, find_index-some, find_index-none, or_else, eq_iff, String, arith,
}
use bek.Worker.Types.{WorkStatus, RunWorkItem, WorkerWorkRecord}
use bek.Worker.Attempts.{is_active_status, create_worker_idempotency_key}
use bek.Worker.State.{QueueOptions, Queue, Outcome, returned, emit, push_record}
use bek.Worker.Enqueue.{EnqueueDecision, enqueued, duplicate, new_record, is_active_key, enqueue}

-- A record of the queue is active under the key.
abbrev pub IsActive : Queue → String → WorkerWorkRecord → Type 0
IsActive q key r =
    ((i : ℕ) × (get_elem? q.records i ≡ some r))
    × ((r.idempotency_key ≡ key) × (is_active_status r.status ≡ true))

pub record IsDuplicate (q : Queue) (key : String) (x : Outcome EnqueueDecision × Queue)
    : Type 0 where
  pub there : WorkerWorkRecord
  pub active : IsActive q key there
  pub reply : x ≡ (returned (duplicate there), q)

pub record IsEnqueued (q : Queue) (item : RunWorkItem) (available_at : Option ℕ)
    (x : Outcome EnqueueDecision × Queue) : Type 0 where
  pub fresh : WorkerWorkRecord
  pub none_active : (r : WorkerWorkRecord) → ¬ IsActive q (create_worker_idempotency_key item) r
  pub reply : x.0 ≡ returned (enqueued fresh)
  pub records : x.1.records ≡ q.records ++ fresh ∷ []
  pub key : fresh.idempotency_key ≡ create_worker_idempotency_key item
  pub same_item : fresh.item ≡ item
  pub queued : fresh.status ≡ WorkStatus.queued
  pub available : fresh.available_at ≡ or_else available_at item.enqueued_at

is_active_key-IsActive :
    (key : String) (r : WorkerWorkRecord)
    → is_active_key key r ≡ true
    → (r.idempotency_key ≡ key) × (is_active_status r.status ≡ true)
is_active_key-IsActive key r h = (ground (arith, eq_iff r.idempotency_key key), ground (arith, h))

not_key :
    {key : String} (r : WorkerWorkRecord)
    → is_active_key key r ≡ false
    → r.idempotency_key ≡ key
    → is_active_status r.status ≡ true
    → ⊥
not_key {key} r misses e active = ground (arith, eq_iff r.idempotency_key key, active)

-- An item is enqueued as one new record at the end, queued for the item's time or the given one,
-- where no record is active under its key, and otherwise one that is active is returned and the
-- queue is the same.
pub enqueue_lem :
    (o : QueueOptions) (item : RunWorkItem) (available_at at : Option ℕ) (clock : ℕ) (q : Queue)
    → IsDuplicate q (create_worker_idempotency_key item) (enqueue o item available_at at clock q)
      ⊎ IsEnqueued q item available_at (enqueue o item available_at at clock q)
unfolding enqueue new_record emit push_record
enqueue_lem o item available_at at clock q =
    elim (Option-cases
      (find_index (is_active_key (create_worker_idempotency_key item)) q.records)) [
        | inr ((i, r), found) ↦
            let (there, passes) = find_index-some _ q.records i found in
            inl (record {
              there = r;
              active = ((i, there), is_active_key-IsActive _ r passes);
              reply = rw (found, enqueue) refl;
            })
        | inl out ↦ inr (
            rw (out, enqueue)
              (record {
                fresh = _;
                none_active = λ r ((i, there), (key, active)).
                    not_key r (All-get_elem? _ q.records i (find_index-none _ q.records out) there)
                      key active;
                reply = refl;
                records = refl;
                key = refl;
                same_item = refl;
                queued = refl;
                available = refl;
              }))
      ]
