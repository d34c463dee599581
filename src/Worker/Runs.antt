-- ===== src/Worker/Runs.antt =====
-- Rules for the operations of the worker queue, each of which is a sequence of primitive steps.
pub mod Leases
pub mod Claims
pub mod Settle
pub mod Control
pub mod Resumes
use bek.Common.{
  ℕ, ◌≡◌, refl, sym, ap, subst, set-set, Bool, true, false, Option, none, some, get_elem?, if-cases,
  arith,
}
use bek.Worker.Types.{WorkStatus, AttemptState, WorkerEventInput, WorkerWorkRecord}
use bek.Worker.Attempts.{can_transition_run_attempt_state}
use bek.Worker.State.{
  QueueOptions, Queue, Outcome, returned, threw, put, and_then, transition_record, or_throw, emit,
  event_of,
}
use bek.Worker.Evolution.{Change, Evolves, logged, changed, Runs, HasNoFault}

abbrev pub moved : WorkerWorkRecord → WorkStatus → AttemptState → ℕ → WorkerWorkRecord
moved r status attempt_state now = record r {
  status = status;
  attempt_state = attempt_state;
  updated_at = now;
}

pub transition_record-some :
    (r : WorkerWorkRecord) (status : WorkStatus) (next : AttemptState) (now : ℕ)
    → can_transition_run_attempt_state r.attempt_state next ≡ true
    → transition_record r status next now ≡ some (moved r status next now)
unfolding transition_record
transition_record-some r status next now h = rw h

pub emit-Evolves :
    (o : QueueOptions) (input : WorkerEventInput) (clock : ℕ) {q p : Queue}
    → Evolves q p
    → Evolves q (emit o input clock p)
unfolding emit event_of
emit-Evolves o input clock {p} v = logged v (event_of o input clock p) refl

pub put-put : (i : ℕ) (m t : WorkerWorkRecord) (p : Queue) → put i t (put i m p) ≡ put i t p
unfolding put
put-put i m t p = ap (λ rs. record p { records = rs }) (set-set p.records i m t)

-- Two writes to one record are the second.
pub changed_twice :
    {q p : Queue} (i : ℕ) (r m t : WorkerWorkRecord)
    → Evolves q p
    → get_elem? p.records i ≡ some r
    → Change r t
    → Evolves q (put i t (put i m p))
changed_twice {q} {p} i r m t w at c =
    subst (Evolves q) (sym (put-put i m t p)) (changed w i r t at c)

pub put-emit-put :
    (o : QueueOptions) (i : ℕ) (m t : WorkerWorkRecord) (input : WorkerEventInput) (clock : ℕ)
    (p : Queue)
    → put i t (emit o input clock (put i m p)) ≡ emit o input clock (put i t p)
unfolding put emit event_of
put-emit-put o i m t input clock p =
    ap (λ rs. record (emit o input clock p) { records = rs }) (set-set p.records i m t)

-- The same with an event between the writes.
pub changed_around :
    (o : QueueOptions) {q p : Queue} (i : ℕ) (r m t : WorkerWorkRecord) (input : WorkerEventInput)
    (clock : ℕ)
    → Evolves q p
    → get_elem? p.records i ≡ some r
    → Change r t
    → Evolves q (put i t (emit o input clock (put i m p)))
changed_around o {q} {p} i r m t input clock w at c =
    subst (Evolves q) (sym (put-emit-put o i m t input clock p))
      (emit-Evolves o input clock (changed w i r t at c))

module _ {A : Type 0} where
  -- What holds after a transition that the table allows.
  pub or_throw-lets {ℓ} :
      (P : Outcome A × Queue → Type ℓ) (p : Queue) (k : WorkerWorkRecord → Outcome A × Queue)
      (r : WorkerWorkRecord) (status : WorkStatus) (next : AttemptState) (now : ℕ)
      → can_transition_run_attempt_state r.attempt_state next ≡ true
      → P (k (moved r status next now))
      → P (or_throw (transition_record r status next now) p k)
  unfolding or_throw
  or_throw-lets P p k r status next now h holds =
      rw (transition_record-some r status next now h) holds

  -- A transition that the table allows, and what follows it.
  pub or_throw-Runs :
      {q : Queue} (p : Queue) (k : WorkerWorkRecord → Outcome A × Queue) (r : WorkerWorkRecord)
      (status : WorkStatus) (next : AttemptState) (now : ℕ)
      → can_transition_run_attempt_state r.attempt_state next ≡ true
      → Runs q (k (moved r status next now))
      → Runs q (or_throw (transition_record r status next now) p k)
  unfolding or_throw
  or_throw-Runs p k r status next now h run = rw (transition_record-some r status next now h) run

  pub returned-Runs : {q p : Queue} (a : A) → Evolves q p → Runs q (returned a, p)
  returned-Runs a v = record { evolves = v; sound = tt }

  -- A part of an operation, and what follows it.
  pub and_then-Runs :
      {B : Type 0} {q : Queue} (x : Outcome B × Queue) (k : B → Queue → Outcome A × Queue)
      → Runs q x
      → ((b : B) (p : Queue) → Evolves q p → Runs q (k b p))
      → Runs q (and_then x k)
  unfolding and_then
  and_then-Runs (threw e, p) k run rest = record { evolves = run.evolves; sound = run.sound }
  and_then-Runs (returned b, p) k run rest = rest b p run.evolves
