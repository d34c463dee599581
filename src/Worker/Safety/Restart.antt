-- ===== src/Worker/Safety/Restart.antt =====
-- A queue that is restarted from its own snapshot: `read` and the constructor of
-- packages/worker/src/index.ts.
use bek.Common.{
  ℕ, suc, max, ◌≡◌, refl, sym, List, [], ◌∷◌, ◌++◌, map, map-set, sort_with_of_Ascends, arith,
}
use mathlib.Core.List.{map-append}
use bek.Worker.Types.{WorkerWorkRecord, WorkerDeadLetterRecord, WorkerEvent}
use bek.Worker.State.{Queue, put, push_record, push_dead_letter, draw_id}
use bek.Worker.Snapshots.{maximum, max_worker_sequence, WorkerSnapshot, read, restore}
use bek.Worker.Evolution.{Evolves, same, drawn, logged, changed, pushed, buried}
use bek.Worker.Evolution.Keeps.{
  Inv, Evolves-Inv, record_sequences, letter_sequences, event_sequences,
}

maximum-snoc : (xs : List ℕ) (n : ℕ) → maximum (xs ++ n ∷ []) ≡ max (maximum xs) n
unfolding maximum
maximum-snoc [] n = omega arith
maximum-snoc (x ∷ xs) n = omega (arith, maximum-snoc xs n)

maximum-push {ℓ} :
    {A : Type ℓ} (f : A → ℕ) (xs : List A) (x : A)
    → maximum (map f (xs ++ x ∷ [])) ≡ max (maximum (map f xs)) (f x)
maximum-push f xs x = rw map-append (maximum-snoc (map f xs) (f x))

-- The next sequence number is one more than the greatest in use.
pub record IsTight (q : Queue) : Type 0 where
  pub next :
      q.next_sequence
      ≡ suc (
          max
            (maximum (record_sequences q))
            (max (maximum (letter_sequences q)) (maximum (event_sequences q))))

Evolves-IsTight : {q q' : Queue} → Evolves q q' → IsTight q → IsTight q'
unfolding put push_record push_dead_letter draw_id
Evolves-IsTight same t = t
Evolves-IsTight (drawn v) t = record { next = (Evolves-IsTight v t).next }
Evolves-IsTight (logged {q' = p} v e s) t = record {
  next = omega (
    arith,
    maximum-push (λ (x : WorkerEvent). x.sequence) p.events e,
    (Evolves-IsTight v t).next,
  );
}
Evolves-IsTight (changed {q' = p} v i r r' at c) t = record {
  next =
      rw (map-set (λ r. r.sequence) p.records i r r' at c.same_sequence) (Evolves-IsTight v t).next;
}
Evolves-IsTight (pushed {q' = p} v r s _ _) t = record {
  next = omega (
    arith,
    maximum-push (λ (x : WorkerWorkRecord). x.sequence) p.records r,
    (Evolves-IsTight v t).next,
  );
}
Evolves-IsTight (buried {q' = p} v d s) t = record {
  next = omega (
    arith,
    maximum-push (λ (x : WorkerDeadLetterRecord). x.sequence) p.dead_letters d,
    (Evolves-IsTight v t).next,
  );
}

abbrev snapshot : Queue → WorkerSnapshot
snapshot q = record { records = q.records; dead_letters = q.dead_letters; events = q.events }

-- A snapshot lists everything in the order of the queue.
read_of_Inv : (q : Queue) → Inv q → read q ≡ snapshot q
unfolding read
read_of_Inv q h =
    rw (sort_with_of_Ascends (λ r. r.sequence) 0 q.next_sequence q.records h.records) (
      rw (sort_with_of_Ascends (λ d. d.sequence) 0 q.next_sequence q.dead_letters h.letters)
        (rw (sort_with_of_Ascends (λ e. e.sequence) 0 q.next_sequence q.events h.events) refl))

restore_of_Inv :
    (q : Queue) (n : ℕ) → Inv q → IsTight q → restore (snapshot q) n ≡ record q { next_id = n }
unfolding restore max_worker_sequence
restore_of_Inv q n h t = λ j. record {
  records = sort_with_of_Ascends (λ r. r.sequence) 0 q.next_sequence q.records h.records j;
  dead_letters =
      sort_with_of_Ascends (λ d. d.sequence) 0 q.next_sequence q.dead_letters h.letters j;
  events = sort_with_of_Ascends (λ e. e.sequence) 0 q.next_sequence q.events h.events j;
  next_sequence = sym t.next j;
  next_id = n;
}

pub restore-read :
    {q q' : Queue} (n : ℕ)
    → Evolves q q'
    → Inv q
    → IsTight q
    → restore (read q') n ≡ record q' { next_id = n }
restore-read {q' = p} n v h t =
    rw (read_of_Inv p (Evolves-Inv v h))
      (restore_of_Inv p n (Evolves-Inv v h) (Evolves-IsTight v t))
