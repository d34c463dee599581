-- ===== src/Worker/Evolution/Keeps.antt =====
-- What every evolution of a queue keeps.
use bek.Common.{
  ℕ, suc, ◌≡◌, sym, subst, List, [], ◌∷◌, ◌++◌, map, All, All-snoc, All-set, map-set, Ascends,
  Ascends-snoc, Ascends-mono, arith,
}
use bek.Worker.State.{Queue, put, push_record, push_dead_letter, draw_id}
use bek.Worker.Evolution.{IsValid, Evolves, same, drawn, logged, changed, pushed, buried}
use mathlib.Core.List.{map-append}

abbrev pub record_sequences : Queue → List ℕ
record_sequences q = map (λ r. r.sequence) q.records

abbrev pub letter_sequences : Queue → List ℕ
letter_sequences q = map (λ d. d.sequence) q.dead_letters

abbrev pub event_sequences : Queue → List ℕ
event_sequences q = map (λ e. e.sequence) q.events

-- Every record is valid, and each list is in the order of its sequence numbers.
pub record Inv (q : Queue) : Type 0 where
  pub valid : All IsValid q.records
  pub records : Ascends 0 q.next_sequence (record_sequences q)
  pub letters : Ascends 0 q.next_sequence (letter_sequences q)
  pub events : Ascends 0 q.next_sequence (event_sequences q)

-- One more number at the end, the next one.
Ascends-push {ℓ} :
    {A : Type ℓ} (f : A → ℕ) (hi : ℕ) (xs : List A) (x : A)
    → Ascends 0 hi (map f xs)
    → f x ≡ hi
    → Ascends 0 (suc hi) (map f (xs ++ x ∷ []))
Ascends-push f hi xs x s e = rw (map-append f xs (x ∷ []), e) (Ascends-snoc 0 hi (map f xs) s)

pub Evolves-Inv : {q q' : Queue} → Evolves q q' → Inv q → Inv q'
unfolding put push_record push_dead_letter draw_id
Evolves-Inv same h = h
Evolves-Inv (drawn {q' = p} v) h =
    let k = Evolves-Inv v h in
    record { valid = k.valid; records = k.records; letters = k.letters; events = k.events }
Evolves-Inv (logged {q' = p} v e s) h =
    let k = Evolves-Inv v h in
    record {
      valid = k.valid;
      records = Ascends-mono 0 _ _ (record_sequences p) (omega arith) k.records;
      letters = Ascends-mono 0 _ _ (letter_sequences p) (omega arith) k.letters;
      events = Ascends-push (λ e. e.sequence) _ p.events e k.events s;
    }
Evolves-Inv (changed {q' = p} v i r r' at c) h =
    let k = Evolves-Inv v h in
    record {
      valid = All-set IsValid p.records i r' k.valid c.valid;
      records =
          subst (Ascends 0 p.next_sequence)
            (sym (map-set (λ r. r.sequence) p.records i r r' at c.same_sequence)) k.records;
      letters = k.letters;
      events = k.events;
    }
Evolves-Inv (pushed {q' = p} v r s st valid) h =
    let k = Evolves-Inv v h in
    record {
      valid = All-snoc IsValid p.records r k.valid valid;
      records = Ascends-push (λ r. r.sequence) _ p.records r k.records s;
      letters = Ascends-mono 0 _ _ (letter_sequences p) (omega arith) k.letters;
      events = Ascends-mono 0 _ _ (event_sequences p) (omega arith) k.events;
    }
Evolves-Inv (buried {q' = p} v d s) h =
    let k = Evolves-Inv v h in
    record {
      valid = k.valid;
      records = Ascends-mono 0 _ _ (record_sequences p) (omega arith) k.records;
      letters = Ascends-push (λ d. d.sequence) _ p.dead_letters d k.letters s;
      events = Ascends-mono 0 _ _ (event_sequences p) (omega arith) k.events;
    }
