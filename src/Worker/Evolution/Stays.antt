-- ===== src/Worker/Evolution/Stays.antt =====
-- What becomes of one record, whose reference is its index, while a queue evolves.
use bek.Common.{
  ℕ, ◌≡◌, refl, sym, ap, subst, ◌∙◌, ◌⊎◌, inl, inr, true, false, some, [], ◌∷◌, get_elem?, set,
  get_elem?-set_self, get_elem?-set_ne, get_elem?-append, is_some, arith,
}
use native.Mathlib.Decide.{ℕ_discrete}
use bek.Worker.Types.{WorkStatus, WorkerWorkRecord}
use bek.Worker.Attempts.{is_active_status}
use bek.Worker.State.{Queue, put, push_record, push_dead_letter, draw_id}
use bek.Worker.Evolution.{Stops, Change, Evolves, same, drawn, logged, changed, pushed, buried}

-- A record and what it is later: it keeps its name, its place and its work; a terminal record is
-- left alone, and one whose cancellation is asked for stays claimed or is cancelled.
pub record Later (r r' : WorkerWorkRecord) : Type 0 where
  pub same_id : r'.id ≡ r.id
  pub same_sequence : r'.sequence ≡ r.sequence
  pub same_key : r'.idempotency_key ≡ r.idempotency_key
  pub same_org : r'.item.org_id ≡ r.item.org_id
  pub same_run : r'.item.run_id ≡ r.item.run_id
  pub same_attempt : r'.item.attempt ≡ r.item.attempt
  pub frozen : is_active_status r.status ≡ false → r' ≡ r
  pub stops :
      r.status ≡ WorkStatus.claimed
      → is_some r.cancel_requested_at ≡ true
      → (r'.status ≡ WorkStatus.claimed) × (is_some r'.cancel_requested_at ≡ true)
        ⊎ (r'.status ≡ WorkStatus.cancelled)

Later-refl : (r : WorkerWorkRecord) → Later r r
Later-refl r = record {
  same_id = refl;
  same_sequence = refl;
  same_key = refl;
  same_org = refl;
  same_run = refl;
  same_attempt = refl;
  frozen = λ _. refl;
  stops = λ c a. inl (c, a);
}

Change-active : (r r' : WorkerWorkRecord) → Change r r' → is_active_status r.status ≡ true
unfolding is_active_status
Change-active r r' c = ground (arith, c.moves)

frozen-not-active :
    {r s : WorkerWorkRecord}
    → Later r s
    → is_active_status r.status ≡ false
    → is_active_status s.status ≡ true
    → ⊥
frozen-not-active l h k =
    let e = ap (λ (x : WorkerWorkRecord). is_active_status x.status) (l.frozen h) in cc

abbrev Stopping : WorkerWorkRecord → Type 0
Stopping r =
    (r.status ≡ WorkStatus.claimed) × (is_some r.cancel_requested_at ≡ true)
    ⊎ (r.status ≡ WorkStatus.cancelled)

stops-Change : (s t : WorkerWorkRecord) → Change s t → Stopping s → Stopping t
stops-Change s t c (inl (claimed, asked)) =
    let k : Stops true t.status (is_some t.cancel_requested_at) = rw asked at c.stops in
    elim k.1 [ inl still ↦ inl (still, k.0) | inr over ↦ inr over ]
stops-Change s t c (inr over) = ground (arith, c.moves)

Later-Change : {r s t : WorkerWorkRecord} → Later r s → Change s t → Later r t
unfolding is_active_status
Later-Change {r} {s} {t} l c = record {
  same_id = c.same_id ∙ l.same_id;
  same_sequence = c.same_sequence ∙ l.same_sequence;
  same_key = c.same_key ∙ l.same_key;
  same_org = c.same_org ∙ l.same_org;
  same_run = c.same_run ∙ l.same_run;
  same_attempt = c.same_attempt ∙ l.same_attempt;
  frozen = λ h. absurd (frozen-not-active l h (Change-active s t c));
  stops = λ h a. stops-Change s t c (l.stops h a);
}

-- What stands at the index of a record.
abbrev pub Stays : Queue → ℕ → WorkerWorkRecord → Type 0
Stays q i r = (r' : WorkerWorkRecord) × (get_elem? q.records i ≡ some r') × Later r r'

Stays-put :
    (q : Queue) (i j : ℕ) (r s t : WorkerWorkRecord)
    → Stays q i r
    → get_elem? q.records j ≡ some s
    → Change s t
    → Stays (put j t q) i r
unfolding put
Stays-put q i j r s t (r', at, l) at' c = elim (ℕ_discrete j i) [
  | yes e ↦
      let here : get_elem? q.records j ≡ some r' = rw e at in
      let e' : s ≡ r' = cc in
      (
        t,
        subst (λ k. get_elem? (set q.records j t) k ≡ some t) e
            (get_elem?-set_self q.records j s t at'),
        Later-Change (subst (Later r) (sym e') l) c,
      )
  | no ne ↦ (r', get_elem?-set_ne q.records j i t ne ∙ at, l)
]

-- Whatever happens to the queue, a record stays at its index and is only moved on.
pub Evolves-Stays :
    {q q' : Queue} (i : ℕ) (r : WorkerWorkRecord)
    → Evolves q q'
    → get_elem? q.records i ≡ some r
    → Stays q' i r
unfolding put push_record push_dead_letter draw_id
Evolves-Stays i r same h = (r, h, Later-refl r)
Evolves-Stays i r (drawn v) h = Evolves-Stays i r v h
Evolves-Stays i r (logged v e s) h = Evolves-Stays i r v h
Evolves-Stays i r (changed {q' = p} v j s t at c) h =
    Stays-put p i j r s t (Evolves-Stays i r v h) at c
Evolves-Stays i r (pushed {q' = p} v s _ _ _) h =
    let (r', at, l) = Evolves-Stays i r v h in (r', get_elem?-append p.records (s ∷ []) i at, l)
Evolves-Stays i r (buried v d s) h = Evolves-Stays i r v h
