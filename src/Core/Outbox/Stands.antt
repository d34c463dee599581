-- ===== src/Core/Outbox/Stands.antt =====
-- What operations keep of a delivery that is in the outbox: packages/core/src/store.ts.
use bek.Common.{
  ℕ, suc, ◌≤◌, ◌≡◌, ◌≢◌, refl, ap, ◌∙◌, inl, inr, Bool-cases, Option, Option-cases, some, List, [],
  ◌∷◌, get_elem?, get_elem?-set_self, get_elem?-set_ne, find_index, find_index-some, or_else, ◌==◌,
  eq_iff, eqb, String, arith,
}
use bek.Core.Outbox.{
  OutboundDelivery, EnqueueInput, FailInput, Outbox, OutboxOptions, is_queued, put_delivery, revive,
  OutboundDeliveryStatus, begin_outbound_delivery, complete_outbound_delivery,
  fail_outbound_delivery, failed_delivery, updated_delivery, new_delivery,
  enqueue_outbound_delivery,
}
use bek.Core.Outbox.Keys.{OutboxCommand, perform_outbox, run_outbox}

-- The later delivery is the earlier one, with as many attempts or more.
pub record IsLater (d e : OutboundDelivery) : Type 0 where
  pub same_id : e.id ≡ d.id
  pub same_key : e.key ≡ d.key
  pub same_creation : e.created_at ≡ d.created_at
  pub attempts : d.attempts ≤ e.attempts

-- The delivery is in the outbox, as it is or later.
abbrev pub Stands : OutboundDelivery → Outbox → Type 0
Stands d b = (e : OutboundDelivery) × (i : ℕ) × (get_elem? b.deliveries i ≡ some e) × IsLater d e

pub IsLater-refl : (d : OutboundDelivery) → IsLater d d
IsLater-refl d = record {
  same_id = refl;
  same_key = refl;
  same_creation = refl;
  attempts = omega arith;
}

IsLater-trans : (d e f : OutboundDelivery) → IsLater d e → IsLater e f → IsLater d f
IsLater-trans d e f v w = record {
  same_id = w.same_id ∙ v.same_id;
  same_key = w.same_key ∙ v.same_key;
  same_creation = w.same_creation ∙ v.same_creation;
  attempts = omega (arith, v.attempts, w.attempts);
}

-- A delivery stands where another is written, or where a later one of its own is.
put-Stands :
    (d old new : OutboundDelivery) (j : ℕ) (b : Outbox)
    → Stands d b
    → get_elem? b.deliveries j ≡ some old
    → IsLater old new
    → Stands d (put_delivery j new b)
unfolding put_delivery
put-Stands d old new j b (e, i, at, v) there w = elim (Bool-cases (eqb i j)) [
  | inl same ↦
      let here : i ≡ j = ground arith in
      let is : e ≡ old = ground (arith, at, there, ap (get_elem? b.deliveries) here) in
      (new, j, get_elem?-set_self b.deliveries j old new there, IsLater-trans d e new v (rw is w))
  | inr other ↦
      let away : j ≢ i = λ h. ground arith in
      (e, i, get_elem?-set_ne b.deliveries j i new away ∙ at, v)
]

begin-Stands :
    (id : String) (at : Option ℕ) (clock : ℕ) (d : OutboundDelivery) (b : Outbox)
    → Stands d b
    → Stands d (begin_outbound_delivery id at clock b).1
unfolding begin_outbound_delivery
begin-Stands id at clock d b h =
    elim (Option-cases (find_index (λ (x : OutboundDelivery). x.id == id) b.deliveries)) [
      | inl out ↦ rw (out, begin_outbound_delivery) h
      | inr ((i, x), f) ↦ elim (Bool-cases (is_queued x.status)) [
        | inr other ↦ rw (f, begin_outbound_delivery, other) h
        | inl queued ↦
            rw (f, begin_outbound_delivery, queued)
              (put-Stands d x _ i b h (find_index-some _ b.deliveries i f).0 (record {
                same_id = refl;
                same_key = refl;
                same_creation = refl;
                attempts = omega arith;
              }))
      ]
    ]

complete-Stands :
    (id : String) (at : Option ℕ) (clock : ℕ) (d : OutboundDelivery) (b : Outbox)
    → Stands d b
    → Stands d (complete_outbound_delivery id at clock b).1
unfolding complete_outbound_delivery
complete-Stands id at clock d b h =
    elim (Option-cases (find_index (λ (x : OutboundDelivery). x.id == id) b.deliveries)) [
      | inl out ↦ rw (out, complete_outbound_delivery) h
      | inr ((i, x), f) ↦
          rw (f, complete_outbound_delivery)
            (put-Stands d x _ i b h (find_index-some _ b.deliveries i f).0 (record {
              same_id = refl;
              same_key = refl;
              same_creation = refl;
              attempts = omega arith;
            }))
    ]

IsLater-revive :
    (s : OutboundDeliveryStatus) (now : ℕ) (d : OutboundDelivery) → IsLater d (revive s now d)
IsLater-revive OutboundDeliveryStatus.queued now d = IsLater-refl d
IsLater-revive OutboundDeliveryStatus.delivering now d = IsLater-refl d
IsLater-revive OutboundDeliveryStatus.delivered now d = IsLater-refl d
IsLater-revive OutboundDeliveryStatus.failed now d = record {
  same_id = refl;
  same_key = refl;
  same_creation = refl;
  attempts = omega arith;
}

-- What is enqueued has a delivery of its key.
abbrev pub IsStored : Outbox → OutboxCommand × ℕ → Type 0
IsStored b (OutboxCommand.enqueue input, clock) =
    (e : OutboundDelivery) × (i : ℕ) × (get_elem? b.deliveries i ≡ some e) × (e.key ≡ input.key)
IsStored b _ = Unit

module _ (o : OutboxOptions) where
  fail-Stands :
      (input : FailInput) (clock : ℕ) (d : OutboundDelivery) (b : Outbox)
      → Stands d b
      → Stands d (fail_outbound_delivery o input clock b).1
  unfolding fail_outbound_delivery failed_delivery
  fail-Stands input clock d b h =
      elim (Option-cases (find_index (λ (x : OutboundDelivery). x.id == input.id) b.deliveries)) [
        | inl out ↦ rw (out, fail_outbound_delivery) h
        | inr ((i, x), f) ↦
            rw (f, fail_outbound_delivery)
              (put-Stands d x _ i b h (find_index-some _ b.deliveries i f).0 (record {
                same_id = refl;
                same_key = refl;
                same_creation = refl;
                attempts = omega arith;
              }))
      ]

  updated_delivery-IsLater :
      (input : EnqueueInput) (now : ℕ) (d : OutboundDelivery)
      → IsLater d (updated_delivery o input now d)
  unfolding updated_delivery
  updated_delivery-IsLater input now d =
      let v = IsLater-revive d.status now _ in
      record {
        same_id = v.same_id;
        same_key = v.same_key;
        same_creation = v.same_creation;
        attempts = v.attempts;
      }

  enqueue-Stands :
      (input : EnqueueInput) (clock : ℕ) (d : OutboundDelivery) (b : Outbox)
      → Stands d b
      → Stands d (enqueue_outbound_delivery o input clock b).1
  unfolding enqueue_outbound_delivery
  enqueue-Stands input clock d b (e, i, at, v) =
      elim (Option-cases (find_index (λ (x : OutboundDelivery). x.key == input.key) b.deliveries)) [
        | inl out ↦ rw (out, enqueue_outbound_delivery) (e, suc i, at, v)
        | inr ((j, x), f) ↦
            rw (f, enqueue_outbound_delivery)
              (put-Stands d x _ j b (e, i, at, v) (find_index-some _ b.deliveries j f).0
                (updated_delivery-IsLater input (or_else input.now clock) x))
      ]

  pub perform-Stands :
      (c : OutboxCommand) (clock : ℕ) (d : OutboundDelivery) (b : Outbox)
      → Stands d b
      → Stands d (perform_outbox o c clock b)
  unfolding perform_outbox
  perform-Stands (OutboxCommand.enqueue input) clock d b h = enqueue-Stands input clock d b h
  perform-Stands (OutboxCommand.begin id at) clock d b h = begin-Stands id at clock d b h
  perform-Stands (OutboxCommand.complete id at) clock d b h = complete-Stands id at clock d b h
  perform-Stands (OutboxCommand.fail input) clock d b h = fail-Stands input clock d b h

  pub run-Stands :
      (calls : List (OutboxCommand × ℕ)) (d : OutboundDelivery) (b : Outbox)
      → Stands d b
      → Stands d (run_outbox o calls b)
  unfolding run_outbox
  run-Stands [] d b h = h
  run-Stands ((c, clock) ∷ calls) d b h =
      run-Stands calls d (perform_outbox o c clock b) (perform-Stands c clock d b h)

  pub enqueue-stores :
      (input : EnqueueInput) (clock : ℕ) (b : Outbox)
      → IsStored (enqueue_outbound_delivery o input clock b).1 (OutboxCommand.enqueue input, clock)
  unfolding enqueue_outbound_delivery new_delivery put_delivery
  enqueue-stores input clock b =
      elim (Option-cases (find_index (λ (x : OutboundDelivery). x.key == input.key) b.deliveries)) [
        | inl out ↦ rw (out, enqueue_outbound_delivery) (_, 0, refl, refl)
        | inr ((j, x), f) ↦
            let (at, fits) = find_index-some _ b.deliveries j f in
            let later = updated_delivery-IsLater input (or_else input.now clock) x in
            rw (f, enqueue_outbound_delivery)
              (
                _,
                j,
                get_elem?-set_self b.deliveries j x _ at,
                later.same_key ∙ (eq_iff x.key input.key).0 fits,
              )
      ]
