-- ===== src/Core/Outbox/Keys.antt =====
-- One delivery for each key, over every sequence of operations of the outbox:
-- packages/core/src/store.ts.
use bek.Common.{
  ℕ, ◌≡◌, ◌≢◌, refl, sym, subst, inl, inr, Bool-cases, Option, Option-cases, some, List, [], ◌∷◌,
  map, map-set, get_elem?, All, All-imp, find_index, find_index-some, find_index-none, or_else,
  ◌==◌, eq_iff, String, arith,
}
use bek.Core.Outbox.{
  OutboundDelivery, EnqueueInput, FailInput, Outbox, OutboxOptions, is_queued, put_delivery, revive,
  OutboundDeliveryStatus, begin_outbound_delivery, complete_outbound_delivery,
  fail_outbound_delivery, failed_delivery, updated_delivery, new_delivery,
  enqueue_outbound_delivery,
}

-- The operations that change the outbox.
pub data OutboxCommand : Type 0 where
  enqueue : EnqueueInput → OutboxCommand
  begin : String → Option ℕ → OutboxCommand
  complete : String → Option ℕ → OutboxCommand
  fail : FailInput → OutboxCommand

abbrev pub keys : Outbox → List String
keys b = map (λ (d : OutboundDelivery). d.key) b.deliveries

abbrev pub Distinct : List String → Type 0
Distinct [] = Unit
Distinct (k ∷ ks) = All (λ j. j ≢ k) ks × Distinct ks

All-map :
    {A B : Type 0} (P : B → Type 0) (f : A → B) (xs : List A)
    → All (λ x. P (f x)) xs
    → All P (map f xs)
All-map P f [] h = tt
All-map P f (x ∷ xs) h = (h.0, All-map P f xs h.1)

-- A write that keeps the key keeps the keys.
keys-put_delivery :
    (i : ℕ) (old new : OutboundDelivery) (b : Outbox)
    → get_elem? b.deliveries i ≡ some old
    → new.key ≡ old.key
    → keys (put_delivery i new b) ≡ keys b
unfolding put_delivery
keys-put_delivery i old new b at same =
    map-set (λ (d : OutboundDelivery). d.key) b.deliveries i old new at same

keys_begin :
    (id : String) (at : Option ℕ) (clock : ℕ) (b : Outbox)
    → keys (begin_outbound_delivery id at clock b).1 ≡ keys b
unfolding begin_outbound_delivery
keys_begin id at clock b =
    elim (Option-cases (find_index (λ (d : OutboundDelivery). d.id == id) b.deliveries)) [
      | inl out ↦ rw (out, begin_outbound_delivery) refl
      | inr ((i, d), f) ↦
          rw (f, begin_outbound_delivery)
            (elim (Bool-cases (is_queued d.status)) [
              | inl queued ↦
                  rw queued (keys-put_delivery i d _ b (find_index-some _ b.deliveries i f).0 refl)
              | inr other ↦ rw other refl
            ])
    ]

keys_complete :
    (id : String) (at : Option ℕ) (clock : ℕ) (b : Outbox)
    → keys (complete_outbound_delivery id at clock b).1 ≡ keys b
unfolding complete_outbound_delivery
keys_complete id at clock b =
    elim (Option-cases (find_index (λ (d : OutboundDelivery). d.id == id) b.deliveries)) [
      | inl out ↦ rw (out, complete_outbound_delivery) refl
      | inr ((i, d), f) ↦
          rw (f, complete_outbound_delivery)
            (keys-put_delivery i d _ b (find_index-some _ b.deliveries i f).0 refl)
    ]

key-revive :
    (s : OutboundDeliveryStatus) (now : ℕ) (d : OutboundDelivery) → (revive s now d).key ≡ d.key
key-revive OutboundDeliveryStatus.queued now d = refl
key-revive OutboundDeliveryStatus.delivering now d = refl
key-revive OutboundDeliveryStatus.delivered now d = refl
key-revive OutboundDeliveryStatus.failed now d = refl

module _ (o : OutboxOptions) where
  unfoldable pub perform_outbox : OutboxCommand → ℕ → Outbox → Outbox
  perform_outbox (enqueue input) clock b = (enqueue_outbound_delivery o input clock b).1
  perform_outbox (begin id at) clock b = (begin_outbound_delivery id at clock b).1
  perform_outbox (complete id at) clock b = (complete_outbound_delivery id at clock b).1
  perform_outbox (fail input) clock b = (fail_outbound_delivery o input clock b).1

  unfoldable pub run_outbox : List (OutboxCommand × ℕ) → Outbox → Outbox
  run_outbox [] b = b
  run_outbox ((c, clock) ∷ calls) b = run_outbox calls (perform_outbox c clock b)

  keys_fail :
      (input : FailInput) (clock : ℕ) (b : Outbox)
      → keys (fail_outbound_delivery o input clock b).1 ≡ keys b
  unfolding fail_outbound_delivery failed_delivery
  keys_fail input clock b =
      elim (Option-cases (find_index (λ (d : OutboundDelivery). d.id == input.id) b.deliveries)) [
        | inl out ↦ rw (out, fail_outbound_delivery) refl
        | inr ((i, d), f) ↦
            rw (f, fail_outbound_delivery)
              (keys-put_delivery i d _ b (find_index-some _ b.deliveries i f).0 refl)
      ]

  enqueue-Distinct :
      (input : EnqueueInput) (clock : ℕ) (b : Outbox)
      → Distinct (keys b)
      → Distinct (keys (enqueue_outbound_delivery o input clock b).1)
  unfolding enqueue_outbound_delivery new_delivery updated_delivery
  enqueue-Distinct input clock b h =
      elim (Option-cases (find_index (λ (d : OutboundDelivery). d.key == input.key) b.deliveries)) [
        | inl out ↦
            rw (out, enqueue_outbound_delivery)
              (
                All-map (λ k. k ≢ input.key) (λ (d : OutboundDelivery). d.key) b.deliveries
                    (All-imp _ b.deliveries (λ d misses e. ground (arith, eq_iff d.key input.key))
                      (find_index-none _ b.deliveries out)),
                h,
              )
        | inr ((i, d), f) ↦
            rw (f, enqueue_outbound_delivery)
              (subst Distinct
                (sym (
                  keys-put_delivery i d _ b (find_index-some _ b.deliveries i f).0
                    (key-revive d.status (or_else input.now clock) _)))
                h)
      ]

  pub perform-Distinct :
      (c : OutboxCommand) (clock : ℕ) (b : Outbox)
      → Distinct (keys b)
      → Distinct (keys (perform_outbox c clock b))
  unfolding perform_outbox
  perform-Distinct (enqueue input) clock b h = enqueue-Distinct input clock b h
  perform-Distinct (begin id at) clock b h = rw (keys_begin id at clock b) h
  perform-Distinct (complete id at) clock b h = rw (keys_complete id at clock b) h
  perform-Distinct (fail input) clock b h = rw (keys_fail input clock b) h
