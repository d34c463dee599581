-- ===== src/Core/Outbox/Lifecycle.antt =====
-- The attempts of a delivery: `beginOutboundDelivery` and `failOutboundDelivery` of
-- packages/core/src/store.ts.
use bek.Common.{
  ℕ, ◌+◌, ◌<◌, ◌≤◌, ◌≡◌, ◌≢◌, refl, ap, ◌∙◌, subst, ◌⊎◌, inl, inr, Bool-cases, true, Option,
  Option-cases, none, some, set, set-set, find_index, find_index-some, find_index-set, or_else, ltb,
  ◌==◌, String, arith,
}
use bek.Core.Outbox.{
  OutboundDelivery, OutboundDeliveryStatus, FailInput, Outbox, OutboxOptions, OutboxError,
  delivery_not_queued, returned, threw, is_queued, put_delivery, begin_outbound_delivery,
  failed_delivery, fail_outbound_delivery,
}

-- An attempt has begun.
pub record IsBegun (id : String) (b b' : Outbox) (d : OutboundDelivery) : Type 0 where
  pub at : ℕ
  pub before : OutboundDelivery
  pub found : find_index (λ (x : OutboundDelivery). x.id == id) b.deliveries ≡ some (at, before)
  pub queued : before.status ≡ OutboundDeliveryStatus.queued
  pub status : d.status ≡ OutboundDeliveryStatus.delivering
  pub same_id : d.id ≡ before.id
  pub attempts : d.attempts ≡ before.attempts + 1
  pub max_attempts : d.max_attempts ≡ before.max_attempts
  pub deliveries : b'.deliveries ≡ set b.deliveries at d

returned-eq : {a b : OutboundDelivery} → returned a ≡ returned b → a ≡ b
returned-eq e = cc

threw-not_returned : {e : OutboxError} {a : OutboundDelivery} → threw e ≢ returned a
threw-not_returned e = cc

is_queued-eq : (s : OutboundDeliveryStatus) → is_queued s ≡ true → s ≡ OutboundDeliveryStatus.queued
is_queued-eq s h = ground arith

-- What is written when an attempt begins.
abbrev begun : ℕ → OutboundDelivery → OutboundDelivery
begun now d = record d {
  status = OutboundDeliveryStatus.delivering;
  attempts = d.attempts + 1;
  updated_at = now;
  next_attempt_at = none;
}

begin-IsBegun :
    (id : String) (at : Option ℕ) (clock : ℕ) (b : Outbox) (d : OutboundDelivery)
    → (begin_outbound_delivery id at clock b).0 ≡ returned d
    → IsBegun id b (begin_outbound_delivery id at clock b).1 d
unfolding begin_outbound_delivery put_delivery
begin-IsBegun id at clock b d e =
    elim (Option-cases (find_index (λ (x : OutboundDelivery). x.id == id) b.deliveries)) [
      | inl out ↦ absurd (threw-not_returned (rw (out, begin_outbound_delivery) at e))
      | inr ((i, x), f) ↦ elim (Bool-cases (is_queued x.status)) [
        | inr other ↦ absurd (threw-not_returned (rw (f, begin_outbound_delivery, other) at e))
        | inl queued ↦
            let same = returned-eq (rw (f, begin_outbound_delivery, queued) at e) in
            rw (f, begin_outbound_delivery, queued)
              (subst (λ y. IsBegun id b (put_delivery i (begun (or_else at clock) x) b) y) same
                (record {
                  at = i;
                  before = x;
                  found = f;
                  queued = is_queued-eq x.status queued;
                  status = refl;
                  same_id = refl;
                  attempts = refl;
                  max_attempts = refl;
                  deliveries = refl;
                }))
      ]
    ]

-- A delivery that has begun is the one that its identifier finds.
found_begun :
    (id : String) (b b' : Outbox) (d : OutboundDelivery) (g : IsBegun id b b' d)
    → find_index (λ (x : OutboundDelivery). x.id == id) b'.deliveries ≡ some (g.at, d)
found_begun id b b' d g =
    let passes : (d.id == id) ≡ true =
      rw g.same_id (find_index-some _ b.deliveries g.at g.found).1 in
    rw g.deliveries
      (find_index-set (λ (x : OutboundDelivery). x.id == id) b.deliveries g.at d g.found passes)

begin_delivering :
    (id : String) (at : Option ℕ) (clock : ℕ) (b : Outbox) (d : OutboundDelivery) (i : ℕ)
    → find_index (λ (x : OutboundDelivery). x.id == id) b.deliveries ≡ some (i, d)
    → d.status ≡ OutboundDeliveryStatus.delivering
    → begin_outbound_delivery id at clock b ≡ (threw delivery_not_queued, b)
unfolding begin_outbound_delivery
begin_delivering id at clock b d i f delivering = rw (f, begin_outbound_delivery, delivering) refl

-- An attempt begins once: while a delivery is under way, it cannot be begun again, and trying to
-- changes nothing.
pub begin_outbound_delivery-once :
    (id : String) (at at' : Option ℕ) (clock clock' : ℕ) (b : Outbox) (d : OutboundDelivery)
    → (begin_outbound_delivery id at clock b).0 ≡ returned d
    → begin_outbound_delivery id at' clock' (begin_outbound_delivery id at clock b).1
      ≡ (threw delivery_not_queued, (begin_outbound_delivery id at clock b).1)
begin_outbound_delivery-once id at at' clock clock' b d e =
    let g = begin-IsBegun id at clock b d e in
    begin_delivering id at' clock' _ d g.at (found_begun id b _ d g) g.status

-- What an attempt that fails leaves of the delivery, as it was before the attempt.
pub record IsFailed (before : OutboundDelivery) (input : FailInput) (now : ℕ) (d : OutboundDelivery)
    : Type 0 where
  pub attempts : d.attempts ≡ before.attempts + 1
  pub verdict :
      (before.attempts + 1 < before.max_attempts)
        × (d.status ≡ OutboundDeliveryStatus.queued)
        × (d.next_attempt_at ≡ some (now + or_else input.retry_delay_ms 1000))
      ⊎ (before.max_attempts ≤ before.attempts + 1)
        × (d.status ≡ OutboundDeliveryStatus.failed)
        × (d.next_attempt_at ≡ none)

module _ (o : OutboxOptions) where
  failed_delivery-IsFailed :
      (before : OutboundDelivery) (input : FailInput) (now : ℕ) (d : OutboundDelivery)
      → or_else input.retryable true ≡ true
      → d.attempts ≡ before.attempts + 1
      → d.max_attempts ≡ before.max_attempts
      → IsFailed before input now (failed_delivery o input now d)
  unfolding failed_delivery
  failed_delivery-IsFailed before input now d retryable attempts max_attempts = record {
    attempts = attempts;
    verdict = elim (Bool-cases (ltb d.attempts d.max_attempts)) [
      | inl more ↦ inl (ground (arith, more), rw (retryable, more) refl, rw (retryable, more) refl)
      | inr last ↦ inr (ground (arith, last), rw (retryable, last) refl, rw (retryable, last) refl)
    ];
  }

  -- An attempt that begins and fails, with a retry allowed, counts once. The delivery is queued
  -- again, after the delay, as long as its attempts are fewer than its most, and is failed with
  -- no next attempt otherwise. It is so in the outbox, in its place, and no other delivery is changed.
  pub fail_outbound_delivery_lem :
      (input : FailInput) (at : Option ℕ) (clock clock' : ℕ) (b : Outbox) (d : OutboundDelivery)
      → (begin_outbound_delivery input.id at clock b).0 ≡ returned d
      → or_else input.retryable true ≡ true
      → (before after : OutboundDelivery) × (i : ℕ) × (find_index
            (λ (x : OutboundDelivery). x.id == input.id)
            b.deliveries
          ≡ some (i, before))
        × ((fail_outbound_delivery o input clock' (begin_outbound_delivery input.id at clock b).1).0
            ≡ returned after)
        × ((fail_outbound_delivery o input clock'
              (begin_outbound_delivery input.id at clock b).1).1.deliveries
            ≡ set b.deliveries i after)
        × IsFailed before input (or_else input.now clock') after
  unfolding fail_outbound_delivery put_delivery
  fail_outbound_delivery_lem input at clock clock' b d e retryable =
      let g = begin-IsBegun input.id at clock b d e in
      let now = or_else input.now clock' in
      (
        g.before,
        failed_delivery o input now d,
        g.at,
        g.found,
        rw (found_begun input.id b _ d g, fail_outbound_delivery) refl,
        rw (found_begun input.id b _ d g, fail_outbound_delivery)
            (ap (λ ds. set ds g.at (failed_delivery o input now d)) g.deliveries
              ∙ set-set b.deliveries g.at d (failed_delivery o input now d)),
        failed_delivery-IsFailed g.before input now d retryable g.attempts g.max_attempts,
      )
