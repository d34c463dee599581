-- ===== src/Core/Outbox.antt =====
-- The outbox of deliveries to Slack: the outbound deliveries of packages/core/src/store.ts, with
-- their types of packages/core/src/types.ts. An operation takes the reading of the clock, and
-- returns its outcome with the new outbox.
pub mod Lifecycle
pub mod Keys
pub mod Stands
pub mod Calls
pub mod Due
mod Tests
use Prim.Native.Char.{code}
use bek.Common.{
  ℕ, suc, ◌+◌, ◌-◌, max, min, String, Bool, true, false, not, ◌&&◌, Option, none, some, List, [],
  ◌∷◌, set, map, take, leb, ltb, or_else, find_index, keep, sort_with, if◌then◌else◌, ◌==◌,
}
use bek.Common.Json.{Json, Fields}
use bek.Core.Security.{Redactor, redact_fields}

pub data OutboundDeliveryKind : Type 0 where
  slack_run_outcome slack_approval_decision : OutboundDeliveryKind

pub data OutboundDeliveryStatus : Type 0 where
  queued delivering delivered failed : OutboundDeliveryStatus

pub data OutboundProvider : Type 0 where
  slack : OutboundProvider

pub record OutboundDelivery : Type 0 where
  pub id : String
  pub org_id : String
  pub provider : OutboundProvider
  pub kind : OutboundDeliveryKind
  pub key : String
  pub status : OutboundDeliveryStatus
  pub target : Fields
  pub payload : Fields
  pub attempts : ℕ
  pub max_attempts : ℕ
  pub run_id : Option String
  pub approval_id : Option String
  pub last_error : Option String
  pub next_attempt_at : Option ℕ
  pub delivered_at : Option ℕ
  pub created_at : ℕ
  pub updated_at : ℕ

pub record EnqueueInput : Type 0 where
  pub key : String
  pub kind : OutboundDeliveryKind
  pub target : Fields
  pub payload : Fields
  pub run_id : Option String
  pub approval_id : Option String
  pub max_attempts : Option ℕ
  pub now : Option ℕ

pub record FailInput : Type 0 where
  pub id : String
  pub error : String
  pub retryable : Option Bool
  pub retry_delay_ms : Option ℕ
  pub now : Option ℕ

-- The deliveries of a snapshot, its organisation, and the count of identifiers made.
pub record Outbox : Type 0 where
  pub org_id : String
  pub deliveries : List OutboundDelivery
  pub next_id : ℕ

pub record OutboxOptions : Type 0 where
  pub create_id : String → ℕ → String
  pub redactor : Redactor

pub data OutboxError : Type 0 where
  delivery_not_found delivery_not_queued : OutboxError

pub data Delivery : Type 0 where
  returned : OutboundDelivery → Delivery
  threw : OutboxError → Delivery

-- `Math.max(1, Math.min(20, …))`, and 5 where no number is given.
unfoldable pub normalize_outbound_max_attempts : Option ℕ → ℕ
normalize_outbound_max_attempts none = 5
normalize_outbound_max_attempts (some n) = max 1 (min 20 n)

abbrev pub is_queued : OutboundDeliveryStatus → Bool
is_queued OutboundDeliveryStatus.queued = true
is_queued _ = false

-- `slice(0, n)`, in units of UTF-16; a character that the cut goes through is left out.
abbrev pub first_units : ℕ → String → String
first_units n String.[] = ""
first_units n (String.◌∷◌ c s) =
    let width = if ltb (code c) 65536 then 1 else 2 in
    let rest = first_units (n - width) s in if leb width n then String.◌∷◌ c rest else ""

-- A given value, or what was there.
abbrev pub assign {ℓ} : {A : Type ℓ} → Option A → Option A → Option A
assign none old = old
assign (some new) old = some new

abbrev pub revive : OutboundDeliveryStatus → ℕ → OutboundDelivery → OutboundDelivery
revive OutboundDeliveryStatus.failed now d = record d {
  status = OutboundDeliveryStatus.queued;
  next_attempt_at = some now;
  last_error = none;
}
revive _ now d = d

unfoldable pub put_delivery : ℕ → OutboundDelivery → Outbox → Outbox
put_delivery i d b = record b { deliveries = set b.deliveries i d }

-- When a queued delivery is due.
abbrev pub due_at : OutboundDelivery → ℕ
due_at d = or_else d.next_attempt_at d.created_at

unfoldable pub is_due : ℕ → OutboundDelivery → Bool
is_due now d = is_queued d.status && leb (due_at d) now

-- What the platform does with the texts of instants: the text that stands for an instant, and
-- whether `localeCompare` is negative on two texts.
pub record InstantTexts : Type 0 where
  pub instant_text : ℕ → String
  pub locale_before : String → String → Bool

-- The comparator of `listDueOutboundDeliveries`: by the texts of the instants.
abbrev pub waits_longer : InstantTexts → OutboundDelivery → OutboundDelivery → Bool
waits_longer p d e = p.locale_before (p.instant_text (due_at d)) (p.instant_text (due_at e))

-- Every delivery is Slack's, so that a given provider excludes none.
unfoldable pub list_due_outbound_deliveries :
    InstantTexts → Option ℕ → Option ℕ → ℕ → Outbox → List OutboundDelivery
unfolding is_due
list_due_outbound_deliveries p at limit clock b =
    take (max 1 (or_else limit 25))
      (sort_with (waits_longer p) (keep (is_due (or_else at clock)) b.deliveries))

unfoldable pub begin_outbound_delivery : String → Option ℕ → ℕ → Outbox → Delivery × Outbox
unfolding put_delivery
begin_outbound_delivery id at clock b =
    elim (find_index (λ (d : OutboundDelivery). d.id == id) b.deliveries) [
      | none ↦ (threw delivery_not_found, b)
      | some (i, d) ↦
          let d' : OutboundDelivery = record d {
            status = OutboundDeliveryStatus.delivering;
            attempts = d.attempts + 1;
            updated_at = or_else at clock;
            next_attempt_at = none;
          } in
          if not (is_queued d.status)
          then (threw delivery_not_queued, b)
          else (returned d', put_delivery i d' b)
    ]

unfoldable pub complete_outbound_delivery : String → Option ℕ → ℕ → Outbox → Delivery × Outbox
unfolding put_delivery
complete_outbound_delivery id at clock b =
    elim (find_index (λ (d : OutboundDelivery). d.id == id) b.deliveries) [
      | none ↦ (threw delivery_not_found, b)
      | some (i, d) ↦
          let now = or_else at clock in
          let d' : OutboundDelivery = record d {
            status = OutboundDeliveryStatus.delivered;
            last_error = none;
            next_attempt_at = none;
            delivered_at = some now;
            updated_at = now;
          } in
          (returned d', put_delivery i d' b)
    ]

module _ (o : OutboxOptions) where
  -- `failOutboundDelivery` on the delivery that is found. A negative delay is no delay.
  unfoldable pub failed_delivery : FailInput → ℕ → OutboundDelivery → OutboundDelivery
  failed_delivery input now d =
      let retryable = or_else input.retryable true && ltb d.attempts d.max_attempts in
      record d {
        status = if retryable then OutboundDeliveryStatus.queued else OutboundDeliveryStatus.failed;
        last_error = some (first_units 500 (o.redactor.redact_secrets input.error));
        next_attempt_at =
            if retryable then some (now + or_else input.retry_delay_ms 1000) else none;
        updated_at = now;
      }

  unfoldable pub fail_outbound_delivery : FailInput → ℕ → Outbox → Delivery × Outbox
  unfolding put_delivery failed_delivery
  fail_outbound_delivery input clock b =
      elim (find_index (λ (d : OutboundDelivery). d.id == input.id) b.deliveries) [
        | none ↦ (threw delivery_not_found, b)
        | some (i, d) ↦
            let d' = failed_delivery input (or_else input.now clock) d in
            (returned d', put_delivery i d' b)
      ]

  -- `enqueueOutboundDelivery` on a key that is known.
  unfoldable pub updated_delivery : EnqueueInput → ℕ → OutboundDelivery → OutboundDelivery
  unfolding normalize_outbound_max_attempts
  updated_delivery input now d =
      let d1 : OutboundDelivery = record d {
        kind = input.kind;
        target = redact_fields o.redactor input.target;
        payload = redact_fields o.redactor input.payload;
        max_attempts = normalize_outbound_max_attempts input.max_attempts;
        updated_at = now;
      } in
      let d2 = revive d1.status now d1 in
      record d2 {
        run_id = assign input.run_id d2.run_id;
        approval_id = assign input.approval_id d2.approval_id;
      }

  unfoldable pub new_delivery : EnqueueInput → ℕ → Outbox → OutboundDelivery
  unfolding normalize_outbound_max_attempts
  new_delivery input now b = record {
    id = o.create_id "outbound" b.next_id;
    org_id = b.org_id;
    provider = OutboundProvider.slack;
    kind = input.kind;
    key = input.key;
    status = OutboundDeliveryStatus.queued;
    target = redact_fields o.redactor input.target;
    payload = redact_fields o.redactor input.payload;
    attempts = 0;
    max_attempts = normalize_outbound_max_attempts input.max_attempts;
    run_id = input.run_id;
    approval_id = input.approval_id;
    last_error = none;
    next_attempt_at = some now;
    delivered_at = none;
    created_at = now;
    updated_at = now;
  }

  unfoldable pub enqueue_outbound_delivery : EnqueueInput → ℕ → Outbox → OutboundDelivery × Outbox
  unfolding put_delivery updated_delivery new_delivery
  enqueue_outbound_delivery input clock b =
      let now = or_else input.now clock in
      let fresh = new_delivery input now b in
      elim (find_index (λ (d : OutboundDelivery). d.key == input.key) b.deliveries) [
        | some (i, d) ↦ let d' = updated_delivery input now d in (d', put_delivery i d' b)
        | none ↦ (fresh, record b { deliveries = fresh ∷ b.deliveries; next_id = suc b.next_id })
      ]
