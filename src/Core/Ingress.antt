-- ===== src/Core/Ingress.antt =====
-- The deliveries that have come in, by which repeated ones are recognised: the ingress deliveries
-- of packages/core/src/store.ts, with their types of packages/core/src/types.ts. An operation
-- takes the reading of the clock.
pub mod Lookups
mod Tests
use bek.Common.{
  ℕ, suc, String, Bool, not, Option, none, some, List, ◌∷◌, set, length, eqb, or_else, find,
  find_index, keep, ◌==◌,
}
use bek.Common.Json.{Fields}
use bek.Core.Security.{Redactor, redact_fields}

pub data IngressDeliveryKind : Type 0 where
  slack_event slack_command slack_interaction slack_oauth github_webhook api_run :
      IngressDeliveryKind

pub data IngressProvider : Type 0 where
  slack github api : IngressProvider

pub data IngressStatus : Type 0 where
  processed ignored : IngressStatus

pub record IngressDelivery : Type 0 where
  pub id : String
  pub org_id : String
  pub provider : IngressProvider
  pub kind : IngressDeliveryKind
  pub key : String
  pub status : IngressStatus
  pub run_id : Option String
  pub approval_id : Option String
  pub response : Option Fields
  pub created_at : ℕ
  pub updated_at : ℕ

pub record RecordInput : Type 0 where
  pub key : String
  pub provider : Option IngressProvider
  pub kind : IngressDeliveryKind
  pub status : IngressStatus
  pub run_id : Option String
  pub approval_id : Option String
  pub response : Option Fields
  pub now : Option ℕ

-- The ingress deliveries of a snapshot, its organisation, and the count of identifiers made.
pub record Inbox : Type 0 where
  pub org_id : String
  pub deliveries : List IngressDelivery
  pub next_id : ℕ

pub record InboxOptions : Type 0 where
  pub create_id : String → ℕ → String
  pub redactor : Redactor

abbrev pub has_key : String → IngressDelivery → Bool
has_key key d = d.key == key

unfoldable pub find_ingress_delivery : String → Inbox → Option IngressDelivery
find_ingress_delivery key b = find (has_key key) b.deliveries

-- A given value, or what was there.
abbrev pub assign {ℓ} : {A : Type ℓ} → Option A → Option A → Option A
assign none old = old
assign (some new) old = some new

-- Whether a delivery was removed, and the inbox.
unfoldable pub remove_ingress_delivery : String → Inbox → Bool × Inbox
remove_ingress_delivery key b =
    let left = keep (λ (d : IngressDelivery). not (d.key == key)) b.deliveries in
    (not (eqb (length left) (length b.deliveries)), record b { deliveries = left })

module _ (o : InboxOptions) where
  abbrev pub redacted_response : Option Fields → Option Fields
  redacted_response none = none
  redacted_response (some r) = some (redact_fields o.redactor r)

  -- `recordIngressDelivery` on a key that is known.
  unfoldable pub updated_ingress : RecordInput → ℕ → IngressDelivery → IngressDelivery
  updated_ingress input now d = record d {
    status = input.status;
    updated_at = now;
    run_id = assign input.run_id d.run_id;
    approval_id = assign input.approval_id d.approval_id;
    response = assign (redacted_response input.response) d.response;
  }

  unfoldable pub new_ingress : RecordInput → ℕ → Inbox → IngressDelivery
  new_ingress input now b = record {
    id = o.create_id "delivery" b.next_id;
    org_id = b.org_id;
    provider = or_else input.provider IngressProvider.slack;
    kind = input.kind;
    key = input.key;
    status = input.status;
    run_id = input.run_id;
    approval_id = input.approval_id;
    response = redacted_response input.response;
    created_at = now;
    updated_at = now;
  }

  unfoldable pub record_ingress_delivery : RecordInput → ℕ → Inbox → IngressDelivery × Inbox
  unfolding updated_ingress new_ingress
  record_ingress_delivery input clock b =
      let now = or_else input.now clock in
      let fresh = new_ingress input now b in
      elim (find_index (has_key input.key) b.deliveries) [
        | some (i, d) ↦
            let d' = updated_ingress input now d in
            (d', record b { deliveries = set b.deliveries i d' })
        | none ↦ (fresh, record b { deliveries = fresh ∷ b.deliveries; next_id = suc b.next_id })
      ]
