-- ===== src/Core/Ingress/Tests.antt =====
-- Deliveries that come in at concrete inputs: packages/core/src/store.ts.
use bek.Common.{
  String, ◌≡◌, ◌≢◌, refl, false, none, some, [], ◌∷◌, concat, decimal, if◌then◌else◌, ◌==◌,
  find_index, find_from,
}
use bek.Core.Ingress.{
  IngressDeliveryKind, IngressProvider, IngressStatus, IngressDelivery, RecordInput, Inbox,
  InboxOptions, find_ingress_delivery, remove_ingress_delivery, record_ingress_delivery,
}
use bek.Core.Ingress.Lookups.{find-record_ingress_delivery, find-remove_ingress_delivery}

abbrev options : InboxOptions
options = record {
  create_id = λ prefix n. concat (prefix ∷ "_" ∷ decimal n ∷ []);
  redactor = record { redact_secrets = λ s. s; is_sensitive_field_name = λ _. false };
}

abbrev seen : IngressDelivery
seen = record {
  id = "delivery_1";
  org_id = "org_1";
  provider = IngressProvider.slack;
  kind = IngressDeliveryKind.slack_event;
  key = "Ev1";
  status = IngressStatus.ignored;
  run_id = none;
  approval_id = none;
  response = none;
  created_at = 10;
  updated_at = 10;
}

abbrev inbox : Inbox
inbox = record { org_id = "org_1"; deliveries = seen ∷ []; next_id = 2 }

abbrev processed : RecordInput
processed = record {
  key = "Ev1";
  provider = none;
  kind = IngressDeliveryKind.slack_event;
  status = IngressStatus.processed;
  run_id = some "run_1";
  approval_id = none;
  response = none;
  now = none;
}

find-record_ingress_delivery_example :
    ((record_ingress_delivery options processed 20 inbox).0.status ≡ IngressStatus.processed)
    × (find_ingress_delivery "Ev1" (record_ingress_delivery options processed 20 inbox).1 ≡ (
        if processed.key == "Ev1"
        then some (record_ingress_delivery options processed 20 inbox).0
        else find_ingress_delivery "Ev1" inbox))
find-record_ingress_delivery_example = find-record_ingress_delivery options processed 20 inbox "Ev1"

-- The delivery that is there is updated, and no second one is made.
seen_updated :
    (record_ingress_delivery options processed 20 inbox).1.deliveries
    ≡ (record seen { status = IngressStatus.processed; run_id = some "run_1"; updated_at = 20 })
      ∷ []
unfolding record_ingress_delivery find_index find_from
seen_updated = refl

find-remove_ingress_delivery_example :
    (find_ingress_delivery "Ev1" (remove_ingress_delivery "Ev1" inbox).1 ≡ none)
    × (◌≢◌ {A = String} "Ev1" "Ev2"
        → find_ingress_delivery "Ev2" (remove_ingress_delivery "Ev1" inbox).1
          ≡ find_ingress_delivery "Ev2" inbox)
find-remove_ingress_delivery_example = find-remove_ingress_delivery "Ev1" "Ev2" inbox
