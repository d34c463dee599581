-- ===== src/Core/Outbox/Tests.antt =====
-- Deliveries of the outbox at concrete inputs: packages/core/src/store.ts.
use Prim.Native.Char.{Char, char}
use bek.Core.Policy.{utf16_length}
use bek.Common.{
  All, String, zero, suc, ltb, ◌≡◌, refl, false, none, some, List, [], ◌∷◌, concat, decimal, ℕ,
  find_index, find_from, ◌==◌, keep, set, sort_with, insert_with,
}
use bek.Common.Json.{Fields}
use bek.Core.Outbox.{
  OutboundDelivery, OutboundDeliveryKind, OutboundDeliveryStatus, OutboundProvider, EnqueueInput,
  FailInput, Outbox, OutboxOptions, delivery_not_queued, returned, threw, begin_outbound_delivery,
  fail_outbound_delivery, InstantTexts, list_due_outbound_deliveries, is_due,
}
use bek.Core.Outbox.Lifecycle.{IsFailed, begin_outbound_delivery-once, fail_outbound_delivery_lem}
use bek.Core.Outbox.Keys.{OutboxCommand, keys, Distinct, run_outbox}
use bek.Core.Outbox.Stands.{Stands, IsStored}
use bek.Core.Outbox.Calls.{run_outbox-Distinct}

abbrev options : OutboxOptions
options = record {
  create_id = λ prefix n. concat (prefix ∷ "_" ∷ decimal n ∷ []);
  redactor = record { redact_secrets = λ s. s; is_sensitive_field_name = λ _. false };
}

abbrev outcome : OutboundDelivery
outcome = record {
  id = "outbound_1";
  org_id = "org_1";
  provider = OutboundProvider.slack;
  kind = OutboundDeliveryKind.slack_run_outcome;
  key = "run_1:outcome";
  status = OutboundDeliveryStatus.queued;
  target = Fields.end;
  payload = Fields.end;
  attempts = 1;
  max_attempts = 5;
  run_id = some "run_1";
  approval_id = none;
  last_error = none;
  next_attempt_at = some 40;
  delivered_at = none;
  created_at = 10;
  updated_at = 30;
}

abbrev outbox : Outbox
outbox = record { org_id = "org_1"; deliveries = outcome ∷ []; next_id = 2 }

abbrev sending : OutboundDelivery
sending = record outcome {
  status = OutboundDeliveryStatus.delivering;
  attempts = 2;
  updated_at = 50;
  next_attempt_at = none;
}

outcome_begins : (begin_outbound_delivery "outbound_1" none 50 outbox).0 ≡ returned sending
unfolding begin_outbound_delivery find_index find_from
outcome_begins = refl

begin_outbound_delivery-once_example :
    begin_outbound_delivery "outbound_1" none 51
      (begin_outbound_delivery "outbound_1" none 50 outbox).1
    ≡ (threw delivery_not_queued, (begin_outbound_delivery "outbound_1" none 50 outbox).1)
begin_outbound_delivery-once_example =
    begin_outbound_delivery-once "outbound_1" none none 50 51 outbox sending outcome_begins

abbrev failure : FailInput
failure = record {
  id = "outbound_1";
  error = "rate_limited";
  retryable = none;
  retry_delay_ms = none;
  now = none;
}

fail_outbound_delivery_lem_example :
    (before after : OutboundDelivery) × (i : ℕ) × (find_index
        (λ (x : OutboundDelivery). x.id == "outbound_1")
        outbox.deliveries
      ≡ some (i, before))
    × ((fail_outbound_delivery options failure 60
          (begin_outbound_delivery "outbound_1" none 50 outbox).1).0
        ≡ returned after)
    × ((fail_outbound_delivery options failure 60
          (begin_outbound_delivery "outbound_1" none 50 outbox).1).1.deliveries
        ≡ set outbox.deliveries i after)
    × IsFailed before failure 60 after
fail_outbound_delivery_lem_example =
    fail_outbound_delivery_lem options failure none 50 60 outbox sending outcome_begins refl

abbrev again : EnqueueInput
again = record {
  key = "run_1:outcome";
  kind = OutboundDeliveryKind.slack_run_outcome;
  target = Fields.end;
  payload = Fields.end;
  run_id = none;
  approval_id = none;
  max_attempts = none;
  now = none;
}

abbrev calls : List (OutboxCommand × ℕ)
calls =
    (OutboxCommand.begin "outbound_1" none, 50)
    ∷ (OutboxCommand.enqueue again, 55)
    ∷ (OutboxCommand.fail failure, 60)
    ∷ (OutboxCommand.enqueue (record again { key = "run_2:outcome" }), 70)
    ∷ []

run_outbox-Distinct_example :
    Distinct (keys (run_outbox options calls outbox))
    × All (λ d. Stands d (run_outbox options calls outbox)) outbox.deliveries
    × All (IsStored (run_outbox options calls outbox)) calls
run_outbox-Distinct_example = run_outbox-Distinct options calls outbox (tt, tt)

-- An instant as a text of that length.
abbrev stroke : Char
stroke = char 124 tt

abbrev strokes : ℕ → String
strokes zero = ""
strokes (suc n) = String.◌∷◌ stroke (strokes n)

abbrev texts : InstantTexts
texts = record {
  instant_text = strokes;
  locale_before = λ a b. ltb (utf16_length a) (utf16_length b);
}

outcome_listed : list_due_outbound_deliveries texts none none 45 outbox ≡ outcome ∷ []
unfolding list_due_outbound_deliveries keep is_due sort_with insert_with
outcome_listed = refl
