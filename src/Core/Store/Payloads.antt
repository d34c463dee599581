-- ===== src/Core/Store/Payloads.antt =====
-- The runs, the requests for approval and the hashes of their payloads: packages/core/src/runs.ts.
pub mod Canonical
mod Tests
use bek.Common.{
  ℕ, ◌+◌, ◌*◌, ◌/◌, min, max, String, Bool, true, false, Option, none, some, List, [], ◌∷◌, map,
  concat, sort_with,
}
use bek.Common.Json.{Json, Items, Fields}
use bek.Core.Security.{redact_unknown}
use bek.Core.Policy.{utf16_length}
use bek.Core.Store.Approvals.{StoreOptions}
use bek.Worker.Types.{RiskLevel, ApprovalStatus, ApprovalRequest}

-- What the platform computes: SHA-256 in hexadecimal, the texts of JSON values that are no array
-- and no object, and the order of `localeCompare`.
pub record PayloadPlatform : Type 0 where
  pub sha256_hex : String → String
  pub text_of_string : String → String
  pub text_of_number : ℕ → String
  pub locale_before : String → String → Bool

-- `join(",")`
unfoldable pub join_commas : List String → String
join_commas [] = ""
join_commas (x ∷ []) = x
join_commas (x ∷ y ∷ ys) = concat (x ∷ "," ∷ join_commas (y ∷ ys) ∷ [])

module _ (p : PayloadPlatform) where
  -- The entries of an object in the order of their keys.
  abbrev pub sorted_entries : List (String × String) → List String
  sorted_entries entries =
      map (λ (entry : String × String). concat (p.text_of_string entry.0 ∷ ":" ∷ entry.1 ∷ []))
        (sort_with (λ (a b : String × String). p.locale_before a.0 b.0) entries)

  unfoldable mutual
    unfolding join_commas

    pub canonical_stringify : Json → String
    canonical_stringify Json.null = "null"
    canonical_stringify (Json.bool true) = "true"
    canonical_stringify (Json.bool false) = "false"
    canonical_stringify (Json.num n) = p.text_of_number n
    canonical_stringify (Json.str s) = p.text_of_string s
    canonical_stringify (Json.arr items) =
        concat ("[" ∷ join_commas (canonical_items items) ∷ "]" ∷ [])
    canonical_stringify (Json.obj fields) =
        concat ("{" ∷ join_commas (sorted_entries (canonical_fields fields)) ∷ "}" ∷ [])

    pub canonical_items : Items → List String
    canonical_items Items.nil = []
    canonical_items (Items.cons item items) = canonical_stringify item ∷ canonical_items items

    pub canonical_fields : Fields → List (String × String)
    canonical_fields Fields.end = []
    canonical_fields (Fields.field key entry fields) =
        (key, canonical_stringify entry) ∷ canonical_fields fields

  unfoldable pub hash_payload : Json → String
  hash_payload payload = p.sha256_hex (canonical_stringify payload)

-- The fields of an object.
abbrev pub object_fields : Json → Option Fields
object_fields (Json.obj fields) = some fields
object_fields _ = none

module _ (o : StoreOptions) where
  unfoldable pub approval_payload_metadata : Json → Option Fields
  approval_payload_metadata payload = object_fields (redact_unknown o.redactor payload)

  -- `createApprovalRequest` with the expiry that is the default, half an hour later.
  unfoldable pub create_approval_request :
      PayloadPlatform
      → String
      → String
      → String
      → String
      → Json
      → RiskLevel
      → ℕ
      → ℕ
      → ApprovalRequest
  create_approval_request p org_id run_id requested_by action payload risk now next_id = record {
    id = o.create_id "approval" next_id;
    org_id = org_id;
    run_id = run_id;
    action = action;
    risk = risk;
    status = ApprovalStatus.pending;
    payload_hash = hash_payload p payload;
    payload_metadata = approval_payload_metadata payload;
    requested_by_principal_id = requested_by;
    decided_by_principal_id = none;
    created_at = now;
    expires_at = now + 30 * 60 * 1000;
    decided_at = none;
  }

-- A quarter of the units of the prompt, in thousands, is at least one cent and at most the budget.
unfoldable pub estimate_prompt_cost_cents : String → ℕ → ℕ
estimate_prompt_cost_cents prompt per_run_budget_cents =
    let rough_tokens = (utf16_length prompt + 3) / 4 in
    min (max 1 ((rough_tokens + 999) / 1000)) per_run_budget_cents
