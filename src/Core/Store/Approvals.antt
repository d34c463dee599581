-- ===== src/Core/Store/Approvals.antt =====
-- The decision of an approval: `decideApproval` of packages/core/src/store.ts, with
-- `createRunEvent` of packages/core/src/runs.ts. An operation takes the readings of the clock, and
-- returns its outcome with the new store.
use bek.Common.{
  ℕ, suc, max, String, Bool, true, false, not, ◌&&◌, Option, none, some, List, [], ◌∷◌, set, leb,
  or_else, find_index, if◌then◌else◌, ◌==◌, concat,
}
use bek.Common.Json.{Json, Fields}
use bek.Core.Security.{Redactor, redact_fields}
use bek.Core.Store.Types.{PrincipalKind, Principal, RunStatus, Run, RunEventType, RunEvent, Store}
use bek.Worker.Types.{ApprovalStatus, ApprovalRequest, RiskLevel}

pub data RunAdvanceMode : Type 0 where
  inline_stub worker : RunAdvanceMode

pub record ApprovalDecisionInput : Type 0 where
  pub principal_id : String
  pub payload_hash : String
  pub now : Option ℕ
  pub advance_mode : Option RunAdvanceMode

pub data ApprovalDecision : Type 0 where
  approved denied : ApprovalDecision

pub data ApprovalError : Type 0 where
  approval_not_found no_longer_pending hash_mismatch approval_expired actor_not_found
        actor_not_human self_approval :
      ApprovalError

pub data Decided : Type 0 where
  returned : ApprovalRequest → Decided
  threw : ApprovalError → Decided

abbrev pub decision_status : ApprovalDecision → ApprovalStatus
decision_status ApprovalDecision.approved = ApprovalStatus.approved
decision_status ApprovalDecision.denied = ApprovalStatus.denied

abbrev pub decision_name : ApprovalDecision → String
decision_name ApprovalDecision.approved = "approved"
decision_name ApprovalDecision.denied = "denied"

abbrev pub is_pending : ApprovalStatus → Bool
is_pending ApprovalStatus.pending = true
is_pending _ = false

abbrev pub is_human : PrincipalKind → Bool
is_human PrincipalKind.human = true
is_human _ = false

-- The risks that a requester may not approve.
abbrev pub is_guarded : RiskLevel → Bool
is_guarded RiskLevel.write_external = true
is_guarded RiskLevel.privileged = true
is_guarded _ = false

-- What the options of the store and the platform give: identifiers and the redaction of secrets.
pub record StoreOptions : Type 0 where
  pub create_id : String → ℕ → String
  pub redactor : Redactor

unfoldable pub put_approval : ℕ → ApprovalRequest → Store → Store
put_approval i approval s = record s { approvals = set s.approvals i approval }

abbrev pub advance_run : ApprovalDecision → Option RunAdvanceMode → ℕ → Run → Run
advance_run ApprovalDecision.approved (some RunAdvanceMode.worker) now run = record run {
  status = RunStatus.queued;
  updated_at = now;
}
advance_run ApprovalDecision.approved _ now run = record run {
  status = RunStatus.completed;
  actual_cost_cents = max 1 run.estimated_cost_cents;
  updated_at = now;
}
advance_run ApprovalDecision.denied _ now run = record run {
  status = RunStatus.cancelled;
  actual_cost_cents = 0;
  updated_at = now;
}

unfoldable pub advance_run_of :
    String → ApprovalDecision → Option RunAdvanceMode → ℕ → List Run → List Run
advance_run_of run_id decision mode now runs =
    elim (find_index (λ (run : Run). run.id == run_id) runs) [
      | none ↦ runs
      | some (j, run) ↦ set runs j (advance_run decision mode now run)
    ]

abbrev pub is_actor : String → String → Principal → Bool
is_actor principal_id org_id p = p.id == principal_id && p.org_id == org_id

module _ (o : StoreOptions) where
  unfoldable pub create_run_event :
      String → String → RunEventType → String → Option Fields → ℕ → ℕ → RunEvent
  create_run_event org_id run_id type message data_fields now next_id = record {
    id = o.create_id "event" next_id;
    run_id = run_id;
    org_id = org_id;
    type = type;
    message = o.redactor.redact_secrets message;
    data_fields = elim data_fields [ none ↦ none | some d ↦ some (redact_fields o.redactor d) ];
    created_at = now;
  }

  -- `decideApproval` once every check is passed; `later` is the clock when the event is made.
  unfoldable pub write_decision :
      ℕ
      → ApprovalRequest
      → ApprovalDecision
      → String
      → Option RunAdvanceMode
      → ℕ
      → ℕ
      → Store
      → Decided × Store
  write_decision i approval decision actor_id mode now later s =
      let approval' : ApprovalRequest = record approval {
        status = decision_status decision;
        decided_by_principal_id = some actor_id;
        decided_at = some now;
      } in
      let s1 = put_approval i approval' s in
      let runs = advance_run_of approval.run_id decision mode now s1.runs in
      let detail =
        Fields.field "approvalId" (Json.str approval.id)
          (Fields.field "decidedByPrincipalId" (Json.str actor_id) Fields.end) in
      let message = concat ("Approval " ∷ decision_name decision ∷ "." ∷ []) in
      let event =
        create_run_event s1.org_id approval.run_id RunEventType.approval_decided message
          (some detail) later s1.next_id in
      (
        returned approval',
        record s1 { runs = runs; events = event ∷ s1.events; next_id = suc s1.next_id },
      )

  unfoldable pub decide_by_actor :
      Option (ℕ × Principal)
      → ℕ
      → ApprovalRequest
      → ApprovalDecision
      → Option RunAdvanceMode
      → ℕ
      → ℕ
      → Store
      → Decided × Store
  decide_by_actor none i approval decision mode now later s = (threw actor_not_found, s)
  decide_by_actor (some (_, actor)) i approval decision mode now later s =
      let written = write_decision i approval decision actor.id mode now later s in
      if not (is_human actor.kind)
      then (threw actor_not_human, s)
      else if actor.id == approval.requested_by_principal_id && is_guarded approval.risk
      then (threw self_approval, s)
      else written

  unfoldable pub decide_found :
      ℕ
      → ApprovalRequest
      → ApprovalDecision
      → ApprovalDecisionInput
      → ℕ
      → ℕ
      → Store
      → Decided × Store
  decide_found i approval decision input now later s =
      let actor = find_index (is_actor input.principal_id approval.org_id) s.principals in
      let by_actor = decide_by_actor actor i approval decision input.advance_mode now later s in
      let lapsed : ApprovalRequest = record approval {
        status = ApprovalStatus.expired;
        decided_at = some now;
      } in
      if not (is_pending approval.status)
      then (threw no_longer_pending, s)
      else if not (approval.payload_hash == input.payload_hash)
      then (threw hash_mismatch, s)
      else if leb approval.expires_at now
      then (threw approval_expired, put_approval i lapsed s)
      else by_actor

  unfoldable pub decide_approval :
      String → ApprovalDecision → ApprovalDecisionInput → ℕ → ℕ → Store → Decided × Store
  decide_approval approval_id decision input clock later s =
      elim (find_index (λ (a : ApprovalRequest). a.id == approval_id) s.approvals) [
        | none ↦ (threw approval_not_found, s)
        | some (i, approval) ↦
            decide_found i approval decision input (or_else input.now clock) later s
      ]
