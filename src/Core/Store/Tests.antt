-- ===== src/Core/Store/Tests.antt =====
-- Decisions of approvals at concrete inputs: packages/core/src/store.ts.
use bek.Common.{◌≡◌, refl, false, none, some, [], ◌∷◌, concat, decimal, find_index, find_from}
use bek.Worker.Types.{ApprovalStatus, ApprovalRequest, RiskLevel}
use bek.Core.Store.Types.{PrincipalKind, Principal, RunStatus, TriggerKind, Run, Store}
use bek.Core.Store.Approvals.{
  RunAdvanceMode, ApprovalDecision, ApprovalDecisionInput, no_longer_pending, self_approval,
  returned, threw, StoreOptions, write_decision, decide_by_actor, decide_found, decide_approval,
}
use bek.Core.Store.Decisions.{IsDecided, decide_approval-IsDecided}
use bek.Core.Store.Once.{decide_approval-once}

abbrev options : StoreOptions
options = record {
  create_id = λ prefix n. concat (prefix ∷ "_" ∷ decimal n ∷ []);
  redactor = record { redact_secrets = λ s. s; is_sensitive_field_name = λ _. false };
}

abbrev requester : Principal
requester = record {
  id = "principal_1";
  org_id = "org_1";
  kind = PrincipalKind.human;
  display_name = "Ada";
  email = none;
  external_provider = none;
  external_id = none;
  metadata = none;
}

abbrev reviewer : Principal
reviewer = record requester { id = "principal_2"; display_name = "Grace" }

abbrev asked : ApprovalRequest
asked = record {
  id = "approval_1";
  org_id = "org_1";
  run_id = "run_1";
  action = "github.pr";
  risk = RiskLevel.write_external;
  status = ApprovalStatus.pending;
  payload_hash = "sha256:1";
  payload_metadata = none;
  requested_by_principal_id = "principal_1";
  decided_by_principal_id = none;
  created_at = 10;
  expires_at = 100;
  decided_at = none;
}

abbrev run : Run
run = record {
  id = "run_1";
  org_id = "org_1";
  agent_id = "agent_1";
  requester_principal_id = "principal_1";
  place_scope_id = "place_1";
  trigger = TriggerKind.mention;
  prompt = "Open a pull request.";
  capability = none;
  resource = none;
  status = RunStatus.awaiting_approval;
  model_policy_id = "policy_1";
  runtime_profile_id = "profile_1";
  estimated_cost_cents = 4;
  actual_cost_cents = 0;
  created_at = 10;
  updated_at = 10;
}

abbrev store : Store
store = record {
  org_id = "org_1";
  principals = requester ∷ reviewer ∷ [];
  runs = run ∷ [];
  events = [];
  approvals = asked ∷ [];
  next_id = 1;
}

abbrev by : Principal → ApprovalDecisionInput
by actor = record {
  principal_id = actor.id;
  payload_hash = "sha256:1";
  now = none;
  advance_mode = some RunAdvanceMode.worker;
}

abbrev granted : ApprovalRequest
granted = record asked {
  status = ApprovalStatus.approved;
  decided_by_principal_id = some "principal_2";
  decided_at = some 50;
}

reviewer_grants :
    (decide_approval options "approval_1" ApprovalDecision.approved (by reviewer) 50 51 store).0
    ≡ returned granted
unfolding decide_approval decide_found decide_by_actor write_decision find_index find_from
reviewer_grants = refl

requester_refused :
    (decide_approval options "approval_1" ApprovalDecision.approved (by requester) 50 51 store).0
    ≡ threw self_approval
unfolding decide_approval decide_found decide_by_actor write_decision find_index find_from
requester_refused = refl

decide_approval-IsDecided_example :
    IsDecided store
      (decide_approval options "approval_1" ApprovalDecision.approved (by reviewer) 50 51 store).1
      "approval_1"
      ApprovalDecision.approved
      (by reviewer)
      50
      granted
decide_approval-IsDecided_example =
    decide_approval-IsDecided options "approval_1" ApprovalDecision.approved (by reviewer) 50 51
      store granted reviewer_grants

decide_approval-once_example :
    decide_approval options "approval_1" ApprovalDecision.denied
      (by reviewer)
      60
      61
      (decide_approval options "approval_1" ApprovalDecision.approved (by reviewer) 50 51 store).1
    ≡ (
      threw no_longer_pending,
      (decide_approval options "approval_1" ApprovalDecision.approved (by reviewer) 50 51 store).1,
    )
decide_approval-once_example =
    decide_approval-once options "approval_1" ApprovalDecision.approved ApprovalDecision.denied
      (by reviewer) (by reviewer) 50 51 60 61 store granted reviewer_grants
