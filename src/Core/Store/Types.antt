-- ===== src/Core/Store/Types.antt =====
-- The records of the store that approvals read and write: packages/core/src/types.ts.
use bek.Common.{ℕ, String, Option, List}
use bek.Common.Json.{Fields}
use bek.Core.Types.{CapabilityKind}
use bek.Worker.Types.{ApprovalRequest}

pub data PrincipalKind : Type 0 where
  human agent service_account integration system : PrincipalKind

pub record Principal : Type 0 where
  pub id : String
  pub org_id : String
  pub kind : PrincipalKind
  pub display_name : String
  pub email : Option String
  pub external_provider : Option String
  pub external_id : Option String
  pub metadata : Option Fields

pub data RunStatus : Type 0 where
  queued reading_context planning awaiting_approval running_tools working_in_sandbox completed
        failed cancelled :
      RunStatus

pub data TriggerKind : Type 0 where
  mention reaction dm slash_command api schedule : TriggerKind

pub record Run : Type 0 where
  pub id : String
  pub org_id : String
  pub agent_id : String
  pub requester_principal_id : String
  pub place_scope_id : String
  pub trigger : TriggerKind
  pub prompt : String
  pub capability : Option CapabilityKind
  pub resource : Option String
  pub status : RunStatus
  pub model_policy_id : String
  pub runtime_profile_id : String
  pub estimated_cost_cents : ℕ
  pub actual_cost_cents : ℕ
  pub created_at : ℕ
  pub updated_at : ℕ

pub data RunEventType : Type 0 where
  run_created policy_evaluated model_selected tool_requested approval_requested approval_decided
        run_status_changed run_completed run_failed :
      RunEventType

pub record RunEvent : Type 0 where
  pub id : String
  pub run_id : String
  pub org_id : String
  pub type : RunEventType
  pub message : String
  pub data_fields : Option Fields
  pub created_at : ℕ

-- The parts of a snapshot that approvals touch, with the count of identifiers made.
pub record Store : Type 0 where
  pub org_id : String
  pub principals : List Principal
  pub runs : List Run
  pub events : List RunEvent
  pub approvals : List ApprovalRequest
  pub next_id : ℕ
