-- ===== src/Core/Store/Creation/Inputs.antt =====
-- The input and the outcome of `createRun` of packages/core/src/store.ts.
use bek.Common.{ℕ, String, Bool, true, false, Option, none, some, if◌then◌else◌, ◌==◌}
use bek.Common.Json.{Json, Fields}
use bek.Core.Types.{CapabilityKind, Decision}
use bek.Core.Policy.{capability_name}
use bek.Core.Store.Types.{TriggerKind, Run, Store}
use bek.Core.Store.Approvals.{RunAdvanceMode}

-- `approvalPayload`: a value, or a function of the run.
pub data ApprovalPayload : Type 0 where
  value : Json → ApprovalPayload
  of_run : (Run → Json) → ApprovalPayload

pub record CreateRunInput : Type 0 where
  pub prompt : String
  pub place_scope_id : String
  pub requester_principal_id : Option String
  pub trigger : Option TriggerKind
  pub capability : Option CapabilityKind
  pub resource : Option String
  pub advance_mode : Option RunAdvanceMode
  pub approval_payload : Option ApprovalPayload
  pub defer_approval : Option Bool

pub data CreateRunError : Type 0 where
  model_policy_not_found runtime_profile_not_found unknown_place : CreateRunError

pub data Created : Type 0 where
  returned : Run → Created
  threw : CreateRunError → Created

abbrev pub is_inline : RunAdvanceMode → Bool
is_inline RunAdvanceMode.inline_stub = true
is_inline RunAdvanceMode.worker = false

abbrev pub mode_name : RunAdvanceMode → String
mode_name RunAdvanceMode.inline_stub = "inline_stub"
mode_name RunAdvanceMode.worker = "worker"

abbrev pub policy_decision_name : Decision → String
policy_decision_name Decision.allow = "allow"
policy_decision_name Decision.ask = "ask"
policy_decision_name Decision.deny = "deny"

-- The fields of an object, a resource that is missing left out.
abbrev pub resource_field : Option String → Fields → Fields
resource_field none rest = rest
resource_field (some resource) rest = Fields.field "resource" (Json.str resource) rest

abbrev pub capability_field : CapabilityKind → Fields → Fields
capability_field capability rest =
    Fields.field "capability" (Json.str (capability_name capability)) rest

-- A text that is empty is no resource of the run.
abbrev pub run_resource : Option String → Option String
run_resource none = none
run_resource (some resource) = if resource == "" then none else some resource

-- The payload that is asked to be approved.
unfoldable pub approval_payload_of : CreateRunInput → CapabilityKind → Run → Json
approval_payload_of input capability run =
    let standard = Json.obj (
      Fields.field "prompt" (Json.str input.prompt)
        (capability_field capability (resource_field input.resource Fields.end))) in
    elim input.approval_payload [
      | none ↦ standard
      | some (of_run f) ↦ f run
      | some (value Json.null) ↦ standard
      | some (value v) ↦ v
    ]

-- What `createRun` has done to the run and to the store so far.
pub record Progress : Type 0 where
  pub run : Run
  pub store : Store
  pub readings : ℕ
