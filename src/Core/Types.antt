-- ===== src/Core/Types.antt =====
-- The types of packages/core/src/types.ts that the policy reads.
use bek.Common.{String, Bool, Option, List}
use bek.Common.Json.{Fields}
use bek.Worker.Types.{RiskLevel}

pub data PlaceKind : Type 0 where
  slack_channel slack_dm github_repo project system : PlaceKind

pub data PlaceProvider : Type 0 where
  slack github system : PlaceProvider

pub data Sensitivity : Type 0 where
  public internal confidential restricted : Sensitivity

pub data CapabilityKind : Type 0 where
  slack_read slack_write github_read github_branch github_pr linear_read linear_write mcp_tool
        sandbox_exec model_call :
      CapabilityKind

pub data Decision : Type 0 where
  allow ask deny : Decision

pub record PlaceScope : Type 0 where
  pub id : String
  pub org_id : String
  pub kind : PlaceKind
  pub provider : PlaceProvider
  pub external_id : String
  pub name : String
  pub sensitivity : Sensitivity
  pub metadata : Option Fields

pub record CapabilityGrant : Type 0 where
  pub id : String
  pub capability : CapabilityKind
  pub resource : String
  pub decision : Decision
  pub risk : RiskLevel
  pub requires_approval : Bool

pub record AccessBundle : Type 0 where
  pub id : String
  pub org_id : String
  pub name : String
  pub description : String
  pub attached_place_ids : List String
  pub grants : List CapabilityGrant
  pub budget_policy_id : String
