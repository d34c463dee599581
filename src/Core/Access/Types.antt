-- ===== src/Core/Access/Types.antt =====
-- The state and the inputs of the administration of access: packages/core/src/store.ts.
use bek.Common.{ℕ, String, Bool, Option, List}
use bek.Core.Types.{CapabilityKind, Decision, PlaceScope, AccessBundle}
use bek.Core.Store.Types.{Run}
use bek.Worker.Types.{RiskLevel}

pub data AccessError : Type 0 where
  bundle_not_found place_not_found grant_not_found budget_policy_not_found place_has_runs
        capability_required decision_required risk_required approval_requirement_required
        resource_required github_resource_malformed ask_without_approval approval_without_ask
        duplicate_grant :
      AccessError

-- What an operation returns, or throws.
pub data Outcome (A : Type 0) : Type 0 where
  returned : A → Outcome A
  threw : AccessError → Outcome A

pub record GrantMutationInput : Type 0 where
  pub capability : Option CapabilityKind
  pub resource : Option String
  pub decision : Option Decision
  pub risk : Option RiskLevel
  pub requires_approval : Option Bool

-- A grant without its id.
pub record GrantTerms : Type 0 where
  pub capability : CapabilityKind
  pub resource : String
  pub decision : Decision
  pub risk : RiskLevel
  pub requires_approval : Bool

pub record CreateBundleInput : Type 0 where
  pub name : String
  pub description : String
  pub budget_policy_id : Option String
  pub attached_place_ids : Option (List String)

pub record UpdateBundleInput : Type 0 where
  pub name : Option String
  pub description : Option String
  pub budget_policy_id : Option String

-- The parts of a snapshot that the administration of access touches, with the count of identifiers
-- made.
pub record Access : Type 0 where
  pub org_id : String
  pub places : List PlaceScope
  pub bundles : List AccessBundle
  pub budget_policy_ids : List String
  pub runs : List Run
  pub next_id : ℕ
