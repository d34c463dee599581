-- ===== src/Core/Identity/Types.antt =====
-- The types of the identities that the agent acts through: packages/core/src/identity.ts.
use bek.Common.{String, Bool, Option, List}
use bek.Core.Types.{PlaceScope, CapabilityGrant, AccessBundle}

pub data AgentIdentityScope : Type 0 where
  workspace public_channel private_channel dm service_account : AgentIdentityScope

-- An optional array that is missing is read as an empty one where the source says `?? []`.
pub record AgentIdentityProfile : Type 0 where
  pub id : String
  pub org_id : String
  pub scope : AgentIdentityScope
  pub name : String
  pub baseline : Option Bool
  pub enabled : Bool
  pub place_id : Option String
  pub access_bundle_ids : List String
  pub model_policy_id : Option String
  pub runtime_profile_id : Option String
  pub approver_principal_ids : Option (List String)
  pub invocation_allowlist_principal_ids : Option (List String)
  pub inherits_baseline : Option Bool

pub record AgentIdentityBinding : Type 0 where
  pub id : String
  pub org_id : String
  pub identity_id : String
  pub place_id : String
  pub enabled : Bool

pub record ResolvedAgentIdentity : Type 0 where
  pub identity : AgentIdentityProfile
  pub baseline : Option AgentIdentityProfile
  pub enabled : Bool
  pub isolated : Bool
  pub effective_bundle_ids : List String
  pub effective_grants : List CapabilityGrant
  pub approver_principal_ids : List String
  pub invocation_allowlist_principal_ids : List String
  pub reason : String

pub record ResolveAgentIdentityInput : Type 0 where
  pub identities : List AgentIdentityProfile
  pub place : PlaceScope
  pub access_bundles : List AccessBundle
  pub bindings : Option (List AgentIdentityBinding)
