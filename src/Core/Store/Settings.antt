-- ===== src/Core/Store/Settings.antt =====
-- The parts of a snapshot that the creation of a run reads, from packages/core/src/types.ts, and the
-- look-up of its profiles, from packages/core/src/store.ts.
use bek.Common.{ℕ, String, Bool, true, false, ◌&&◌, Option, none, some, List, find, ◌==◌}
use bek.Core.Types.{CapabilityKind, PlaceScope, AccessBundle}

pub data AgentStatus : Type 0 where
  active paused disabled : AgentStatus

pub record AgentIdentity : Type 0 where
  pub id : String
  pub org_id : String
  pub principal_id : String
  pub name : String
  pub handle : String
  pub description : String
  pub status : AgentStatus
  pub default_model_policy_id : String
  pub default_runtime_profile_id : String

-- `facts` is "data".
pub data ProfileKind : Type 0 where
  answer coding incident support facts workflow : ProfileKind

pub record CapabilityProfile : Type 0 where
  pub id : String
  pub org_id : String
  pub agent_id : String
  pub name : String
  pub capability_kind : ProfileKind
  pub runtime_profile_id : String
  pub model_policy_id : String
  pub enabled : Bool

pub record ModelPolicy : Type 0 where
  pub id : String
  pub org_id : String
  pub name : String
  pub default_model : String
  pub fallback_models : List String
  pub per_run_budget_cents : ℕ

pub data RuntimeKind : Type 0 where
  ai_sdk opencode langgraph external : RuntimeKind

pub record RuntimeProfile : Type 0 where
  pub id : String
  pub org_id : String
  pub name : String
  pub runtime_kind : RuntimeKind
  pub adapter : String

pub record Settings : Type 0 where
  pub agent : AgentIdentity
  pub capability_profiles : List CapabilityProfile
  pub places : List PlaceScope
  pub access_bundles : List AccessBundle
  pub model_policies : List ModelPolicy
  pub runtime_profiles : List RuntimeProfile

abbrev pub is_same_kind : ProfileKind → ProfileKind → Bool
is_same_kind ProfileKind.answer ProfileKind.answer = true
is_same_kind ProfileKind.coding ProfileKind.coding = true
is_same_kind ProfileKind.incident ProfileKind.incident = true
is_same_kind ProfileKind.support ProfileKind.support = true
is_same_kind ProfileKind.facts ProfileKind.facts = true
is_same_kind ProfileKind.workflow ProfileKind.workflow = true
is_same_kind _ _ = false

unfoldable pub capability_kind_for_capability : Option CapabilityKind → ProfileKind
capability_kind_for_capability (some CapabilityKind.github_read) = ProfileKind.coding
capability_kind_for_capability (some CapabilityKind.github_branch) = ProfileKind.coding
capability_kind_for_capability (some CapabilityKind.github_pr) = ProfileKind.coding
capability_kind_for_capability (some CapabilityKind.sandbox_exec) = ProfileKind.coding
capability_kind_for_capability (some CapabilityKind.linear_read) = ProfileKind.workflow
capability_kind_for_capability (some CapabilityKind.linear_write) = ProfileKind.workflow
capability_kind_for_capability (some CapabilityKind.mcp_tool) = ProfileKind.workflow
capability_kind_for_capability _ = ProfileKind.answer

unfoldable pub find_capability_profile : Settings → String → ProfileKind → Option CapabilityProfile
find_capability_profile settings org_id kind =
    find
      (λ (profile : CapabilityProfile).
        profile.org_id == org_id
        && profile.agent_id == settings.agent.id
        && profile.enabled
        && is_same_kind profile.capability_kind kind)
      settings.capability_profiles

unfoldable pub find_model_policy : Settings → String → Option ModelPolicy
find_model_policy settings id =
    find (λ (policy : ModelPolicy). policy.id == id) settings.model_policies

unfoldable pub find_runtime_profile : Settings → String → Option RuntimeProfile
find_runtime_profile settings id =
    find (λ (profile : RuntimeProfile). profile.id == id) settings.runtime_profiles

-- The ids of the model policy and of the runtime profile that `resolveRunProfiles` looks up.
abbrev pub profile_ids : Settings → Option CapabilityProfile → String × String
profile_ids settings none =
    (settings.agent.default_model_policy_id, settings.agent.default_runtime_profile_id)
profile_ids settings (some profile) = (profile.model_policy_id, profile.runtime_profile_id)
