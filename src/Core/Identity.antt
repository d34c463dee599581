-- ===== src/Core/Identity.antt =====
-- The identities that the agent acts through: packages/core/src/identity.ts.
pub mod Defaults
pub mod Types
pub mod Isolation
pub mod Invocation
pub mod Samples
mod Tests
use bek.Common.{
  String, Bool, true, false, not, ◌&&◌, ◌||◌, Option, none, some, List, [], ◌∷◌, ◌++◌, map, keep,
  any, find, or_else, is_some, if◌then◌else◌, ◌==◌, concat, includes, unique,
}
use bek.Core.Types.{PlaceKind, Sensitivity, PlaceScope, CapabilityGrant, AccessBundle}
use bek.Core.Policy.{all_grants}
use bek.Core.Store.Types.{Principal}
use bek.Core.Identity.Types.{
  AgentIdentityBinding, AgentIdentityProfile, AgentIdentityScope, ResolveAgentIdentityInput,
  ResolvedAgentIdentity,
}

abbrev pub is_workspace : AgentIdentityScope → Bool
is_workspace AgentIdentityScope.workspace = true
is_workspace _ = false

abbrev pub is_private_channel : AgentIdentityScope → Bool
is_private_channel AgentIdentityScope.private_channel = true
is_private_channel _ = false

-- The text of a scope in a reason.
abbrev pub scope_name : AgentIdentityScope → String
scope_name AgentIdentityScope.workspace = "workspace"
scope_name AgentIdentityScope.public_channel = "public_channel"
scope_name AgentIdentityScope.private_channel = "private_channel"
scope_name AgentIdentityScope.dm = "dm"
scope_name AgentIdentityScope.service_account = "service_account"

abbrev pub is_dm : PlaceKind → Bool
is_dm PlaceKind.slack_dm = true
is_dm _ = false

unfoldable pub is_workspace_baseline : AgentIdentityProfile → Bool
is_workspace_baseline identity = is_workspace identity.scope && or_else identity.baseline false

unfoldable pub identity_is_isolated : AgentIdentityProfile → Bool
identity_is_isolated identity =
    if is_private_channel identity.scope
    then true
    else not (or_else identity.inherits_baseline true)

unfoldable pub grants_for_bundle_ids : List AccessBundle → List String → List CapabilityGrant
grants_for_bundle_ids bundles bundle_ids =
    all_grants (keep (λ (bundle : AccessBundle). includes bundle_ids bundle.id) bundles)

unfoldable pub empty_identity : PlaceScope → AgentIdentityProfile
empty_identity place = record {
  id = concat ("identity_unresolved_" ∷ place.id ∷ []);
  org_id = place.org_id;
  scope = if is_dm place.kind then AgentIdentityScope.dm else AgentIdentityScope.public_channel;
  name = "Unresolved identity";
  baseline = none;
  enabled = false;
  place_id = none;
  access_bundle_ids = [];
  model_policy_id = none;
  runtime_profile_id = none;
  approver_principal_ids = none;
  invocation_allowlist_principal_ids = none;
  inherits_baseline = none;
}

unfoldable pub reason_for_enabled : AgentIdentityProfile → Bool → Bool → String
reason_for_enabled identity isolated inherits =
    if is_workspace_baseline identity
    then "Resolved to the workspace baseline identity."
    else if isolated
    then concat (
        "Resolved to isolated "
        ∷ scope_name identity.scope
        ∷ " identity (no baseline inheritance)."
        ∷ [])
    else if inherits
    then concat (
        "Resolved to "
        ∷ scope_name identity.scope
        ∷ " identity inheriting the workspace baseline."
        ∷ [])
    else concat ("Resolved to " ∷ scope_name identity.scope ∷ " identity." ∷ [])

unfoldable pub reason_for_disabled : AgentIdentityProfile → Bool → Bool → String
reason_for_disabled identity baseline_enabled binding_disabled =
    if binding_disabled
    then "The identity binding for this place is disabled."
    else if not baseline_enabled
    then "The inherited workspace baseline identity is disabled."
    else concat ("Agent identity " ∷ identity.name ∷ " is disabled." ∷ [])

unfoldable pub org_identities : ResolveAgentIdentityInput → List AgentIdentityProfile
org_identities input =
    keep (λ (identity : AgentIdentityProfile). identity.org_id == input.place.org_id)
      input.identities

unfoldable pub baseline_of : ResolveAgentIdentityInput → Option AgentIdentityProfile
baseline_of input = find is_workspace_baseline (org_identities input)

unfoldable pub bound_identity_ids : ResolveAgentIdentityInput → List String
bound_identity_ids input = unique (
    map (λ (binding : AgentIdentityBinding). binding.identity_id)
      (keep
        (λ (binding : AgentIdentityBinding).
          binding.place_id == input.place.id && binding.org_id == input.place.org_id)
        (or_else input.bindings [])))

-- The identity is the place's own, or bound to it.
unfoldable pub is_of_place : ResolveAgentIdentityInput → AgentIdentityProfile → Bool
is_of_place input identity =
    elim identity.place_id [ none ↦ false | some id ↦ id == input.place.id ]
    || includes (bound_identity_ids input) identity.id

unfoldable pub place_identity : ResolveAgentIdentityInput → Option AgentIdentityProfile
place_identity input = elim (find (is_of_place input) (org_identities input)) [
  | some identity ↦ some identity
  | none ↦ baseline_of input
]

unfoldable pub is_binding_disabled : ResolveAgentIdentityInput → AgentIdentityProfile → Bool
is_binding_disabled input identity =
    any
      (λ (binding : AgentIdentityBinding).
        binding.place_id == input.place.id
        && binding.identity_id == identity.id
        && not binding.enabled)
      (or_else input.bindings [])

-- `inheritsBaseline` of `resolveAgentIdentity`.
unfoldable pub inherits_from_baseline : AgentIdentityProfile → Bool
unfolding identity_is_isolated is_workspace_baseline
inherits_from_baseline identity =
    not (identity_is_isolated identity)
    && not (is_workspace_baseline identity)
    && or_else identity.inherits_baseline true

-- The baseline that the identity inherits.
unfoldable pub inherited :
    AgentIdentityProfile → Option AgentIdentityProfile → Option AgentIdentityProfile
inherited identity baseline = if inherits_from_baseline identity then baseline else none

-- Of the baseline that is inherited, where there is one.
abbrev pub inherited_bundle_ids : Option AgentIdentityProfile → List String
inherited_bundle_ids none = []
inherited_bundle_ids (some b) = b.access_bundle_ids

abbrev pub is_baseline_enabled : Option AgentIdentityProfile → Bool
is_baseline_enabled none = true
is_baseline_enabled (some b) = b.enabled

-- `resolveAgentIdentity` once the identity of the place is found.
unfoldable pub resolve_found :
    ResolveAgentIdentityInput
    → AgentIdentityProfile
    → Option AgentIdentityProfile
    → ResolvedAgentIdentity
resolve_found input identity baseline =
    let binding_disabled = is_binding_disabled input identity in
    let isolated = identity_is_isolated identity in
    let bundle_ids = unique (inherited_bundle_ids baseline ++ identity.access_bundle_ids) in
    let baseline_enabled = is_baseline_enabled baseline in
    let enabled = identity.enabled && baseline_enabled && not binding_disabled in
    record {
      identity = identity;
      baseline = baseline;
      enabled = enabled;
      isolated = isolated;
      effective_bundle_ids = bundle_ids;
      effective_grants = grants_for_bundle_ids input.access_bundles bundle_ids;
      approver_principal_ids = or_else identity.approver_principal_ids [];
      invocation_allowlist_principal_ids = or_else identity.invocation_allowlist_principal_ids [];
      reason =
          if enabled
          then reason_for_enabled identity isolated (inherits_from_baseline identity)
          else reason_for_disabled identity baseline_enabled binding_disabled;
    }

unfoldable pub resolve_none : ResolveAgentIdentityInput → ResolvedAgentIdentity
resolve_none input = record {
  identity = empty_identity input.place;
  baseline = none;
  enabled = false;
  isolated = is_dm input.place.kind;
  effective_bundle_ids = [];
  effective_grants = [];
  approver_principal_ids = [];
  invocation_allowlist_principal_ids = [];
  reason = "No agent identity (and no workspace baseline) covers this place.";
}

unfoldable pub resolve_agent_identity : ResolveAgentIdentityInput → ResolvedAgentIdentity
resolve_agent_identity input = elim (place_identity input) [
  | none ↦ resolve_none input
  | some identity ↦ resolve_found input identity (inherited identity (baseline_of input))
]

pub data InvocationDecision : Type 0 where
  allow deny : InvocationDecision

pub record InvocationCheckInput : Type 0 where
  pub resolved : ResolvedAgentIdentity
  pub principal : Principal
  pub is_place_member : Option Bool

pub record InvocationCheckResult : Type 0 where
  pub decision : InvocationDecision
  pub reason : String

-- `canInvokeAgent` by the allowlist of an enabled identity.
unfoldable pub invoke_enabled : List String → InvocationCheckInput → InvocationCheckResult
invoke_enabled [] input =
    if not (or_else input.is_place_member true)
    then record {
      decision = InvocationDecision.deny;
      reason = "Principal is not a member of this place.";
    }
    else record {
      decision = InvocationDecision.allow;
      reason = "Principal may invoke this identity.";
    }
invoke_enabled (p ∷ ps) input =
    if includes (p ∷ ps) input.principal.id
    then record {
      decision = InvocationDecision.allow;
      reason = "Principal is on the invocation allowlist.";
    }
    else record {
      decision = InvocationDecision.deny;
      reason = "Principal is not on this identity's invocation allowlist.";
    }

unfoldable pub can_invoke_agent : InvocationCheckInput → InvocationCheckResult
unfolding invoke_enabled
can_invoke_agent input =
    if not input.resolved.enabled
    then record {
      decision = InvocationDecision.deny;
      reason = "The agent identity for this place is disabled.";
    }
    else invoke_enabled input.resolved.invocation_allowlist_principal_ids input

unfoldable pub is_identity_data_isolated : ResolvedAgentIdentity → Bool
is_identity_data_isolated resolved = resolved.isolated
