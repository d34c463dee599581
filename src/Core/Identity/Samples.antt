-- ===== src/Core/Identity/Samples.antt =====
-- Identities, places and principals at concrete values: packages/core/src/identity.ts.
use bek.Common.{◌≡◌, refl, any, keep, find, includes, unique, true, false, none, some, [], ◌∷◌}
use bek.Worker.Types.{RiskLevel}
use bek.Core.Types.{
  PlaceKind, PlaceProvider, Sensitivity, CapabilityKind, Decision, PlaceScope, CapabilityGrant,
  AccessBundle,
}
use bek.Core.Store.Types.{PrincipalKind, Principal}
use bek.Core.Identity.{place_identity, org_identities, is_of_place, bound_identity_ids}
use bek.Core.Identity.Types.{
  AgentIdentityScope, AgentIdentityProfile, AgentIdentityBinding, ResolveAgentIdentityInput,
}

abbrev pub place : PlaceScope
place = record {
  id = "place_1";
  org_id = "org_1";
  kind = PlaceKind.slack_channel;
  provider = PlaceProvider.slack;
  external_id = "C1";
  name = "incidents";
  sensitivity = Sensitivity.confidential;
  metadata = none;
}

abbrev pub grant : CapabilityGrant
grant = record {
  id = "grant_1";
  capability = CapabilityKind.github_read;
  resource = "github:acme/*";
  decision = Decision.allow;
  risk = RiskLevel.read_internal;
  requires_approval = false;
}

abbrev pub wide_bundle : AccessBundle
wide_bundle = record {
  id = "bundle_1";
  org_id = "org_1";
  name = "Workspace";
  description = "";
  attached_place_ids = [];
  grants = grant ∷ [];
  budget_policy_id = "budget_1";
}

abbrev pub own_bundle : AccessBundle
own_bundle = record wide_bundle {
  id = "bundle_2";
  name = "Incidents";
  attached_place_ids = "place_1" ∷ [];
  grants = record grant { id = "grant_2" } ∷ [];
}

abbrev pub workspace_baseline : AgentIdentityProfile
workspace_baseline = record {
  id = "identity_1";
  org_id = "org_1";
  scope = AgentIdentityScope.workspace;
  name = "Workspace baseline";
  baseline = some true;
  enabled = true;
  place_id = none;
  access_bundle_ids = "bundle_1" ∷ [];
  model_policy_id = none;
  runtime_profile_id = none;
  approver_principal_ids = none;
  invocation_allowlist_principal_ids = none;
  inherits_baseline = none;
}

abbrev pub private : AgentIdentityProfile
private = record workspace_baseline {
  id = "identity_2";
  scope = AgentIdentityScope.private_channel;
  name = "Incidents";
  baseline = none;
  place_id = some "place_1";
  access_bundle_ids = "bundle_2" ∷ [];
  invocation_allowlist_principal_ids = some ("principal_1" ∷ []);
}

abbrev pub binding : AgentIdentityBinding
binding = record {
  id = "binding_1";
  org_id = "org_1";
  identity_id = "identity_2";
  place_id = "place_1";
  enabled = true;
}

abbrev pub input : ResolveAgentIdentityInput
input = record {
  identities = workspace_baseline ∷ private ∷ [];
  place = place;
  access_bundles = wide_bundle ∷ own_bundle ∷ [];
  bindings = some (binding ∷ []);
}

abbrev pub principal : Principal
principal = record {
  id = "principal_1";
  org_id = "org_1";
  kind = PrincipalKind.human;
  display_name = "Ada";
  email = none;
  external_provider = none;
  external_id = none;
  metadata = none;
}

pub private-found : place_identity input ≡ some private
unfolding place_identity org_identities is_of_place bound_identity_ids keep find includes any unique
private-found = refl
