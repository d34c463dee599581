-- ===== src/Core/Identity/Defaults.antt =====
-- The identities that are derived for an organisation: `deriveDefaultIdentityProfiles` of
-- packages/core/src/identity.ts.
use bek.Common.{
  String, Bool, true, false, Option, none, some, List, [], ◌∷◌, map, keep, if◌then◌else◌, ◌==◌,
  concat, includes,
}
use bek.Core.Types.{Sensitivity, PlaceScope, AccessBundle}
use bek.Core.Identity.Types.{AgentIdentityProfile, AgentIdentityScope}
use bek.Core.Identity.{is_dm}

unfoldable pub scope_for_place : PlaceScope → AgentIdentityScope
scope_for_place place = if is_dm place.kind then AgentIdentityScope.dm else elim place.sensitivity [
  | Sensitivity.confidential ↦ AgentIdentityScope.private_channel
  | Sensitivity.restricted ↦ AgentIdentityScope.private_channel
  | _ ↦ AgentIdentityScope.public_channel
]

-- An identity that is derived, with the fields that are left out.
abbrev pub derived_identity :
    String
    → String
    → AgentIdentityScope
    → String
    → Option Bool
    → Option String
    → List String
    → AgentIdentityProfile
derived_identity id org_id scope name baseline place_id bundle_ids = record {
  id = id;
  org_id = org_id;
  scope = scope;
  name = name;
  baseline = baseline;
  enabled = true;
  place_id = place_id;
  access_bundle_ids = bundle_ids;
  model_policy_id = none;
  runtime_profile_id = none;
  approver_principal_ids = none;
  invocation_allowlist_principal_ids = none;
  inherits_baseline = none;
}

abbrev pub bundle_ids_of : List AccessBundle → List String
bundle_ids_of bundles = map (λ (bundle : AccessBundle). bundle.id) bundles

unfoldable pub derive_default_identity_profiles :
    String → List PlaceScope → List AccessBundle → List AgentIdentityProfile
unfolding scope_for_place
derive_default_identity_profiles org_id places access_bundles =
    let org_bundles = keep (λ (bundle : AccessBundle). bundle.org_id == org_id) access_bundles in
    let workspace_wide =
      keep (λ (bundle : AccessBundle). elim bundle.attached_place_ids [ [] ↦ true | _ ∷ _ ↦ false ])
        org_bundles in
    let baseline =
      derived_identity (concat ("identity_baseline_" ∷ org_id ∷ [])) org_id
        AgentIdentityScope.workspace "Workspace baseline" (some true) none
        (bundle_ids_of workspace_wide) in
    let of_place = λ (place : PlaceScope).
      derived_identity (concat ("identity_" ∷ place.id ∷ [])) org_id (scope_for_place place)
        (concat (place.name ∷ " identity" ∷ [])) none (some place.id)
        (bundle_ids_of (
          keep (λ (bundle : AccessBundle). includes bundle.attached_place_ids place.id)
            org_bundles)) in
    baseline ∷ map of_place (keep (λ (place : PlaceScope). place.org_id == org_id) places)
