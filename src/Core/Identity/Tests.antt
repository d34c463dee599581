-- ===== src/Core/Identity/Tests.antt =====
-- Resolution and invocation at concrete inputs: packages/core/src/identity.ts.
use bek.Common.{◌≡◌, refl, ◌↔◌, inl, true, none, some, [], ◌∷◌, any, keep, find, includes, unique}
use bek.Core.Policy.{all_grants}
use bek.Core.Identity.{
  InvocationDecision, is_workspace_baseline, identity_is_isolated, org_identities, baseline_of,
  bound_identity_ids, is_of_place, place_identity, inherits_from_baseline, inherited,
  is_binding_disabled, resolve_found, grants_for_bundle_ids, resolve_agent_identity,
  can_invoke_agent, invoke_enabled,
}
use bek.Core.Identity.Defaults.{derive_default_identity_profiles, scope_for_place}
use bek.Core.Identity.Types.{AgentIdentityScope}
use bek.Core.Identity.Isolation.{IsApart, resolve_agent_identity-IsApart}
use bek.Core.Identity.Invocation.{Allows, MayInvoke, can_invoke_agent_iff}
use bek.Core.Identity.Samples.{
  private-found, place, wide_bundle, own_bundle, private, input, principal,
}

private-grants : (resolve_agent_identity input).effective_grants ≡ own_bundle.grants
unfolding resolve_agent_identity place_identity org_identities is_of_place bound_identity_ids
    resolve_found inherited inherits_from_baseline identity_is_isolated baseline_of
    is_workspace_baseline grants_for_bundle_ids all_grants keep find includes any unique
private-grants = refl

-- A principal that the allowlist does not name is denied.
stranger-denied :
    (can_invoke_agent (record {
      resolved = resolve_agent_identity input;
      principal = record principal { id = "principal_2" };
      is_place_member = some true;
    })).decision
    ≡ InvocationDecision.deny
unfolding can_invoke_agent invoke_enabled resolve_agent_identity place_identity org_identities
    is_of_place bound_identity_ids resolve_found is_binding_disabled inherited
    inherits_from_baseline identity_is_isolated baseline_of is_workspace_baseline keep find includes
    any unique
stranger-denied = refl

-- A confidential channel of an organisation gets an identity of a private channel.
derived-scopes :
    derive_default_identity_profiles "org_1" (place ∷ []) (wide_bundle ∷ own_bundle ∷ [])
    ≡ record (private) {
      id = "identity_baseline_org_1";
      scope = AgentIdentityScope.workspace;
      name = "Workspace baseline";
      baseline = some true;
      place_id = none;
      access_bundle_ids = "bundle_1" ∷ [];
      invocation_allowlist_principal_ids = none;
    }
      ∷ record (private) {
        id = "identity_place_1";
        name = "incidents identity";
        invocation_allowlist_principal_ids = none;
      }
      ∷ []
unfolding derive_default_identity_profiles scope_for_place keep includes any
derived-scopes = refl

resolve_agent_identity-IsApart_example :
    ((resolve_agent_identity input).identity ≡ private)
    × IsApart input.access_bundles (resolve_agent_identity input)
resolve_agent_identity-IsApart_example =
    resolve_agent_identity-IsApart input private private-found (inl refl)

can_invoke_agent_iff_example :
    Allows (resolve_agent_identity input) principal none ↔ MayInvoke input principal none
can_invoke_agent_iff_example = can_invoke_agent_iff input principal none
