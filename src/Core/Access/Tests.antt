-- ===== src/Core/Access/Tests.antt =====
-- The administration of access at concrete inputs: packages/core/src/store.ts.
use bek.Common.{
  ◌≡◌, refl, true, none, some, [], ◌∷◌, concat, decimal, trim, map, unique, find, keep, any,
  includes, String, ℕ,
}
use bek.Worker.Types.{RiskLevel}
use bek.Core.Types.{
  CapabilityKind, Decision, PlaceKind, PlaceProvider, Sensitivity, PlaceScope, AccessBundle,
}
use bek.Core.Policy.{PolicyRequest, is_ask, bundles_for_place, evaluate_policy}
use bek.Core.Access.{find_place}
use bek.Core.Access.Types.{returned, GrantMutationInput, Access}
use bek.Core.Access.Resources.{
  normalize_grant_resource, is_github_capability, match_github, to_lower_case_ascii,
}
use bek.Core.Access.Bundles.{create_access_bundle, new_bundle}
use bek.Core.Access.Grants.{create_grant}
use bek.Core.Access.Kept.{AllSound}
use bek.Core.Access.Steps.{Steps, stay, next, grant, Steps-AllSound}
use bek.Core.Access.Asking.{Steps-asks}

abbrev create_id : String → ℕ → String
create_id prefix n = concat (prefix ∷ "_" ∷ decimal n ∷ [])

abbrev place : PlaceScope
place = record {
  id = "place_1";
  org_id = "org_1";
  kind = PlaceKind.slack_channel;
  provider = PlaceProvider.slack;
  external_id = "C1";
  name = "engineering";
  sensitivity = Sensitivity.internal;
  metadata = none;
}

abbrev bundle : AccessBundle
bundle = record {
  id = "bundle_1";
  org_id = "org_1";
  name = "Engineering";
  description = "";
  attached_place_ids = "place_1" ∷ [];
  grants = [];
  budget_policy_id = "budget_1";
}

abbrev access : Access
access = record {
  org_id = "org_1";
  places = place ∷ [];
  bundles = bundle ∷ [];
  budget_policy_ids = "budget_1" ∷ [];
  runs = [];
  next_id = 1;
}

abbrev ask_branch : GrantMutationInput
ask_branch = record {
  capability = some CapabilityKind.github_branch;
  resource = some " github:Bek/bek ";
  decision = some Decision.ask;
  risk = some RiskLevel.write_external;
  requires_approval = some true;
}

abbrev granted : Access
granted = (create_grant create_id "bundle_1" none ask_branch access).1

granting : Steps create_id access granted
granting = next stay (grant "bundle_1" none ask_branch)

access-AllSound : AllSound access
access-AllSound = (record { coherent = tt; apart = tt }, tt)

Steps-AllSound_example : AllSound granted
Steps-AllSound_example = Steps-AllSound create_id granting access-AllSound

abbrev request : PolicyRequest
request = record {
  place_scope_id = "place_1";
  capability = CapabilityKind.github_branch;
  resource = some "github:bek/bek";
}

Steps-asks_example :
    (evaluate_policy (bundles_for_place granted.bundles place) request).requires_approval
    ≡ is_ask (evaluate_policy (bundles_for_place granted.bundles place) request).decision
Steps-asks_example = Steps-asks create_id granting access-AllSound place request

owner_lowered :
    normalize_grant_resource CapabilityKind.github_branch (some " github:Bek/bek ")
    ≡ returned "github:bek/bek"
unfolding normalize_grant_resource trim is_github_capability match_github to_lower_case_ascii
owner_lowered = refl

-- A place may be named by its external id, which is then kept and is no place of the policy.
external_id_kept :
    map
      (λ (b : AccessBundle). b.name)
      (bundles_for_place
        (create_access_bundle create_id
          (record {
            name = "Review";
            description = "";
            budget_policy_id = none;
            attached_place_ids = some ("C1" ∷ []);
          })
          access).1.bundles
        place)
    ≡ "Engineering" ∷ []
unfolding create_access_bundle new_bundle bundles_for_place unique find_place find keep any includes
external_id_kept = refl
