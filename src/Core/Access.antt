-- ===== src/Core/Access.antt =====
-- The administration of access bundles and their grants: packages/core/src/store.ts. An operation
-- returns its outcome with the new state, which is the old one where it throws.
pub mod Types
pub mod Resources
pub mod Bundles
pub mod Grants
pub mod Sound
pub mod Changes
pub mod Kept
pub mod Steps
pub mod Asking
mod Tests
use bek.Common.{
  ℕ, suc, String, Bool, true, false, not, ◌&&◌, ◌||◌, Option, none, some, List, [], ◌∷◌, ◌++◌, set,
  map, keep, any, find, find_index, or_else, if◌then◌else◌, ◌==◌, includes, unique,
}
use bek.Core.Types.{CapabilityKind, Decision, PlaceScope, CapabilityGrant, AccessBundle}
use bek.Core.Policy.{same_capability, is_ask}
use bek.Core.Store.Types.{Run}
use bek.Worker.Types.{RiskLevel}
use bek.Core.Access.Types.{
  AccessError, Outcome, returned, threw, GrantMutationInput, GrantTerms, CreateBundleInput,
  UpdateBundleInput, Access,
}
use bek.Core.Access.Resources.{normalize_grant_resource}

-- `input.x ?? existing?.x`
abbrev pub given_or {ℓ} : {A : Type ℓ} → Option A → Option A → Option A
given_or (some x) y = some x
given_or none y = y

abbrev pub terms_of : CapabilityGrant → GrantMutationInput
terms_of g = record {
  capability = some g.capability;
  resource = some g.resource;
  decision = some g.decision;
  risk = some g.risk;
  requires_approval = some g.requires_approval;
}

-- What is given, and for the rest what the grant has.
abbrev pub merge_terms : GrantMutationInput → Option CapabilityGrant → GrantMutationInput
merge_terms input none = input
merge_terms input (some existing) =
    let old = terms_of existing in
    record {
      capability = given_or input.capability old.capability;
      resource = given_or input.resource old.resource;
      decision = given_or input.decision old.decision;
      risk = given_or input.risk old.risk;
      requires_approval = given_or input.requires_approval old.requires_approval;
    }

abbrev pub is_other : Option CapabilityGrant → CapabilityGrant → Bool
is_other none grant = true
is_other (some existing) grant = not (grant.id == existing.id)

-- Another grant of the bundle is for the same capability and resource.
abbrev pub is_duplicate : Option CapabilityGrant → CapabilityKind → String → CapabilityGrant → Bool
is_duplicate existing capability resource grant =
    is_other existing grant
    && same_capability grant.capability capability
    && grant.resource == resource

unfoldable pub check_grant_terms :
    AccessBundle
    → Option CapabilityGrant
    → CapabilityKind
    → Decision
    → RiskLevel
    → Bool
    → Outcome String
    → Outcome GrantTerms
check_grant_terms bundle existing capability decision risk requires_approval (threw e) = threw e
check_grant_terms bundle existing capability decision risk requires_approval (returned resource) =
    if is_ask decision && not requires_approval
    then threw AccessError.ask_without_approval
    else if not (is_ask decision) && requires_approval
    then threw AccessError.approval_without_ask
    else if any (is_duplicate existing capability resource) bundle.grants
    then threw AccessError.duplicate_grant
    else returned (record {
      capability = capability;
      resource = resource;
      decision = decision;
      risk = risk;
      requires_approval = requires_approval;
    })

unfoldable pub normalize_merged :
    AccessBundle → Option CapabilityGrant → GrantMutationInput → Outcome GrantTerms
normalize_merged bundle existing m = elim m.capability [
  | none ↦ threw AccessError.capability_required
  | some capability ↦ elim m.decision [
    | none ↦ threw AccessError.decision_required
    | some decision ↦ elim m.risk [
      | none ↦ threw AccessError.risk_required
      | some risk ↦ elim m.requires_approval [
        | none ↦ threw AccessError.approval_requirement_required
        | some requires_approval ↦
            check_grant_terms bundle existing capability decision risk requires_approval
              (normalize_grant_resource capability m.resource)
      ]
    ]
  ]
]

unfoldable pub normalize_grant_input :
    AccessBundle → GrantMutationInput → Option CapabilityGrant → Outcome GrantTerms
unfolding normalize_merged
normalize_grant_input bundle input existing =
    normalize_merged bundle existing (merge_terms input existing)

abbrev pub grant_with : String → GrantTerms → CapabilityGrant
grant_with id terms = record {
  id = id;
  capability = terms.capability;
  resource = terms.resource;
  decision = terms.decision;
  risk = terms.risk;
  requires_approval = terms.requires_approval;
}

unfoldable pub find_place : String → Access → Option PlaceScope
find_place place_id s =
    find (λ (place : PlaceScope). place.id == place_id || place.external_id == place_id) s.places

unfoldable pub find_bundle : String → Access → Option (ℕ × AccessBundle)
find_bundle bundle_id s = find_index (λ (bundle : AccessBundle). bundle.id == bundle_id) s.bundles

unfoldable pub find_grant : String → AccessBundle → Option (ℕ × CapabilityGrant)
find_grant grant_id bundle =
    find_index (λ (grant : CapabilityGrant). grant.id == grant_id) bundle.grants

unfoldable pub put_bundle : ℕ → AccessBundle → Access → Access
put_bundle i bundle s = record s { bundles = set s.bundles i bundle }
