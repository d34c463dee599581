-- ===== src/Core/Access/Grants.antt =====
-- The operations on the grants of a bundle: packages/core/src/store.ts.
use bek.Common.{ℕ, suc, String, not, Option, none, some, ◌∷◌, set, keep, or_else, ◌==◌}
use bek.Core.Types.{CapabilityGrant, AccessBundle}
use bek.Core.Access.Types.{
  AccessError, Outcome, returned, threw, GrantMutationInput, GrantTerms, Access,
}
use bek.Core.Access.{normalize_grant_input, grant_with, find_bundle, find_grant, put_bundle}

-- The id of a grant that is made: the one given, or a new one.
abbrev pub new_grant_id : (String → ℕ → String) → Option String → Access → String
new_grant_id create_id id s = or_else id (create_id "grant" s.next_id)

-- The count of identifiers after it.
abbrev pub count_after : Option String → ℕ → ℕ
count_after none n = suc n
count_after (some id) n = n

unfoldable pub add_grant : String → GrantTerms → AccessBundle → AccessBundle
add_grant id terms bundle = record bundle { grants = grant_with id terms ∷ bundle.grants }

unfoldable pub change_grant : ℕ → CapabilityGrant → AccessBundle → AccessBundle
change_grant j grant bundle = record bundle { grants = set bundle.grants j grant }

unfoldable pub drop_grant : String → AccessBundle → AccessBundle
drop_grant id bundle = record bundle {
  grants = keep (λ (other : CapabilityGrant). not (other.id == id)) bundle.grants;
}

unfoldable pub create_grant :
    (String → ℕ → String)
    → String
    → Option String
    → GrantMutationInput
    → Access
    → Outcome CapabilityGrant × Access
unfolding add_grant
create_grant create_id bundle_id id input s = elim (find_bundle bundle_id s) [
  | none ↦ (threw AccessError.bundle_not_found, s)
  | some (i, bundle) ↦
      elim (normalize_grant_input bundle input none) as (λ _. Outcome CapabilityGrant × Access) [
        | threw e ↦ (threw e, s)
        | returned terms ↦
            let new_id = new_grant_id create_id id s in
            (
              returned (grant_with new_id terms),
              record (put_bundle i (add_grant new_id terms bundle) s) {
                next_id = count_after id s.next_id;
              },
            )
      ]
]

unfoldable pub update_grant :
    String → String → GrantMutationInput → Access → Outcome CapabilityGrant × Access
unfolding change_grant
update_grant bundle_id grant_id input s = elim (find_bundle bundle_id s) [
  | none ↦ (threw AccessError.bundle_not_found, s)
  | some (i, bundle) ↦
      elim (find_grant grant_id bundle) as (λ _. Outcome CapabilityGrant × Access) [
        | none ↦ (threw AccessError.grant_not_found, s)
        | some (j, grant) ↦
            elim (normalize_grant_input bundle input (some grant))
              as (λ _. Outcome CapabilityGrant × Access) [
                | threw e ↦ (threw e, s)
                | returned terms ↦
                    let grant' = grant_with grant.id terms in
                    (returned grant', put_bundle i (change_grant j grant' bundle) s)
              ]
      ]
]

unfoldable pub delete_grant : String → String → Access → Outcome CapabilityGrant × Access
unfolding drop_grant
delete_grant bundle_id grant_id s = elim (find_bundle bundle_id s) [
  | none ↦ (threw AccessError.bundle_not_found, s)
  | some (i, bundle) ↦
      elim (find_grant grant_id bundle) as (λ _. Outcome CapabilityGrant × Access) [
        | none ↦ (threw AccessError.grant_not_found, s)
        | some (j, grant) ↦ (returned grant, put_bundle i (drop_grant grant.id bundle) s)
      ]
]
