-- ===== src/Core/Access/Bundles.antt =====
-- The operations on access bundles: packages/core/src/store.ts.
use bek.Common.{
  ℕ, suc, String, Bool, true, false, not, ◌&&◌, ◌||◌, Option, none, some, List, [], ◌∷◌, ◌++◌, map,
  keep, any, or_else, if◌then◌else◌, ◌==◌, includes, unique, get_elem?,
}
use bek.Core.Types.{PlaceScope, AccessBundle}
use bek.Core.Store.Types.{Run}
use bek.Core.Access.Types.{
  AccessError, Outcome, returned, threw, CreateBundleInput, UpdateBundleInput, Access,
}
use bek.Core.Access.{find_place, find_bundle, put_bundle}

-- A text that is missing or empty leaves the old one.
abbrev pub text_or : Option String → String → String
text_or none old = old
text_or (some text) old = if text == "" then old else text

-- A budget policy that is given must be one of the snapshot's.
abbrev pub is_unknown_budget : Option String → List String → Bool
is_unknown_budget none ids = false
is_unknown_budget (some id) ids = not (id == "") && not (includes ids id)

-- `new Set(ids)`, every place of which is found.
abbrev pub all_found : Access → List String → Bool
all_found s [] = true
all_found s (id ∷ ids) = elim (find_place id s) [ none ↦ false | some place ↦ all_found s ids ]

-- The first budget policy of the snapshot stands for one that is not given.
abbrev pub budget_for : Option String → List String → Option String
budget_for (some id) ids = some id
budget_for none ids = get_elem? ids 0

module _ (create_id : String → ℕ → String) where
  unfoldable pub new_bundle : CreateBundleInput → String → Access → AccessBundle
  new_bundle input budget_policy_id s = record {
    id = create_id "bundle" s.next_id;
    org_id = s.org_id;
    name = input.name;
    description = input.description;
    attached_place_ids = unique (or_else input.attached_place_ids []);
    grants = [];
    budget_policy_id = budget_policy_id;
  }

  unfoldable pub create_access_bundle : CreateBundleInput → Access → Outcome AccessBundle × Access
  unfolding new_bundle
  create_access_bundle input s = elim (budget_for input.budget_policy_id s.budget_policy_ids) [
    | none ↦ (threw AccessError.budget_policy_not_found, s)
    | some id ↦
        let bundle = new_bundle input id s in
        if id == "" || not (includes s.budget_policy_ids id)
        then (threw AccessError.budget_policy_not_found, s)
        else if not (all_found s bundle.attached_place_ids)
        then (threw AccessError.place_not_found, s)
        else (returned bundle, record s { bundles = bundle ∷ s.bundles; next_id = suc s.next_id })
  ]

unfoldable pub renamed_bundle : UpdateBundleInput → AccessBundle → AccessBundle
renamed_bundle input bundle = record bundle {
  name = text_or input.name bundle.name;
  description = text_or input.description bundle.description;
  budget_policy_id = text_or input.budget_policy_id bundle.budget_policy_id;
}

unfoldable pub update_access_bundle :
    String → UpdateBundleInput → Access → Outcome AccessBundle × Access
unfolding renamed_bundle
update_access_bundle bundle_id input s = elim (find_bundle bundle_id s) [
  | none ↦ (threw AccessError.bundle_not_found, s)
  | some (i, bundle) ↦
      let bundle' = renamed_bundle input bundle in
      if is_unknown_budget input.budget_policy_id s.budget_policy_ids
      then (threw AccessError.budget_policy_not_found, s)
      else (returned bundle', put_bundle i bundle' s)
]

abbrev pub attached : String → AccessBundle → AccessBundle
attached place_id bundle = record bundle {
  attached_place_ids =
      if includes bundle.attached_place_ids place_id
      then bundle.attached_place_ids
      else bundle.attached_place_ids ++ place_id ∷ [];
}

abbrev pub detached : String → AccessBundle → AccessBundle
detached place_id bundle = record bundle {
  attached_place_ids = keep (λ id. not (id == place_id)) bundle.attached_place_ids;
}

-- What both operations do with the bundle and the place that they find.
unfoldable pub change_places :
    (String → AccessBundle → AccessBundle)
    → String
    → String
    → Access
    → Outcome AccessBundle × Access
change_places change bundle_id place_id s = elim (find_bundle bundle_id s) [
  | none ↦ (threw AccessError.bundle_not_found, s)
  | some (i, bundle) ↦ elim (find_place place_id s) as (λ _. Outcome AccessBundle × Access) [
    | none ↦ (threw AccessError.place_not_found, s)
    | some place ↦
        let bundle' = change place.id bundle in (returned bundle', put_bundle i bundle' s)
  ]
]

unfoldable pub attach_bundle_to_place : String → String → Access → Outcome AccessBundle × Access
unfolding change_places
attach_bundle_to_place = change_places attached

unfoldable pub detach_bundle_from_place : String → String → Access → Outcome AccessBundle × Access
unfolding change_places
detach_bundle_from_place = change_places detached

unfoldable pub delete_place : String → Access → Outcome PlaceScope × Access
delete_place place_id s = elim (find_place place_id s) [
  | none ↦ (threw AccessError.place_not_found, s)
  | some place ↦
      if any (λ (run : Run). run.place_scope_id == place.id) s.runs
      then (threw AccessError.place_has_runs, s)
      else (
        returned place,
        record s {
          bundles = map (detached place.id) s.bundles;
          places = keep (λ (other : PlaceScope). not (other.id == place.id)) s.places;
        },
      )
]
