-- ===== src/Core/Access/Kept.antt =====
-- What each operation of the administration of access keeps sound: packages/core/src/store.ts.
use bek.Common.{
  ℕ, ◌≡◌, refl, ◌⊎◌, inl, inr, Bool-cases, Option, Option-cases, none, some, List, [], ◌∷◌, String,
  not, ◌||◌, ◌==◌, includes, map, any, get_elem?, All, All-set, All-get_elem?, find_index-some,
}
use bek.Core.Types.{CapabilityGrant, AccessBundle}
use bek.Core.Store.Types.{Run}
use bek.Core.Access.Types.{
  AccessError, Outcome, returned, threw, GrantMutationInput, CreateBundleInput, UpdateBundleInput,
  Access,
}
use bek.Core.Access.{find_bundle, find_place, find_grant, put_bundle, normalize_grant_input}
use bek.Core.Access.Bundles.{
  create_access_bundle, update_access_bundle, renamed_bundle, detached, change_places, delete_place,
  new_bundle, budget_for, is_unknown_budget, all_found,
}
use bek.Core.Access.Grants.{new_grant_id, create_grant, update_grant, delete_grant}
use bek.Core.Access.Sound.{IsSound, normalize_grant_input-IsChecked}
use bek.Core.Access.Changes.{add_grant-IsSound, change_grant-IsSound, drop_grant-IsSound}

abbrev pub AllSound : Access → Type 0
AllSound s = All IsSound s.bundles

found :
    (bundle_id : String) (s : Access) {i : ℕ} {bundle : AccessBundle}
    → find_bundle bundle_id s ≡ some (i, bundle)
    → get_elem? s.bundles i ≡ some bundle
unfolding find_bundle
found bundle_id s {i} e = (find_index-some _ s.bundles i e).0

found_grant :
    (grant_id : String) (bundle : AccessBundle) {j : ℕ} {grant : CapabilityGrant}
    → find_grant grant_id bundle ≡ some (j, grant)
    → get_elem? bundle.grants j ≡ some grant
unfolding find_grant
found_grant grant_id bundle {j} e = (find_index-some _ bundle.grants j e).0

Outcome-cases :
    {A : Type 0} (r : Outcome A)
    → ((e : AccessError) × (r ≡ threw e)) ⊎ ((x : A) × (r ≡ returned x))
Outcome-cases (threw e) = inl (e, refl)
Outcome-cases (returned x) = inr (x, refl)

-- What replaces a bundle that is found by one that is sound leaves all sound.
put_bundle-AllSound :
    (i : ℕ) (bundle : AccessBundle) (s : Access)
    → AllSound s
    → IsSound bundle
    → AllSound (put_bundle i bundle s)
unfolding put_bundle
put_bundle-AllSound i bundle s h b = All-set IsSound s.bundles i bundle h b

pub create_bundle-AllSound :
    (create_id : String → ℕ → String) (input : CreateBundleInput) (s : Access)
    → AllSound s
    → AllSound (create_access_bundle create_id input s).1
unfolding create_access_bundle new_bundle
create_bundle-AllSound create_id input s h =
    elim (Option-cases (budget_for input.budget_policy_id s.budget_policy_ids)) [
      | inl missing ↦ rw (missing, create_access_bundle) h
      | inr (id, given) ↦ elim (Bool-cases (id == "" || not (includes s.budget_policy_ids id))) [
        | inl unknown ↦ rw (given, unknown, create_access_bundle) h
        | inr known ↦
            elim (Bool-cases
              (not (all_found s (new_bundle create_id input id s).attached_place_ids))) [
                | inl lost ↦ rw (given, known, lost, create_access_bundle) h
                | inr all ↦
                    rw (given, known, all, create_access_bundle)
                      (record { coherent = tt; apart = tt }, h)
              ]
      ]
    ]

pub update_bundle-AllSound :
    (bundle_id : String) (input : UpdateBundleInput) (s : Access)
    → AllSound s
    → AllSound (update_access_bundle bundle_id input s).1
unfolding update_access_bundle renamed_bundle
update_bundle-AllSound bundle_id input s h = elim (Option-cases (find_bundle bundle_id s)) [
  | inl missing ↦ rw (missing, update_access_bundle) h
  | inr ((i, bundle), e) ↦
      let b = All-get_elem? IsSound s.bundles i h (found bundle_id s e) in
      elim (Bool-cases (is_unknown_budget input.budget_policy_id s.budget_policy_ids)) [
        | inl unknown ↦ rw (e, unknown, update_access_bundle) h
        | inr known ↦
            rw (e, known, update_access_bundle)
              (put_bundle-AllSound i _ s h (record { coherent = b.coherent; apart = b.apart }))
      ]
]

pub change_places-AllSound :
    (change : String → AccessBundle → AccessBundle)
    → ((place_id : String) (b : AccessBundle) → IsSound b → IsSound (change place_id b))
    → (bundle_id place_id : String) (s : Access) → AllSound s
    → AllSound (change_places change bundle_id place_id s).1
unfolding change_places
change_places-AllSound change keeps bundle_id place_id s h =
    elim (Option-cases (find_bundle bundle_id s)) [
      | inl missing ↦ rw (missing, change_places) h
      | inr ((i, bundle), e) ↦
          let b = All-get_elem? IsSound s.bundles i h (found bundle_id s e) in
          elim (Option-cases (find_place place_id s)) [
            | inl missing ↦ rw (e, missing, change_places) h
            | inr (place, p) ↦
                rw (e, p, change_places) (put_bundle-AllSound i _ s h (keeps place.id bundle b))
          ]
    ]

pub create_grant-AllSound :
    (create_id : String → ℕ → String) (bundle_id : String) (id : Option String)
    (input : GrantMutationInput) (s : Access)
    → AllSound s
    → AllSound (create_grant create_id bundle_id id input s).1
unfolding create_grant
create_grant-AllSound create_id bundle_id id input s h =
    elim (Option-cases (find_bundle bundle_id s)) [
      | inl missing ↦ rw (missing, create_grant) h
      | inr ((i, bundle), e) ↦
          let b = All-get_elem? IsSound s.bundles i h (found bundle_id s e) in
          elim (Outcome-cases (normalize_grant_input bundle input none)) [
            | inl (error, refused) ↦ rw (e, refused, create_grant) h
            | inr (terms, accepted) ↦
                rw (e, accepted, create_grant)
                  (put_bundle-AllSound i _ s h (
                    add_grant-IsSound (new_grant_id create_id id s) terms bundle
                      (normalize_grant_input-IsChecked bundle input none terms accepted) b))
          ]
    ]

pub update_grant-AllSound :
    (bundle_id grant_id : String) (input : GrantMutationInput) (s : Access)
    → AllSound s
    → AllSound (update_grant bundle_id grant_id input s).1
unfolding update_grant
update_grant-AllSound bundle_id grant_id input s h = elim (Option-cases (find_bundle bundle_id s)) [
  | inl missing ↦ rw (missing, update_grant) h
  | inr ((i, bundle), e) ↦ elim (Option-cases (find_grant grant_id bundle)) [
    | inl missing ↦ rw (e, missing, update_grant) h
    | inr ((j, grant), g) ↦
        let b = All-get_elem? IsSound s.bundles i h (found bundle_id s e) in
        elim (Outcome-cases (normalize_grant_input bundle input (some grant))) [
          | inl (error, refused) ↦ rw (e, g, refused, update_grant) h
          | inr (terms, accepted) ↦
              rw (e, g, accepted, update_grant)
                (put_bundle-AllSound i _ s h (
                  change_grant-IsSound j grant terms bundle (found_grant grant_id bundle g)
                    (normalize_grant_input-IsChecked bundle input (some grant) terms accepted) b))
        ]
  ]
]

pub delete_grant-AllSound :
    (bundle_id grant_id : String) (s : Access)
    → AllSound s
    → AllSound (delete_grant bundle_id grant_id s).1
unfolding delete_grant
delete_grant-AllSound bundle_id grant_id s h = elim (Option-cases (find_bundle bundle_id s)) [
  | inl missing ↦ rw (missing, delete_grant) h
  | inr ((i, bundle), e) ↦ elim (Option-cases (find_grant grant_id bundle)) [
    | inl missing ↦ rw (e, missing, delete_grant) h
    | inr ((j, grant), g) ↦
        let b = All-get_elem? IsSound s.bundles i h (found bundle_id s e) in
        rw (e, g, delete_grant) (put_bundle-AllSound i _ s h (drop_grant-IsSound grant.id bundle b))
  ]
]

detached-IsSound :
    (place_id : String) (bundles : List AccessBundle)
    → All IsSound bundles
    → All IsSound (map (detached place_id) bundles)
detached-IsSound place_id [] h = tt
detached-IsSound place_id (b ∷ bs) h =
    (record { coherent = h.0.coherent; apart = h.0.apart }, detached-IsSound place_id bs h.1)

pub delete_place-AllSound :
    (place_id : String) (s : Access) → AllSound s → AllSound (delete_place place_id s).1
unfolding delete_place
delete_place-AllSound place_id s h = elim (Option-cases (find_place place_id s)) [
  | inl missing ↦ rw (missing, delete_place) h
  | inr (place, e) ↦
      elim (Bool-cases (any (λ (run : Run). run.place_scope_id == place.id) s.runs)) [
        | inl used ↦ rw (e, used, delete_place) h
        | inr unused ↦ rw (e, unused, delete_place) (detached-IsSound place.id s.bundles h)
      ]
]
