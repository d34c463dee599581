-- ===== src/Core/Access/Steps.antt =====
-- Access over every sequence of operations of its administration: packages/core/src/store.ts.
use bek.Common.{ℕ, Option, String}
use bek.Core.Access.Types.{GrantMutationInput, CreateBundleInput, UpdateBundleInput, Access}
use bek.Core.Access.Bundles.{
  create_access_bundle, update_access_bundle, attached, detached, attach_bundle_to_place,
  detach_bundle_from_place, delete_place,
}
use bek.Core.Access.Grants.{create_grant, update_grant, delete_grant}
use bek.Core.Access.Kept.{
  AllSound, create_bundle-AllSound, update_bundle-AllSound, change_places-AllSound,
  create_grant-AllSound, update_grant-AllSound, delete_grant-AllSound, delete_place-AllSound,
}

module _ (create_id : String → ℕ → String) where
  -- One operation, whether it returns or throws.
  pub data Step (s : Access) : Access → Type 0 where
    create_bundle : (input : CreateBundleInput) → Step s (create_access_bundle create_id input s).1
    update_bundle :
        (bundle_id : String) (input : UpdateBundleInput)
        → Step s (update_access_bundle bundle_id input s).1
    attach : (bundle_id place_id : String) → Step s (attach_bundle_to_place bundle_id place_id s).1
    detach :
        (bundle_id place_id : String) → Step s (detach_bundle_from_place bundle_id place_id s).1
    remove_place : (place_id : String) → Step s (delete_place place_id s).1
    grant :
        (bundle_id : String) (id : Option String) (input : GrantMutationInput)
        → Step s (create_grant create_id bundle_id id input s).1
    regrant :
        (bundle_id grant_id : String) (input : GrantMutationInput)
        → Step s (update_grant bundle_id grant_id input s).1
    revoke : (bundle_id grant_id : String) → Step s (delete_grant bundle_id grant_id s).1

  pub data Steps (s : Access) : Access → Type 0 where
    stay : Steps s s
    next : {t u : Access} → Steps s t → Step t u → Steps s u

  Step-AllSound : {s t : Access} → Step s t → AllSound s → AllSound t
  unfolding attach_bundle_to_place detach_bundle_from_place
  Step-AllSound {s} (create_bundle input) h = create_bundle-AllSound create_id input s h
  Step-AllSound {s} (update_bundle bundle_id input) h = update_bundle-AllSound bundle_id input s h
  Step-AllSound {s} (attach bundle_id place_id) h =
      change_places-AllSound attached
        (λ id b sound. record { coherent = sound.coherent; apart = sound.apart }) bundle_id place_id
        s h
  Step-AllSound {s} (detach bundle_id place_id) h =
      change_places-AllSound detached
        (λ id b sound. record { coherent = sound.coherent; apart = sound.apart }) bundle_id place_id
        s h
  Step-AllSound {s} (remove_place place_id) h = delete_place-AllSound place_id s h
  Step-AllSound {s} (grant bundle_id id input) h =
      create_grant-AllSound create_id bundle_id id input s h
  Step-AllSound {s} (regrant bundle_id grant_id input) h =
      update_grant-AllSound bundle_id grant_id input s h
  Step-AllSound {s} (revoke bundle_id grant_id) h = delete_grant-AllSound bundle_id grant_id s h

  -- Every sequence of operations on access, whether they return or throw, keeps bundles sound that
  -- are sound before it: each grant requires an approval exactly where it asks, and no two grants of a bundle with different
  -- ids are for one capability and one resource.
  pub Steps-AllSound : {s t : Access} → Steps s t → AllSound s → AllSound t
  Steps-AllSound stay h = h
  Steps-AllSound (next steps step) h = Step-AllSound step (Steps-AllSound steps h)
