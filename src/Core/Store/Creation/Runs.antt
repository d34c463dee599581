-- ===== src/Core/Store/Creation/Runs.antt =====
-- The run that `createRun` of packages/core/src/store.ts creates.
use bek.Common.{ℕ, ◌≡◌, refl, ◌⊎◌, inl, inr, Bool, Option, Option-cases, none, some, find, ◌==◌}
use bek.Core.Types.{CapabilityKind, PlaceScope}
use bek.Core.Policy.{bundles_for_place}
use bek.Core.Store.Types.{RunStatus, Store}
use bek.Core.Store.Settings.{
  find_model_policy, find_runtime_profile, profile_ids, CapabilityProfile, ModelPolicy,
  RuntimeProfile, Settings,
}
use bek.Core.Store.Approvals.{StoreOptions}
use bek.Core.Store.Payloads.{PayloadPlatform}
use bek.Core.Store.Creation.{
  log_event, new_run, begin_run, gate_if_capable, create_run_in, create_run,
}
use bek.Core.Store.Creation.Inputs.{
  CreateRunInput, CreateRunError, model_policy_not_found, runtime_profile_not_found, unknown_place,
  threw, Progress,
}
use bek.Core.Store.Creation.Outcomes.{
  IsCreated, IsMissing, OutcomeOf, no_model_policy, no_place, no_runtime_profile, profile_for,
}
use bek.Core.Store.Creation.Gate.{gate_run-IsGated}

module _ (o : StoreOptions) (p : PayloadPlatform) (clock : ℕ → ℕ) where
  module _ (settings : Settings) (input : CreateRunInput) (s : Store) where
    gate_if_capable-OutcomeOf :
        (place : PlaceScope) (asked : Option CapabilityKind) (x : Progress)
        → x.run.status ≡ RunStatus.queued
        → record x.run { status = RunStatus.queued; updated_at = x.run.created_at } ≡ x.run
        → (now : ℕ)
        → OutcomeOf p
            (bundles_for_place settings.access_bundles place)
            input
            (record (gate_if_capable o p clock settings input place asked x).run {
              updated_at = now;
            })
            x.store.approvals
            (gate_if_capable o p clock settings input place asked x).store.approvals
            asked
    unfolding gate_if_capable
    gate_if_capable-OutcomeOf place none x queued fresh now = (queued, refl)
    gate_if_capable-OutcomeOf place (some capability) x queued fresh now =
        gate_run-IsGated o p clock (bundles_for_place settings.access_bundles place) input
          capability x queued fresh now

    create_run_in-IsCreated :
        (policy : ModelPolicy) (profile : RuntimeProfile) (place : PlaceScope)
        → find_model_policy settings (profile_ids settings (profile_for settings input s)).0
          ≡ some policy
        → find_runtime_profile settings (profile_ids settings (profile_for settings input s)).1
          ≡ some profile
        → find (λ (place : PlaceScope). place.id == input.place_scope_id) settings.places
          ≡ some place
        → IsCreated p settings input s
            (create_run_in o p clock settings input policy profile place s)
    unfolding create_run_in begin_run new_run log_event
    create_run_in-IsCreated policy profile place with_policy with_profile found = record {
      policy = policy;
      with_policy = with_policy;
      profile = profile;
      with_profile = with_profile;
      place = place;
      found = found;
      run = record after.run { updated_at = clock after.readings };
      returns = refl;
      first = refl;
      outcome =
          gate_if_capable-OutcomeOf place input.capability begun refl refl (clock after.readings);
    }
      where
        begun : Progress
        begun = begin_run o p clock settings input policy profile s

        after : Progress
        after = gate_if_capable o p clock settings input place input.capability begun

    -- A run is created unless the model policy, the runtime profile or the place is missing; then
    -- the store is left as it is. A run without a capability is queued. Where the policy denies it,
    -- it has failed. Where the policy asks for an approval, it is queued for the worker that is to
    -- prepare one, or awaits one that is now asked for, by its requester, with the hash of its
    -- payload and for half an hour. Otherwise it goes on, and a grant allows it that needs no
    -- approval, while no grant that applies denies it. No approval is asked for but in that one case.
    pub create_run_lem :
        ((e : CreateRunError) × (create_run o p clock settings input s ≡ (threw e, s))
          × IsMissing settings input s e)
        ⊎ IsCreated p settings input s (create_run o p clock settings input s)
    unfolding create_run
    create_run_lem =
        elim (Option-cases (find_model_policy settings (profile_ids settings found_profile).0)) [
          | inl missing ↦
              inl (model_policy_not_found, rw (create_run, missing) refl, no_model_policy missing)
          | inr (policy, with_policy) ↦
              elim (Option-cases
                (find_runtime_profile settings (profile_ids settings found_profile).1)) [
                  | inl missing ↦ inl (
                    runtime_profile_not_found,
                    rw (create_run, with_policy, missing) refl,
                    no_runtime_profile missing,
                  )
                  | inr (profile, with_profile) ↦
                      elim (Option-cases (find is_place settings.places)) [
                        | inl missing ↦ inl (
                          unknown_place,
                          rw (create_run, with_policy, with_profile, missing) refl,
                          no_place missing,
                        )
                        | inr (place, found) ↦
                            rw (create_run, with_policy, with_profile, found)
                              (inr (
                                create_run_in-IsCreated policy profile place with_policy
                                  with_profile found))
                      ]
                ]
        ]
      where
        found_profile : Option CapabilityProfile
        found_profile = profile_for settings input s

        is_place : PlaceScope → Bool
        is_place place = place.id == input.place_scope_id
