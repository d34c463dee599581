-- ===== src/Core/Store/Creation/Outcomes.antt =====
-- What becomes of a run that is created: the outcomes of `createRun` in
-- packages/core/src/store.ts.
use bek.Common.{
  ◌+◌, ◌*◌, ◌≡◌, ◌≢◌, ◌⊎◌, true, false, Option, none, some, List, ◌∷◌, find, or_else, ◌==◌,
}
use bek.Core.Types.{CapabilityKind, Decision, PlaceScope, CapabilityGrant, AccessBundle}
use bek.Core.Policy.{PolicyRequest, capability_name, bundles_for_place, evaluate_policy}
use bek.Core.Policy.Verdicts.{Applies, IsGranted, IsUngranted, IsDenied, IsAllowed}
use bek.Core.Store.Types.{RunStatus, Run, Store}
use bek.Core.Store.Settings.{
  ModelPolicy, RuntimeProfile, find_capability_profile, find_model_policy, find_runtime_profile,
  capability_kind_for_capability, profile_ids, CapabilityProfile, Settings,
}
use bek.Core.Store.Approvals.{RunAdvanceMode}
use bek.Core.Store.Payloads.{PayloadPlatform, hash_payload}
use bek.Core.Store.Creation.Inputs.{
  CreateRunInput, CreateRunError, model_policy_not_found, runtime_profile_not_found, unknown_place,
  Created, returned, approval_payload_of,
}
use bek.Worker.Types.{ApprovalStatus, ApprovalRequest}

-- The capability profile of the run.
abbrev pub profile_for : Settings → CreateRunInput → Store → Option CapabilityProfile
profile_for settings input s =
    find_capability_profile settings s.org_id (capability_kind_for_capability input.capability)

abbrev pub mode_of : CreateRunInput → RunAdvanceMode
mode_of input = or_else input.advance_mode RunAdvanceMode.inline_stub

-- What is asked of the policy.
abbrev pub policy_request : CreateRunInput → CapabilityKind → PolicyRequest
policy_request input capability = record {
  place_scope_id = input.place_scope_id;
  capability = capability;
  resource = input.resource;
}

-- The run has failed, for the policy denies it.
pub record IsRefused (bundles : List AccessBundle) (request : PolicyRequest) (run : Run)
    (before after : List ApprovalRequest) : Type 0 where
  pub forbidden :
      IsUngranted bundles request (evaluate_policy bundles request)
      ⊎ IsDenied bundles request (evaluate_policy bundles request)
  pub failed : run.status ≡ RunStatus.failed
  pub unasked : after ≡ before

-- The policy asks for an approval, which a worker is to prepare.
pub record IsDeferred (bundles : List AccessBundle) (request : PolicyRequest)
    (input : CreateRunInput) (run : Run) (before after : List ApprovalRequest) : Type 0 where
  pub allowed : IsAllowed bundles request (evaluate_policy bundles request)
  pub guarded : (evaluate_policy bundles request).requires_approval ≡ true
  pub deferred : input.defer_approval ≡ some true
  pub by_worker : input.advance_mode ≡ some RunAdvanceMode.worker
  pub queued : run.status ≡ RunStatus.queued
  pub unasked : after ≡ before

-- The run awaits an approval that is asked for.
pub record IsHeld (p : PayloadPlatform) (bundles : List AccessBundle) (request : PolicyRequest)
    (input : CreateRunInput) (run : Run) (before after : List ApprovalRequest) : Type 0 where
  pub allowed : IsAllowed bundles request (evaluate_policy bundles request)
  pub guarded : (evaluate_policy bundles request).requires_approval ≡ true
  pub awaiting : run.status ≡ RunStatus.awaiting_approval
  pub approval : ApprovalRequest
  pub asked : after ≡ approval ∷ before
  pub pending : approval.status ≡ ApprovalStatus.pending
  pub of_run : approval.run_id ≡ run.id
  pub by_requester : approval.requested_by_principal_id ≡ run.requester_principal_id
  pub action : approval.action ≡ capability_name request.capability
  pub risk : approval.risk ≡ (evaluate_policy bundles request).risk
  pub undecided : approval.decided_by_principal_id ≡ none
  pub expiry : approval.expires_at ≡ approval.created_at + 30 * 60 * 1000
  pub payload :
      approval.payload_hash
      ≡ hash_payload p (
          approval_payload_of input request.capability
            (record run { status = RunStatus.queued; updated_at = run.created_at }))

-- The run goes on: a grant allows it without an approval, and none denies it.
pub record IsStarted (bundles : List AccessBundle) (request : PolicyRequest)
    (input : CreateRunInput) (run : Run) (before after : List ApprovalRequest) : Type 0 where
  pub grant : CapabilityGrant
  pub granted : IsGranted bundles grant
  pub applies : Applies grant request
  pub allows : grant.decision ≡ Decision.allow
  pub unguarded : grant.requires_approval ≡ false
  pub none_denies :
      (other : CapabilityGrant)
      → IsGranted bundles other
      → Applies other request
      → other.decision ≢ Decision.deny
  pub unasked : after ≡ before
  pub started :
      ((mode_of input ≡ RunAdvanceMode.worker) × (run.status ≡ RunStatus.queued))
      ⊎ ((mode_of input ≡ RunAdvanceMode.inline_stub) × (run.status ≡ RunStatus.completed))

-- What the gate makes of the run.
abbrev pub IsGated :
    PayloadPlatform
    → List AccessBundle
    → PolicyRequest
    → CreateRunInput
    → Run
    → List ApprovalRequest
    → List ApprovalRequest
    → Type 0
IsGated p bundles request input run before after =
    IsRefused bundles request run before after
    ⊎ IsDeferred bundles request input run before after
    ⊎ IsHeld p bundles request input run before after
    ⊎ IsStarted bundles request input run before after

-- A run without a capability is queued, and no approval is asked for.
abbrev pub OutcomeOf :
    PayloadPlatform
    → List AccessBundle
    → CreateRunInput
    → Run
    → List ApprovalRequest
    → List ApprovalRequest
    → Option CapabilityKind
    → Type 0
OutcomeOf p bundles input run before after none = (run.status ≡ RunStatus.queued) × (after ≡ before)
OutcomeOf p bundles input run before after (some capability) =
    IsGated p bundles (policy_request input capability) input run before after

-- The run of the store that is created, after every look-up.
pub record IsCreated (p : PayloadPlatform) (settings : Settings) (input : CreateRunInput)
    (s : Store) (result : Created × Store) : Type 0 where
  pub policy : ModelPolicy
  pub with_policy :
      find_model_policy settings (profile_ids settings (profile_for settings input s)).0
      ≡ some policy
  pub profile : RuntimeProfile
  pub with_profile :
      find_runtime_profile settings (profile_ids settings (profile_for settings input s)).1
      ≡ some profile
  pub place : PlaceScope
  pub found :
      find (λ (place : PlaceScope). place.id == input.place_scope_id) settings.places ≡ some place
  pub run : Run
  pub returns : result.0 ≡ returned run
  pub first : result.1.runs ≡ run ∷ s.runs
  pub outcome :
      OutcomeOf p
        (bundles_for_place settings.access_bundles place)
        input
        run
        s.approvals
        result.1.approvals
        input.capability

-- A look-up of `createRun` finds nothing.
pub data IsMissing (settings : Settings) (input : CreateRunInput) (s : Store)
    : CreateRunError → Type 0 where
  no_model_policy :
      find_model_policy settings (profile_ids settings (profile_for settings input s)).0 ≡ none
      → IsMissing settings input s model_policy_not_found
  no_runtime_profile :
      find_runtime_profile settings (profile_ids settings (profile_for settings input s)).1 ≡ none
      → IsMissing settings input s runtime_profile_not_found
  no_place :
      find (λ (place : PlaceScope). place.id == input.place_scope_id) settings.places ≡ none
      → IsMissing settings input s unknown_place
