-- ===== src/Core/Store/Creation.antt =====
-- The creation of a run and its gate: `createRun` of packages/core/src/store.ts. The readings of
-- the clock are a function of how many have been made.
pub mod Inputs
pub mod Outcomes
pub mod Gate
pub mod Runs
mod Tests
use bek.Common.{
  ℕ, suc, ◌+◌, ◌-◌, max, String, Bool, true, false, not, ◌&&◌, Option, none, some, List, [], ◌∷◌,
  or_else, find, if◌then◌else◌, ◌==◌, concat,
}
use bek.Common.Json.{Json, Fields}
use bek.Core.Types.{CapabilityKind, Decision, PlaceScope, AccessBundle}
use bek.Core.Policy.{
  utf16_length, PolicyRequest, PolicyDecision, capability_name, is_deny, bundles_for_place,
  evaluate_policy,
}
use bek.Core.Store.Types.{RunStatus, TriggerKind, Run, RunEventType, RunEvent, Store}
use bek.Core.Store.Settings.{
  capability_kind_for_capability, find_capability_profile, find_model_policy, find_runtime_profile,
  profile_ids, ProfileKind, CapabilityProfile, ModelPolicy, RuntimeProfile, Settings,
}
use bek.Core.Store.Approvals.{RunAdvanceMode, StoreOptions, create_run_event}
use bek.Core.Store.Payloads.{PayloadPlatform, create_approval_request, estimate_prompt_cost_cents}
use bek.Worker.Types.{ApprovalRequest}
use bek.Core.Store.Creation.Inputs.{
  ApprovalPayload, CreateRunError, CreateRunInput, Created, Progress, approval_payload_of,
  capability_field, is_inline, mode_name, model_policy_not_found, of_run, policy_decision_name,
  resource_field, returned, run_resource, runtime_profile_not_found, threw, unknown_place, value,
}

module _ (o : StoreOptions) (p : PayloadPlatform) (clock : ℕ → ℕ) where
  unfoldable pub log_event : RunEventType → String → Option Fields → Progress → Progress
  log_event type message data_fields x = record x {
    store = record x.store {
      events =
          create_run_event o x.store.org_id x.run.id type message data_fields (clock x.readings)
            x.store.next_id
          ∷ x.store.events;
      next_id = suc x.store.next_id;
    };
    readings = suc x.readings;
  }

  unfoldable pub new_run : Settings → CreateRunInput → ModelPolicy → RuntimeProfile → Store → Run
  new_run settings input policy profile s =
      let prompt = o.redactor.redact_secrets input.prompt in
      record {
        id = o.create_id "run" s.next_id;
        org_id = s.org_id;
        agent_id = settings.agent.id;
        requester_principal_id = or_else input.requester_principal_id "principal_bryson";
        place_scope_id = input.place_scope_id;
        trigger = or_else input.trigger TriggerKind.api;
        prompt = prompt;
        capability = input.capability;
        resource = run_resource input.resource;
        status = RunStatus.queued;
        model_policy_id = policy.id;
        runtime_profile_id = profile.id;
        estimated_cost_cents = estimate_prompt_cost_cents prompt policy.per_run_budget_cents;
        actual_cost_cents = 0;
        created_at = clock 0;
        updated_at = clock 0;
      }

  -- The policy denies the run.
  unfoldable pub refuse_run : CreateRunInput → CapabilityKind → PolicyDecision → Progress → Progress
  unfolding log_event
  refuse_run input capability decision x =
      log_event RunEventType.run_failed decision.reason
        (some (capability_field capability (resource_field input.resource Fields.end)))
        (record x { run = record x.run { status = RunStatus.failed } })

  unfoldable pub defer_run : CreateRunInput → CapabilityKind → RunAdvanceMode → Progress → Progress
  unfolding log_event
  defer_run input capability mode x =
      log_event RunEventType.run_status_changed
        "Policy requires approval; worker planning will prepare the approval payload."
        (some (
          Fields.field "advanceMode" (Json.str (mode_name mode))
            (capability_field capability (resource_field input.resource Fields.end))))
        x

  unfoldable pub hold_run : CreateRunInput → CapabilityKind → PolicyDecision → Progress → Progress
  unfolding log_event
  hold_run input capability decision x =
      let approval =
        create_approval_request o p x.store.org_id x.run.id x.run.requester_principal_id
          (capability_name capability) (approval_payload_of input capability x.run) decision.risk
          (clock x.readings) x.store.next_id in
      let message = concat ("Approval required for " ∷ capability_name capability ∷ "." ∷ []) in
      log_event RunEventType.approval_requested message
        (some (Fields.field "approvalId" (Json.str approval.id) Fields.end))
        (record {
          run = record x.run { status = RunStatus.awaiting_approval };
          store = record x.store {
            approvals = approval ∷ x.store.approvals;
            next_id = suc x.store.next_id;
          };
          readings = suc x.readings;
        })

  unfoldable pub start_run : RunAdvanceMode → Progress → Progress
  unfolding log_event
  start_run RunAdvanceMode.inline_stub x =
      log_event RunEventType.run_completed "Bek completed the local stub run." none (record x {
        run = record x.run {
          status = RunStatus.completed;
          actual_cost_cents = max 1 (x.run.estimated_cost_cents - 1);
        };
      })
  start_run RunAdvanceMode.worker x =
      log_event RunEventType.run_status_changed
        "Policy allowed the run; worker advancement is pending."
        (some (Fields.field "advanceMode" (Json.str (mode_name RunAdvanceMode.worker)) Fields.end))
        x

  -- The gate: what follows on the decision of the policy.
  unfoldable pub gate_run :
      CreateRunInput → CapabilityKind → RunAdvanceMode → PolicyDecision → Progress → Progress
  gate_run input capability mode decision x =
      let x' =
        log_event RunEventType.policy_evaluated decision.reason
          (some (
            Fields.field "decision" (Json.str (policy_decision_name decision.decision))
              (Fields.field "requiresApproval" (Json.bool decision.requires_approval) Fields.end)))
          x in
      if is_deny decision.decision
      then refuse_run input capability decision x'
      else if decision.requires_approval
      then if or_else input.defer_approval false && not (is_inline mode)
        then defer_run input capability mode x'
        else hold_run input capability decision x'
      else start_run mode x'

  -- The decision of the policy on a run in a place.
  abbrev pub decision_for : Settings → CreateRunInput → PlaceScope → CapabilityKind → PolicyDecision
  decision_for settings input place capability =
      evaluate_policy (bundles_for_place settings.access_bundles place) (record {
        place_scope_id = input.place_scope_id;
        capability = capability;
        resource = input.resource;
      })

  unfoldable pub gate_if_capable :
      Settings → CreateRunInput → PlaceScope → Option CapabilityKind → Progress → Progress
  gate_if_capable settings input place none x = x
  gate_if_capable settings input place (some capability) x =
      gate_run input capability (or_else input.advance_mode RunAdvanceMode.inline_stub)
        (decision_for settings input place capability) x

  -- The run is made and told of.
  unfoldable pub begin_run :
      Settings → CreateRunInput → ModelPolicy → RuntimeProfile → Store → Progress
  unfolding log_event new_run
  begin_run settings input policy profile s =
      let run = new_run settings input policy profile s in
      log_event RunEventType.run_created (concat ("Bek queued: " ∷ run.prompt ∷ [])) none
        (record { run = run; store = record s { next_id = suc s.next_id }; readings = 1 })

  -- `createRun` once everything is looked up. The run is the first of the store's.
  unfoldable pub create_run_in :
      Settings
      → CreateRunInput
      → ModelPolicy
      → RuntimeProfile
      → PlaceScope
      → Store
      → Created × Store
  create_run_in settings input policy profile place s =
      let begun = begin_run settings input policy profile s in
      let gated = gate_if_capable settings input place input.capability begun in
      let run' : Run = record gated.run { updated_at = clock gated.readings } in
      (returned run', record gated.store { runs = run' ∷ s.runs })

  unfoldable pub create_run : Settings → CreateRunInput → Store → Created × Store
  create_run settings input s =
      let kind = capability_kind_for_capability input.capability in
      let (policy_id, profile_id) =
        profile_ids settings (find_capability_profile settings s.org_id kind) in
      elim (find_model_policy settings policy_id) [
        | none ↦ (threw model_policy_not_found, s)
        | some policy ↦ elim (find_runtime_profile settings profile_id) as (λ _. Created × Store) [
          | none ↦ (threw runtime_profile_not_found, s)
          | some profile ↦
              elim (find (λ (place : PlaceScope). place.id == input.place_scope_id)
                settings.places) [
                  | none ↦ (threw unknown_place, s)
                  | some place ↦ create_run_in settings input policy profile place s
                ]
        ]
      ]
