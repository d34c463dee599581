-- ===== src/Core/Store/Creation/Tests.antt =====
-- The creation of a run at concrete inputs: `createRun` of packages/core/src/store.ts.
use bek.Common.{
  ℕ, ◌+◌, ◌≡◌, ◌⊎◌, refl, true, false, Option, none, some, List, [], ◌∷◌, concat, decimal, map,
  find, sort_with, keep, any, find_index,
}
use bek.Worker.Types.{RiskLevel}
use bek.Core.Types.{
  CapabilityKind, Decision, PlaceKind, PlaceProvider, Sensitivity, PlaceScope, CapabilityGrant,
  AccessBundle,
}
use bek.Core.Store.Types.{RunStatus, Run, Store}
use bek.Core.Store.Settings.{
  AgentStatus, RuntimeKind, Settings, find_capability_profile, find_model_policy,
  find_runtime_profile, capability_kind_for_capability,
}
use bek.Core.Store.Approvals.{RunAdvanceMode, StoreOptions}
use bek.Core.Store.Payloads.{PayloadPlatform}
use bek.Core.Store.Creation.{
  create_run, create_run_in, gate_if_capable, begin_run, new_run, log_event, gate_run, refuse_run,
  hold_run, start_run,
}
use bek.Core.Store.Creation.Inputs.{CreateRunInput, CreateRunError, threw}
use bek.Core.Policy.{evaluate_policy, bundles_for_place, resource_matches}
use bek.Core.Store.Creation.Outcomes.{IsMissing, IsCreated}
use bek.Core.Store.Creation.Runs.{create_run_lem}

abbrev options : StoreOptions
options = record {
  create_id = λ prefix n. concat (prefix ∷ "_" ∷ decimal n ∷ []);
  redactor = record { redact_secrets = λ s. s; is_sensitive_field_name = λ _. false };
}

abbrev platform : PayloadPlatform
platform = record {
  sha256_hex = λ s. s;
  text_of_string = λ s. s;
  text_of_number = decimal;
  locale_before = λ _ _. false;
}

abbrev clock : ℕ → ℕ
clock n = 100 + n

abbrev place : PlaceScope
place = record {
  id = "place_1";
  org_id = "org_1";
  kind = PlaceKind.slack_channel;
  provider = PlaceProvider.slack;
  external_id = "C1";
  name = "engineering";
  sensitivity = Sensitivity.internal;
  metadata = none;
}

abbrev branch_grant : CapabilityGrant
branch_grant = record {
  id = "grant_1";
  capability = CapabilityKind.github_branch;
  resource = "*";
  decision = Decision.allow;
  risk = RiskLevel.write_external;
  requires_approval = true;
}

abbrev read_grant : CapabilityGrant
read_grant = record branch_grant {
  id = "grant_2";
  capability = CapabilityKind.slack_read;
  requires_approval = false;
}

abbrev bundle : AccessBundle
bundle = record {
  id = "bundle_1";
  org_id = "org_1";
  name = "Engineering";
  description = "";
  attached_place_ids = "place_1" ∷ [];
  grants = branch_grant ∷ read_grant ∷ [];
  budget_policy_id = "budget_1";
}

abbrev settings : Settings
settings = record {
  agent = record {
    id = "agent_1";
    org_id = "org_1";
    principal_id = "principal_agent";
    name = "Bek";
    handle = "bek";
    description = "";
    status = AgentStatus.active;
    default_model_policy_id = "policy_1";
    default_runtime_profile_id = "profile_1";
  };
  capability_profiles = [];
  places = place ∷ [];
  access_bundles = bundle ∷ [];
  model_policies =
      record {
        id = "policy_1";
        org_id = "org_1";
        name = "Default";
        default_model = "model_1";
        fallback_models = [];
        per_run_budget_cents = 50;
      }
      ∷ [];
  runtime_profiles =
      record {
        id = "profile_1";
        org_id = "org_1";
        name = "Default";
        runtime_kind = RuntimeKind.ai_sdk;
        adapter = "ai-sdk";
      }
      ∷ [];
}

abbrev input : Option CapabilityKind → CreateRunInput
input capability = record {
  prompt = "Open a branch.";
  place_scope_id = "place_1";
  requester_principal_id = some "principal_1";
  trigger = none;
  capability = capability;
  resource = some "bek";
  advance_mode = some RunAdvanceMode.worker;
  approval_payload = none;
  defer_approval = none;
}

abbrev store : Store
store = record {
  org_id = "org_1";
  principals = [];
  runs = [];
  events = [];
  approvals = [];
  next_id = 1;
}

abbrev after : CapabilityKind → Store
after capability = (create_run options platform clock settings (input (some capability)) store).1

abbrev statuses : Store → List RunStatus
statuses s = map (λ (run : Run). run.status) s.runs

create_run_lem_example :
    ((e : CreateRunError) × (create_run options platform clock settings
          (input (some CapabilityKind.github_branch))
          store
        ≡ (threw e, store))
      × IsMissing settings (input (some CapabilityKind.github_branch)) store e)
    ⊎ IsCreated platform settings (input (some CapabilityKind.github_branch)) store (
        create_run options platform clock settings
          (input (some CapabilityKind.github_branch))
          store)
create_run_lem_example =
    create_run_lem options platform clock settings (input (some CapabilityKind.github_branch)) store

-- A grant that needs an approval holds the run, one that needs none lets it go on, and where there
-- is none it fails.
branch_read_model :
    map
      (λ capability. statuses (after capability))
      (CapabilityKind.github_branch ∷ CapabilityKind.slack_read ∷ CapabilityKind.model_call ∷ [])
    ≡ (RunStatus.awaiting_approval ∷ []) ∷ (RunStatus.queued ∷ []) ∷ (RunStatus.failed ∷ []) ∷ []
unfolding create_run create_run_in gate_if_capable begin_run new_run log_event gate_run refuse_run
    hold_run start_run evaluate_policy find_capability_profile find_model_policy
    find_runtime_profile capability_kind_for_capability find sort_with keep bundles_for_place any
    resource_matches find_index
branch_read_model = refl
