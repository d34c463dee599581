-- ===== src/Core/Tests.antt =====
-- Policies and roles at concrete inputs: packages/core/src/policy.ts and packages/core/src/rbac.ts.
use bek.Common.{
  ◌<◌, ◌≡◌, ◌≢◌, refl, ◌⊎◌, inl, inr, true, false, some, String, List, [], ◌∷◌, ◌++◌, keep, any,
  find_index, find_from, sort_with, insert_with, eq_iff, arith,
}
use bek.Worker.Types.{RiskLevel}
use bek.Core.Types.{CapabilityKind, Decision, CapabilityGrant, AccessBundle}
use bek.Core.Policy.{
  utf16_length, PolicyRequest, resource_matches, specificity_score, all_grants, more_specific,
  matching_grants, decide_grants, evaluate_policy,
}
use bek.Core.Policy.Exact.{exact_grant-chosen}
use bek.Core.Policy.Verdicts.{IsGranted, IsUngranted, IsDenied, IsAllowed, evaluate_policy_lem}
use bek.Core.Policy.Overruling.{evaluate_policy-deny_stays}
use bek.Core.Rbac.{Role, role_has_scope, scopes_for_role}
use bek.Core.Rbac.Requests.{
  is_write, required_scope_for_request, may, scope_of_write, is_approval_decision,
  is_run_cancellation, is_action, is_operation, scope_of_config,
}
use bek.Core.Rbac.Roles.{IsDecision, IsWriting, may_write}

abbrev all_repos : CapabilityGrant
all_repos = record {
  id = "grant_1";
  capability = CapabilityKind.github_read;
  resource = "github:acme/*";
  decision = Decision.allow;
  risk = RiskLevel.read_internal;
  requires_approval = false;
}

abbrev one_repo : CapabilityGrant
one_repo = record all_repos {
  id = "grant_2";
  resource = "github:acme/web";
  decision = Decision.ask;
}

abbrev no_secrets : CapabilityGrant
no_secrets = record all_repos {
  id = "grant_3";
  resource = "github:acme/secrets";
  decision = Decision.deny;
}

abbrev bundle_of : List CapabilityGrant → AccessBundle
bundle_of grants = record {
  id = "bundle_1";
  org_id = "org_1";
  name = "Repositories";
  description = "";
  attached_place_ids = "place_1" ∷ [];
  grants = grants;
  budget_policy_id = "budget_1";
}

abbrev repositories : List AccessBundle
repositories = bundle_of (all_repos ∷ one_repo ∷ no_secrets ∷ []) ∷ []

abbrev reading : String → PolicyRequest
reading resource = record {
  place_scope_id = "place_1";
  capability = CapabilityKind.github_read;
  resource = some resource;
}

-- The exact grant is chosen before the wildcard, and asks.
web_asks :
    ((evaluate_policy repositories (reading "github:acme/web")).decision ≡ Decision.ask)
    × ((evaluate_policy repositories (reading "github:acme/web")).requires_approval ≡ true)
    × ((evaluate_policy repositories (reading "github:acme/web")).matching_grant ≡ some one_repo)
unfolding evaluate_policy matching_grants decide_grants all_grants more_specific specificity_score
    resource_matches keep sort_with insert_with find_index find_from
web_asks = (refl, refl, refl)

secrets_denied :
    (evaluate_policy repositories (reading "github:acme/secrets")).decision ≡ Decision.deny
unfolding evaluate_policy matching_grants decide_grants all_grants more_specific specificity_score
    resource_matches keep sort_with insert_with find_index find_from
secrets_denied = refl

evaluate_policy_lem_example :
    IsUngranted repositories
      (reading "github:acme/web")
      (evaluate_policy repositories (reading "github:acme/web"))
    ⊎ IsDenied repositories
        (reading "github:acme/web")
        (evaluate_policy repositories (reading "github:acme/web"))
    ⊎ IsAllowed repositories
        (reading "github:acme/web")
        (evaluate_policy repositories (reading "github:acme/web"))
evaluate_policy_lem_example = evaluate_policy_lem repositories (reading "github:acme/web")

no_secrets-IsGranted : IsGranted repositories no_secrets
unfolding all_grants
no_secrets-IsGranted = (2, refl)

secrets_asked : ◌≢◌ {A = String} "github:acme/secrets" ""
secrets_asked = ground (arith, eq_iff "github:acme/secrets" "")

evaluate_policy-deny_stays_example :
    (evaluate_policy
      (bundle_of (all_repos ∷ []) ∷ (repositories ++ bundle_of (one_repo ∷ []) ∷ []))
      (reading "github:acme/secrets")).decision
    ≡ Decision.deny
evaluate_policy-deny_stays_example =
    evaluate_policy-deny_stays (bundle_of (all_repos ∷ []) ∷ []) repositories
      (bundle_of (one_repo ∷ []) ∷ []) (reading "github:acme/secrets") no_secrets
      no_secrets-IsGranted (refl, inr (secrets_asked, inl refl)) refl

post_writes : IsWriting "post"
post_writes = inl refl

developer_starts :
    (may Role.developer "POST" "/api/runs" ≡ true)
    × (may Role.approver "POST" "/api/approvals/approval_1/approve" ≡ true)
    × (may Role.operator "PATCH" "/api/channels/C1" ≡ false)
unfolding may required_scope_for_request is_write scope_of_write is_approval_decision
    is_run_cancellation is_action any role_has_scope scopes_for_role is_operation scope_of_config
developer_starts = (refl, refl, refl)

may_write_example :
    (may Role.viewer "post" "/api/runs" ≡ false)
    × (may Role.billing_admin "post" "/api/runs" ≡ false)
    × (may Role.developer "post" "/api/runs" ≡ true → ◌≡◌ {A = String} "/api/runs" "/api/runs")
    × (may Role.approver "post" "/api/runs" ≡ true → IsDecision "/api/runs")
may_write_example = may_write "post" "/api/runs" post_writes refl

web_asked : ◌≢◌ {A = String} "github:acme/web" ""
web_asked = ground (arith, eq_iff "github:acme/web" "")

web_short : utf16_length "github:acme/web" < 999
web_short = omega arith

one_repo-IsGranted : IsGranted repositories one_repo
unfolding all_grants
one_repo-IsGranted = (1, refl)

web_not_denied : (evaluate_policy repositories (reading "github:acme/web")).decision ≢ Decision.deny
web_not_denied e = let k = web_asks.0 in ground (arith, k, e)

exact_grant-chosen_example :
    (chosen : CapabilityGrant) × ((evaluate_policy repositories
        (reading "github:acme/web")).matching_grant
      ≡ some chosen)
    × (chosen.resource ≡ "github:acme/web")
exact_grant-chosen_example =
    exact_grant-chosen repositories (reading "github:acme/web") "github:acme/web" one_repo refl
      web_asked web_short one_repo-IsGranted refl refl web_not_denied
