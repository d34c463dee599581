-- ===== src/Core/Policy.antt =====
-- The evaluation of access policies: packages/core/src/policy.ts.
pub mod Resources
pub mod Verdicts
pub mod Overruling
pub mod Exact
use Prim.Native.Char.{Char, code}
use text.Mathlib.Text.{starts_with}
use bek.Common.{
  ℕ, ◌+◌, String, Bool, true, false, ◌&&◌, ◌||◌, Option, none, some, List, [], ◌∷◌, ◌++◌, ltb, eqb,
  if◌then◌else◌, ◌==◌, concat, head?, keep, any, find_index, sort_with,
}
use bek.Worker.Types.{RiskLevel}
use bek.Core.Types.{CapabilityKind, Decision, PlaceScope, CapabilityGrant, AccessBundle}

pub record PolicyRequest : Type 0 where
  pub place_scope_id : String
  pub capability : CapabilityKind
  pub resource : Option String

pub record PolicyDecision : Type 0 where
  pub decision : Decision
  pub risk : RiskLevel
  pub requires_approval : Bool
  pub matching_grant : Option CapabilityGrant
  pub reason : String

abbrev pub capability_name : CapabilityKind → String
capability_name CapabilityKind.slack_read = "slack.read"
capability_name CapabilityKind.slack_write = "slack.write"
capability_name CapabilityKind.github_read = "github.read"
capability_name CapabilityKind.github_branch = "github.branch"
capability_name CapabilityKind.github_pr = "github.pr"
capability_name CapabilityKind.linear_read = "linear.read"
capability_name CapabilityKind.linear_write = "linear.write"
capability_name CapabilityKind.mcp_tool = "mcp.tool"
capability_name CapabilityKind.sandbox_exec = "sandbox.exec"
capability_name CapabilityKind.model_call = "model.call"

-- A capability by its position in the type.
abbrev pub capability_index : CapabilityKind → ℕ
capability_index CapabilityKind.slack_read = 0
capability_index CapabilityKind.slack_write = 1
capability_index CapabilityKind.github_read = 2
capability_index CapabilityKind.github_branch = 3
capability_index CapabilityKind.github_pr = 4
capability_index CapabilityKind.linear_read = 5
capability_index CapabilityKind.linear_write = 6
capability_index CapabilityKind.mcp_tool = 7
capability_index CapabilityKind.sandbox_exec = 8
capability_index CapabilityKind.model_call = 9

abbrev pub same_capability : CapabilityKind → CapabilityKind → Bool
same_capability a b = eqb (capability_index a) (capability_index b)

abbrev pub is_deny : Decision → Bool
is_deny Decision.deny = true
is_deny _ = false

abbrev pub is_ask : Decision → Bool
is_ask Decision.ask = true
is_ask _ = false

unfoldable pub bundles_for_place : List AccessBundle → PlaceScope → List AccessBundle
bundles_for_place bundles place =
    keep (λ bundle. any (λ id. id == place.id) bundle.attached_place_ids) bundles

-- `endsWith("*")` of a text that begins with `c`.
abbrev pub last_is_star : Char → String → Bool
last_is_star c String.[] = eqb (code c) 42
last_is_star c (String.◌∷◌ d s) = last_is_star d s

abbrev pub ends_with_star : String → Bool
ends_with_star String.[] = false
ends_with_star (String.◌∷◌ c s) = last_is_star c s

-- `slice(0, -1)` of a text that begins with `c`.
abbrev pub drop_last_from : Char → String → String
drop_last_from c String.[] = ""
drop_last_from c (String.◌∷◌ d s) = String.◌∷◌ c (drop_last_from d s)

abbrev pub drop_last : String → String
drop_last String.[] = ""
drop_last (String.◌∷◌ c s) = drop_last_from c s

-- The `length` of a text, in units of UTF-16.
abbrev pub utf16_length : String → ℕ
utf16_length String.[] = 0
utf16_length (String.◌∷◌ c s) = (if ltb (code c) 65536 then 1 else 2) + utf16_length s

-- The empty text is no resource.
unfoldable pub resource_matches : String → Option String → Bool
resource_matches grant_resource none = grant_resource == "*"
resource_matches grant_resource (some requested) =
    if requested == ""
    then grant_resource == "*"
    else if grant_resource == requested || grant_resource == "*"
    then true
    else if ends_with_star grant_resource
    then starts_with requested (drop_last grant_resource)
    else false

unfoldable pub specificity_score : String → Option String → ℕ
specificity_score grant_resource none = if grant_resource == "*" then 1 else 0
specificity_score grant_resource (some requested) =
    if requested == ""
    then if grant_resource == "*" then 1 else 0
    else if grant_resource == requested
    then 1000
    else if ends_with_star grant_resource
    then utf16_length grant_resource
    else if grant_resource == "*"
    then 1
    else 0

unfoldable pub all_grants : List AccessBundle → List CapabilityGrant
all_grants [] = []
all_grants (bundle ∷ bundles) = bundle.grants ++ all_grants bundles

-- The comparator of `evaluatePolicy` is negative.
unfoldable pub more_specific : Option String → CapabilityGrant → CapabilityGrant → Bool
more_specific resource a b =
    ltb (specificity_score b.resource resource) (specificity_score a.resource resource)

unfoldable pub matching_grants : List AccessBundle → PolicyRequest → List CapabilityGrant
unfolding all_grants more_specific
matching_grants bundles request = sort_with (more_specific request.resource) (
    keep (λ grant. resource_matches grant.resource request.resource)
      (keep (λ grant. same_capability grant.capability request.capability) (all_grants bundles)))

-- The decision of a list of matching grants, the most specific first.
unfoldable pub decide_grants : CapabilityKind → List CapabilityGrant → PolicyDecision
decide_grants capability [] = record {
  decision = Decision.deny;
  risk = RiskLevel.privileged;
  requires_approval = false;
  matching_grant = none;
  reason = concat ("No grant allows " ∷ capability_name capability ∷ " in this place." ∷ []);
}
decide_grants capability (first ∷ rest) =
    elim (find_index (λ (grant : CapabilityGrant). is_deny grant.decision) (first ∷ rest)) [
      | some (i, denying) ↦ record {
        decision = Decision.deny;
        risk = denying.risk;
        requires_approval = false;
        matching_grant = some denying;
        reason =
            concat (
              "Grant "
              ∷ denying.id
              ∷ " explicitly denies "
              ∷ capability_name capability
              ∷ "."
              ∷ []);
      }
      | none ↦ record {
        decision = first.decision;
        risk = first.risk;
        requires_approval = first.requires_approval || is_ask first.decision;
        matching_grant = some first;
        reason = concat (
            "Grant "
            ∷ first.id
            ∷ " allows "
            ∷ capability_name capability
            ∷ (if is_ask first.decision then " after approval." else ".")
            ∷ []);
      }
    ]

unfoldable pub evaluate_policy : List AccessBundle → PolicyRequest → PolicyDecision
unfolding matching_grants decide_grants
evaluate_policy bundles request = decide_grants request.capability (matching_grants bundles request)
