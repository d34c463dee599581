-- ===== src/Core/Policy/Verdicts.antt =====
-- What `evaluatePolicy` of packages/core/src/policy.ts decides.
use bek.Common.{
  ℕ, ◌≤◌, ◌≡◌, ◌≢◌, refl, sym, ap, ◌∙◌, subst, ◌⊎◌, inl, inr, Bool, true, false, ◌||◌, Option-cases,
  none, some, List, [], ◌∷◌, get_elem?, All, All-imp, All-keep, All-stand, All-get_elem?, All-both,
  if◌then◌else◌, All-of_keep, All-sort_with, All-of_sort_with, head-sort_with, keep, keep-passes,
  head?, find_index, find_index-some, find_index-none, arith, eqb,
}
use bek.Core.Types.{CapabilityKind, Decision, CapabilityGrant, AccessBundle}
use bek.Core.Policy.{
  PolicyRequest, PolicyDecision, capability_index, same_capability, is_deny, is_ask,
  resource_matches, specificity_score, all_grants, more_specific, matching_grants, decide_grants,
  evaluate_policy,
}
use bek.Core.Policy.Resources.{Covers, resource_matches-Covers, Covers-resource_matches}

-- The grant is for the capability that is asked for, and covers the resource.
abbrev pub Applies : CapabilityGrant → PolicyRequest → Type 0
Applies grant request =
    (grant.capability ≡ request.capability) × Covers grant.resource request.resource

-- The grant is one of a bundle's.
abbrev pub IsGranted : List AccessBundle → CapabilityGrant → Type 0
IsGranted bundles grant = (i : ℕ) × (get_elem? (all_grants bundles) i ≡ some grant)

pub record IsUngranted (bundles : List AccessBundle) (request : PolicyRequest) (d : PolicyDecision)
    : Type 0 where
  pub denies : d.decision ≡ Decision.deny
  pub by_none : d.matching_grant ≡ none
  pub unasked : d.requires_approval ≡ false
  pub none_applies : (grant : CapabilityGrant) → IsGranted bundles grant → ¬ Applies grant request

pub record IsDenied (bundles : List AccessBundle) (request : PolicyRequest) (d : PolicyDecision)
    : Type 0 where
  pub grant : CapabilityGrant
  pub granted : IsGranted bundles grant
  pub applies : Applies grant request
  pub forbids : grant.decision ≡ Decision.deny
  pub denies : d.decision ≡ Decision.deny
  pub by_grant : d.matching_grant ≡ some grant
  pub unasked : d.requires_approval ≡ false

pub record IsAllowed (bundles : List AccessBundle) (request : PolicyRequest) (d : PolicyDecision)
    : Type 0 where
  pub grant : CapabilityGrant
  pub granted : IsGranted bundles grant
  pub applies : Applies grant request
  pub by_grant : d.matching_grant ≡ some grant
  pub decides : d.decision ≡ grant.decision
  pub approval : d.requires_approval ≡ (grant.requires_approval || is_ask grant.decision)
  pub none_denies :
      (other : CapabilityGrant)
      → IsGranted bundles other
      → Applies other request
      → other.decision ≢ Decision.deny
  pub most_specific :
      (other : CapabilityGrant)
      → IsGranted bundles other
      → Applies other request
      → specificity_score other.resource request.resource
        ≤ specificity_score grant.resource request.resource

capability_at : ℕ → CapabilityKind
capability_at n =
    if eqb n 0
    then CapabilityKind.slack_read
    else if eqb n 1
    then CapabilityKind.slack_write
    else if eqb n 2
    then CapabilityKind.github_read
    else if eqb n 3
    then CapabilityKind.github_branch
    else if eqb n 4
    then CapabilityKind.github_pr
    else if eqb n 5
    then CapabilityKind.linear_read
    else if eqb n 6
    then CapabilityKind.linear_write
    else if eqb n 7
    then CapabilityKind.mcp_tool
    else if eqb n 8
    then CapabilityKind.sandbox_exec
    else CapabilityKind.model_call

capability_at-index : (c : CapabilityKind) → capability_at (capability_index c) ≡ c
unfolding capability_at
capability_at-index c = ground arith

same_capability-eq : (a b : CapabilityKind) → same_capability a b ≡ true → a ≡ b
same_capability-eq a b h =
    let e : capability_index a ≡ capability_index b = ground arith in
    sym (capability_at-index a) ∙ ap capability_at e ∙ capability_at-index b

pub same_capability_refl : (a : CapabilityKind) → same_capability a a ≡ true
same_capability_refl a = ground arith

module _ (bundles : List AccessBundle) (request : PolicyRequest) where
  abbrev grants : List CapabilityGrant
  grants = all_grants bundles

  abbrev is_capable : CapabilityGrant → Bool
  is_capable g = same_capability g.capability request.capability

  abbrev is_covering : CapabilityGrant → Bool
  is_covering g = resource_matches g.resource request.resource

  matching_grants-Applies :
      All (λ g. IsGranted bundles g × Applies g request) (matching_grants bundles request)
  unfolding matching_grants
  matching_grants-Applies = All-sort_with _ (more_specific request.resource) _ (
      All-imp _ _ pass (
        All-both _ _ _ (All-keep _ is_covering _ (All-keep _ is_capable grants (All-stand grants)))
          (All-both _ _ _ (All-keep _ is_covering _ (keep-passes is_capable grants))
            (keep-passes is_covering (keep is_capable grants)))))
    where
      pass :
          (g : CapabilityGrant)
          → IsGranted bundles g × ((is_capable g ≡ true) × (is_covering g ≡ true))
          → IsGranted bundles g × Applies g request
      pass g (at, (capable, covering)) = (
        at,
        (
          same_capability-eq _ _ capable,
          resource_matches-Covers g.resource request.resource covering,
        ),
      )

  -- What holds of all matching grants holds of all that apply.
  of_matching_grants :
      (P : CapabilityGrant → Type 0)
      → All P (matching_grants bundles request)
      → (g : CapabilityGrant) → IsGranted bundles g
      → Applies g request
      → P g
  unfolding matching_grants
  of_matching_grants P h g (i, at) (capable, covering) =
      let kept =
        All-of_keep is_covering P _ (All-of_sort_with P (more_specific request.resource) _ h) in
      let found = All-get_elem? _ grants i (All-of_keep is_capable _ grants kept) at in
      found (rw capable (same_capability_refl request.capability))
        (Covers-resource_matches g.resource request.resource covering)

  -- No grant that applies is more specific than the first of the matching ones.
  matching_grants-first :
      {first : CapabilityGrant}
      → head? (matching_grants bundles request) ≡ some first
      → (g : CapabilityGrant) → IsGranted bundles g
      → Applies g request
      → specificity_score g.resource request.resource
        ≤ specificity_score first.resource request.resource
  unfolding matching_grants more_specific
  matching_grants-first {first} e g (i, at) (capable, covering) =
      let least =
        head-sort_with (more_specific request.resource) (λ x. ground arith) (λ x y h. ground arith)
          (λ x y z h k. ground arith) _ e in
      let kept =
        All-of_keep is_covering (λ x. more_specific request.resource x first ≡ false) _ least in
      let found = All-get_elem? _ grants i (All-of_keep is_capable _ grants kept) at in
      let le =
        found (rw capable (same_capability_refl request.capability))
          (Covers-resource_matches g.resource request.resource covering) in
      ground arith

  is_deny-eq : (d : Decision) → is_deny d ≡ true → d ≡ Decision.deny
  is_deny-eq d h = ground arith

  not_deny : (d : Decision) → is_deny d ≡ false → d ≢ Decision.deny
  not_deny d h e = ground arith

  -- What a decision of the matching grants says of all grants.
  decide_grants-verdict :
      (ms : List CapabilityGrant)
      → matching_grants bundles request ≡ ms
      → IsUngranted bundles request (decide_grants request.capability ms)
        ⊎ IsDenied bundles request (decide_grants request.capability ms)
        ⊎ IsAllowed bundles request (decide_grants request.capability ms)
  unfolding decide_grants
  decide_grants-verdict [] e = inl (record {
    denies = refl;
    by_none = refl;
    unasked = refl;
    none_applies = λ g at h. of_matching_grants (λ _. ⊥) (rw e tt) g at h;
  })
  decide_grants-verdict (first ∷ rest) e =
      let all =
        subst (All (λ g. IsGranted bundles g × Applies g request)) e matching_grants-Applies in
      elim (Option-cases (find_index denying (first ∷ rest))) [
        | inr ((i, g), found) ↦
            let (at, denies) = find_index-some denying (first ∷ rest) i found in
            let (granted, applies) = All-get_elem? _ (first ∷ rest) i all at in
            rw (found, decide_grants)
              (inr (
                inl (record {
                  grant = g;
                  granted = granted;
                  applies = applies;
                  forbids = is_deny-eq g.decision denies;
                  denies = refl;
                  by_grant = refl;
                  unasked = refl;
                })))
        | inl out ↦
            let none_denies = find_index-none denying (first ∷ rest) out in
            rw (out, decide_grants)
              (inr (
                inr (record {
                  grant = first;
                  granted = all.0.0;
                  applies = all.0.1;
                  by_grant = refl;
                  decides = refl;
                  approval = refl;
                  none_denies = λ g at h. not_deny g.decision (
                      of_matching_grants (λ x. is_deny x.decision ≡ false) (rw e none_denies) g at
                        h);
                  most_specific = matching_grants-first {first = first} (rw e refl);
                })))
      ]
    where
      denying : CapabilityGrant → Bool
      denying grant = is_deny grant.decision

  -- A request is decided by the grants of the bundles that apply to it. Where none applies it is
  -- denied; where one that applies denies, it is denied by such a grant; otherwise it is decided
  -- as one of those says that no other is more specific than, and needs an approval if that one
  -- requires it or asks.
  pub evaluate_policy_lem :
      IsUngranted bundles request (evaluate_policy bundles request)
      ⊎ IsDenied bundles request (evaluate_policy bundles request)
      ⊎ IsAllowed bundles request (evaluate_policy bundles request)
  unfolding evaluate_policy
  evaluate_policy_lem = decide_grants-verdict (matching_grants bundles request) refl
