-- ===== src/Core/Policy/Overruling.antt =====
-- Further bundles and what `evaluatePolicy` of packages/core/src/policy.ts denies.
use bek.Common.{
  ◌≡◌, refl, sym, ap, ◌∙◌, inl, inr, List, [], ◌∷◌, ◌++◌, get_elem?-append, get_elem?-prepend,
}
use mathlib.Core.List.{append_assoc}
use bek.Core.Types.{Decision, CapabilityGrant, AccessBundle}
use bek.Core.Policy.{PolicyRequest, all_grants, evaluate_policy}
use bek.Core.Policy.Verdicts.{IsGranted, Applies, evaluate_policy_lem}

all_grants-append :
    (xs ys : List AccessBundle) → all_grants (xs ++ ys) ≡ all_grants xs ++ all_grants ys
unfolding all_grants
all_grants-append [] ys = refl
all_grants-append (b ∷ xs) ys =
    ap (λ gs. b.grants ++ gs) (all_grants-append xs ys)
    ∙ sym (append_assoc b.grants (all_grants xs) (all_grants ys))

among_more :
    (before bundles after : List AccessBundle) (g : CapabilityGrant)
    → IsGranted bundles g
    → IsGranted (before ++ (bundles ++ after)) g
among_more before bundles after g (i, at) =
    rw (all_grants-append before (bundles ++ after), all_grants-append bundles after)
      (get_elem?-prepend (all_grants before) (all_grants bundles ++ all_grants after) i
        (get_elem?-append (all_grants bundles) (all_grants after) i at))

-- A grant that denies a request is not overruled by further bundles, wherever they stand.
pub evaluate_policy-deny_stays :
    (before bundles after : List AccessBundle) (request : PolicyRequest) (grant : CapabilityGrant)
    → IsGranted bundles grant
    → Applies grant request
    → grant.decision ≡ Decision.deny
    → (evaluate_policy (before ++ (bundles ++ after)) request).decision ≡ Decision.deny
evaluate_policy-deny_stays before bundles after request grant at applies forbids =
    elim (evaluate_policy_lem (before ++ (bundles ++ after)) request) [
      | inl v ↦ v.denies
      | inr (inl v) ↦ v.denies
      | inr (inr v) ↦
          absurd (v.none_denies grant (among_more before bundles after grant at) applies forbids)
    ]
