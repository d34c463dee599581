-- ===== src/Core/Access/Asking.antt =====
-- What the policy asks for once access is administered: createGrant and updateGrant of
-- packages/core/src/store.ts with evaluatePolicy of packages/core/src/policy.ts.
use bek.Common.{
  ◌≡◌, sym, ap, ◌∙◌, inl, inr, ◌||◌, List, [], ◌∷◌, ◌++◌, All, All-keep, All-get_elem?, String, ℕ,
  arith,
}
use bek.Core.Types.{AccessBundle, PlaceScope}
use bek.Core.Policy.{PolicyRequest, is_ask, all_grants, bundles_for_place, evaluate_policy}
use bek.Core.Policy.Verdicts.{evaluate_policy_lem}
use bek.Core.Access.Types.{Access}
use bek.Core.Access.Sound.{IsCoherent, IsSound}
use bek.Core.Access.Kept.{AllSound}
use bek.Core.Access.Steps.{Steps, Steps-AllSound}

All-append : {A : Type 0} (P : A → Type 0) (xs ys : List A) → All P xs → All P ys → All P (xs ++ ys)
All-append P [] ys h k = k
All-append P (x ∷ xs) ys h k = (h.0, All-append P xs ys h.1 k)

all_grants-IsCoherent :
    (bundles : List AccessBundle) → All IsSound bundles → All IsCoherent (all_grants bundles)
unfolding all_grants
all_grants-IsCoherent [] h = tt
all_grants-IsCoherent (b ∷ bs) h =
    All-append IsCoherent b.grants _ h.0.coherent (all_grants-IsCoherent bs h.1)

evaluate_policy_asks :
    (bundles : List AccessBundle) (request : PolicyRequest)
    → All IsSound bundles
    → (evaluate_policy bundles request).requires_approval
      ≡ is_ask (evaluate_policy bundles request).decision
evaluate_policy_asks bundles request h = elim (evaluate_policy_lem bundles request) [
  | inl ungranted ↦ ungranted.unasked ∙ sym (ap is_ask ungranted.denies)
  | inr (inl denied) ↦ denied.unasked ∙ sym (ap is_ask denied.denies)
  | inr (inr allowed) ↦
      let coherent =
        All-get_elem? IsCoherent (all_grants bundles) allowed.granted.0
          (all_grants-IsCoherent bundles h) allowed.granted.1 in
      let same : (allowed.grant.requires_approval || is_ask allowed.grant.decision)
          ≡ is_ask allowed.grant.decision =
        ground (arith, coherent) in
      allowed.approval ∙ same ∙ sym (ap is_ask allowed.decides)
]

module _ (create_id : String → ℕ → String) where
  -- After every sequence of operations on access from a state whose bundles are sound, the policy
  -- requires an approval for a request in a place exactly where it decides to ask.
  pub Steps-asks :
      {s t : Access}
      → Steps create_id s t
      → AllSound s
      → (place : PlaceScope) (request : PolicyRequest)
      → (evaluate_policy (bundles_for_place t.bundles place) request).requires_approval
        ≡ is_ask (evaluate_policy (bundles_for_place t.bundles place) request).decision
  unfolding bundles_for_place
  Steps-asks {s} {t} steps h place request =
      evaluate_policy_asks (bundles_for_place t.bundles place) request
        (All-keep IsSound _ t.bundles (Steps-AllSound create_id steps h))
