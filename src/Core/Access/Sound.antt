-- ===== src/Core/Access/Sound.antt =====
-- Access that is sound, and what keeps it so: packages/core/src/store.ts.
use bek.Common.{
  ◌≡◌, ◌≢◌, sym, subst, inl, inr, Bool, Bool-cases, true, false, not, ◌&&◌, String, Option,
  Option-cases, any, All, Apart, arith,
}
use bek.Core.Types.{CapabilityKind, Decision, CapabilityGrant, AccessBundle}
use bek.Core.Policy.{is_ask}
use bek.Worker.Types.{RiskLevel}
use bek.Core.Access.Types.{Outcome, returned, threw, GrantMutationInput, GrantTerms}
use bek.Core.Access.Resources.{normalize_grant_resource}
use bek.Core.Access.{
  merge_terms, is_duplicate, check_grant_terms, normalize_merged, normalize_grant_input,
}

-- The grant requires an approval exactly where it asks for one.
abbrev pub IsCoherent : CapabilityGrant → Type 0
IsCoherent g = g.requires_approval ≡ is_ask g.decision

-- Grants of different ids are for different capabilities or resources.
pub record IsUnlike (g h : CapabilityGrant) : Type 0 where
  pub by_target : g.id ≢ h.id → ¬ ((g.capability ≡ h.capability) × (g.resource ≡ h.resource))

pub record IsSound (bundle : AccessBundle) : Type 0 where
  pub coherent : All IsCoherent bundle.grants
  pub apart : Apart IsUnlike bundle.grants

pub IsUnlike-swap : (g h : CapabilityGrant) → IsUnlike g h → IsUnlike h g
IsUnlike-swap g h u = record {
  by_target = λ differs (c, r). u.by_target (λ e. differs (sym e)) (sym c, sym r);
}

-- What the input is checked for.
pub record IsChecked (bundle : AccessBundle) (existing : Option CapabilityGrant)
    (terms : GrantTerms) : Type 0 where
  pub coherent : terms.requires_approval ≡ is_ask terms.decision
  pub single : any (is_duplicate existing terms.capability terms.resource) bundle.grants ≡ false

returned-inj : {A : Type 0} (x y : A) → returned x ≡ returned y → x ≡ y
returned-inj x y e = cc

coherent :
    (asks requires : Bool)
    → (asks && not requires) ≡ false
    → (not asks && requires) ≡ false
    → requires ≡ asks
coherent true requires h k = ground arith
coherent false requires h k = ground arith

check_grant_terms-IsChecked :
    (bundle : AccessBundle) (existing : Option CapabilityGrant) (capability : CapabilityKind)
    (decision : Decision) (risk : RiskLevel) (requires : Bool) (resource : Outcome String)
    (terms : GrantTerms)
    → check_grant_terms bundle existing capability decision risk requires resource ≡ returned terms
    → IsChecked bundle existing terms
unfolding check_grant_terms
check_grant_terms-IsChecked bundle existing capability decision risk requires (threw e) terms h =
    absurd (ground arith)
check_grant_terms-IsChecked bundle existing capability decision risk requires (returned resource)
      terms h =
    elim (Bool-cases (is_ask decision && not requires)) [
      | inl bare ↦ absurd (ground (arith, h))
      | inr asked ↦ elim (Bool-cases (not (is_ask decision) && requires)) [
        | inl unasked ↦ absurd (ground (arith, h))
        | inr matched ↦
            elim (Bool-cases (any (is_duplicate existing capability resource) bundle.grants)) [
              | inl taken ↦ absurd (ground (arith, h))
              | inr free ↦
                  let same = rw (asked, matched, free) at h in
                  let terms' : GrantTerms = record {
                    capability = capability;
                    resource = resource;
                    decision = decision;
                    risk = risk;
                    requires_approval = requires;
                  } in
                  subst (IsChecked bundle existing) (returned-inj terms' terms same) (record {
                    coherent = coherent (is_ask decision) requires asked matched;
                    single = free;
                  })
            ]
      ]
    ]

normalize_merged-IsChecked :
    (bundle : AccessBundle) (existing : Option CapabilityGrant) (m : GrantMutationInput)
    (terms : GrantTerms)
    → normalize_merged bundle existing m ≡ returned terms
    → IsChecked bundle existing terms
unfolding normalize_merged
normalize_merged-IsChecked bundle existing m terms h = elim (Option-cases m.capability) [
  | inl missing ↦ absurd (ground (arith, h, missing))
  | inr (c, has_c) ↦ elim (Option-cases m.decision) [
    | inl missing ↦ absurd (ground (arith, h, missing, has_c))
    | inr (d, has_d) ↦ elim (Option-cases m.risk) [
      | inl missing ↦ absurd (ground (arith, h, missing, has_c, has_d))
      | inr (r, has_r) ↦ elim (Option-cases m.requires_approval) [
        | inl missing ↦ absurd (ground (arith, h, missing, has_c, has_d, has_r))
        | inr (a, has_a) ↦
            check_grant_terms-IsChecked bundle existing c d r a
              (normalize_grant_resource c m.resource) terms (rw (has_c, has_d, has_r, has_a) at h)
      ]
    ]
  ]
]

pub normalize_grant_input-IsChecked :
    (bundle : AccessBundle) (input : GrantMutationInput) (existing : Option CapabilityGrant)
    (terms : GrantTerms)
    → normalize_grant_input bundle input existing ≡ returned terms
    → IsChecked bundle existing terms
unfolding normalize_grant_input
normalize_grant_input-IsChecked bundle input existing terms h =
    normalize_merged-IsChecked bundle existing (merge_terms input existing) terms h
