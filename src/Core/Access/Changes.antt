-- ===== src/Core/Access/Changes.antt =====
-- What each operation on the grants of packages/core/src/store.ts keeps of a bundle that is sound.
use bek.Common.{
  ℕ, ◌≡◌, ◌≢◌, refl, sym, Bool-cases, true, false, String, Option, none, some, get_elem?, any-none,
  All-imp, inl, inr, All-keep, All-set, Apart-keep, Apart-set, ◌==◌, eq_iff, arith,
}
use bek.Core.Types.{CapabilityGrant, AccessBundle}
use bek.Core.Policy.{same_capability}
use bek.Core.Policy.Verdicts.{same_capability_refl}
use bek.Core.Access.Types.{GrantTerms}
use bek.Core.Access.{is_other, is_duplicate, grant_with}
use bek.Core.Access.Grants.{add_grant, change_grant, drop_grant}
use bek.Core.Access.Sound.{IsCoherent, IsUnlike, IsUnlike-swap, IsSound, IsChecked}

-- A grant that is no duplicate is for another capability or resource.
by_target_of :
    (existing : Option CapabilityGrant) (terms : GrantTerms) (g : CapabilityGrant)
    → is_duplicate existing terms.capability terms.resource g ≡ false
    → is_other existing g ≡ true
    → ¬ ((terms.capability ≡ g.capability) × (terms.resource ≡ g.resource))
by_target_of existing terms g single other (c, r) =
    let same_c : same_capability g.capability terms.capability ≡ true =
      rw c (same_capability_refl g.capability) in
    let same_r : (g.resource == terms.resource) ≡ true =
      (eq_iff g.resource terms.resource).1 (sym r) in
    absurd (ground (arith, single, other, same_c, same_r))

is_other_of : (grant g : CapabilityGrant) → grant.id ≢ g.id → is_other (some grant) g ≡ true
is_other_of grant g differs = elim (Bool-cases (g.id == grant.id)) [
  | inl same ↦ absurd (differs (sym ((eq_iff g.id grant.id).0 same)))
  | inr other ↦ rw other refl
]

pub add_grant-IsSound :
    (id : String) (terms : GrantTerms) (bundle : AccessBundle)
    → IsChecked bundle none terms
    → IsSound bundle
    → IsSound (add_grant id terms bundle)
unfolding add_grant
add_grant-IsSound id terms bundle checked sound = record {
  coherent = (checked.coherent, sound.coherent);
  apart = (
    All-imp _ bundle.grants
        (λ g single. record { by_target = λ _. by_target_of none terms g single refl })
        (any-none _ bundle.grants checked.single),
    sound.apart,
  );
}

pub change_grant-IsSound :
    (j : ℕ) (grant : CapabilityGrant) (terms : GrantTerms) (bundle : AccessBundle)
    → get_elem? bundle.grants j ≡ some grant
    → IsChecked bundle (some grant) terms
    → IsSound bundle
    → IsSound (change_grant j (grant_with grant.id terms) bundle)
unfolding change_grant
change_grant-IsSound j grant terms bundle at checked sound = record {
  coherent =
      All-set IsCoherent bundle.grants j (grant_with grant.id terms) sound.coherent
        checked.coherent;
  apart =
      Apart-set IsUnlike IsUnlike-swap bundle.grants j (grant_with grant.id terms) at
        (All-imp _ bundle.grants
          (λ g single old. record {
            by_target =
                λ differs. by_target_of (some grant) terms g single (is_other_of grant g differs);
          })
          (any-none _ bundle.grants checked.single))
        sound.apart;
}

pub drop_grant-IsSound :
    (id : String) (bundle : AccessBundle) → IsSound bundle → IsSound (drop_grant id bundle)
unfolding drop_grant
drop_grant-IsSound id bundle sound = record {
  coherent = All-keep IsCoherent _ bundle.grants sound.coherent;
  apart = Apart-keep IsUnlike _ bundle.grants sound.apart;
}
