-- ===== src/Core/Policy/Exact.antt =====
-- The grant of the exact resource goes before the wildcards: `specificityScore` of
-- packages/core/src/policy.ts.
use Prim.Native.String
use Prim.Native.String.append
use text.Mathlib.TextBridge.{IsPrefix}
use bek.Common.{
  ◌+◌, ◌<◌, ◌≤◌, String, ◌≡◌, ◌≢◌, sym, ap, ◌∙◌, inl, inr, Bool-cases, some, List, ◌==◌, eq_iff,
  arith,
}
use bek.Core.Types.{Decision, CapabilityGrant, AccessBundle}
use bek.Core.Policy.{PolicyRequest, utf16_length, specificity_score, evaluate_policy}
use bek.Core.Policy.Resources.{Covers}
use bek.Core.Policy.Verdicts.{IsGranted, evaluate_policy_lem}

utf16_length-append :
    (s t : String) → utf16_length (String.◌++◌ s t) ≡ utf16_length s + utf16_length t
utf16_length-append String.[] t = rw (append.nil t) (omega arith)
utf16_length-append (String.◌∷◌ c s) t =
    rw (append.cons c s t) (omega (arith, utf16_length-append s t))

-- A wildcard that covers a text is at most one unit longer.
wildcard_length :
    (grant p requested : String)
    → grant ≡ String.◌++◌ p "*"
    → IsPrefix p requested
    → utf16_length grant ≤ utf16_length requested + 1
wildcard_length grant p requested split (rest, e) =
    let whole : utf16_length requested ≡ utf16_length p + utf16_length rest =
      ap utf16_length (sym e) ∙ utf16_length-append p rest in
    let wild : utf16_length grant ≡ utf16_length p + 1 =
      ap utf16_length split ∙ utf16_length-append p "*" in
    omega (arith, whole, wild)

exact_score :
    (requested : String) → requested ≢ "" → specificity_score requested (some requested) ≡ 1000
unfolding specificity_score
exact_score requested asked = ground (arith, eq_iff requested "", eq_iff requested requested)

other_score :
    (grant requested : String)
    → requested ≢ ""
    → grant ≢ requested
    → utf16_length grant < 1000
    → specificity_score grant (some requested) < 1000
unfolding specificity_score
other_score grant requested asked other short =
    ground (arith, eq_iff requested "", eq_iff grant requested)

-- What covers a text of fewer than 999 units, and is as specific as the text itself, is the text.
covering_exact :
    (grant requested : String)
    → requested ≢ ""
    → utf16_length requested < 999
    → Covers grant (some requested)
    → specificity_score requested (some requested) ≤ specificity_score grant (some requested)
    → grant ≡ requested
covering_exact grant requested asked short (inl (missing, star)) le = absurd (asked missing)
covering_exact grant requested asked short (inr (_, inl exact)) le = exact
covering_exact grant requested asked short (inr (_, inr (p, split, begins))) le =
    elim (Bool-cases (grant == requested)) [
      | inl exact ↦ (eq_iff grant requested).0 exact
      | inr other ↦
          let ne : grant ≢ requested = λ e. ground (arith, eq_iff grant requested, e) in
          let fits : utf16_length grant < 1000 =
            omega (arith, wildcard_length grant p requested split begins) in
          absurd (
            omega
              (arith, exact_score requested asked, other_score grant requested asked ne fits, le))
    ]

-- A request for a resource of fewer than 999 units that is not denied is decided by a grant of
-- exactly that resource, if there is one for the capability, whatever wildcards cover it.
pub exact_grant-chosen :
    (bundles : List AccessBundle) (request : PolicyRequest) (requested : String)
    (grant : CapabilityGrant)
    → request.resource ≡ some requested
    → requested ≢ ""
    → utf16_length requested < 999
    → IsGranted bundles grant
    → grant.capability ≡ request.capability
    → grant.resource ≡ requested
    → (evaluate_policy bundles request).decision ≢ Decision.deny
    → (chosen : CapabilityGrant) × ((evaluate_policy bundles request).matching_grant ≡ some chosen)
      × (chosen.resource ≡ requested)
exact_grant-chosen bundles request requested grant for asked short at capable exact allowed =
    elim (evaluate_policy_lem bundles request) [
      | inl v ↦ absurd (allowed v.denies)
      | inr (inl v) ↦ absurd (allowed v.denies)
      | inr (inr v) ↦
          let covers : Covers grant.resource request.resource = rw for (inr (asked, inl exact)) in
          let le = v.most_specific grant at (capable, covers) in
          let chosen_covers : Covers v.grant.resource (some requested) = rw for at v.applies.1 in
          let le' : specificity_score requested (some requested)
              ≤ specificity_score v.grant.resource (some requested) =
            rw (for, exact) at le in
          (
            v.grant,
            v.by_grant,
            covering_exact v.grant.resource requested asked short chosen_covers le',
          )
    ]
