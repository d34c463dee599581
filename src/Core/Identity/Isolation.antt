-- ===== src/Core/Identity/Isolation.antt =====
-- What an isolated identity may use: `resolveAgentIdentity` of packages/core/src/identity.ts.
use bek.Common.{
  ℕ, suc, ◌≡◌, refl, ◌⊎◌, inl, inr, true, false, Option, none, some, List, [], ◌∷◌, String,
  get_elem?, keep, includes_iff, Among, append-Among, keep-Among, unique-Among, arith,
}
use bek.Core.Types.{CapabilityGrant, AccessBundle}
use bek.Core.Policy.{all_grants}
use bek.Core.Identity.{
  identity_is_isolated, grants_for_bundle_ids, inherits_from_baseline, inherited, place_identity,
  baseline_of, resolve_found, resolve_agent_identity,
}
use bek.Core.Identity.Types.{
  AgentIdentityScope, AgentIdentityProfile, ResolvedAgentIdentity, ResolveAgentIdentityInput,
}

-- The grant is one of a bundle that the identity itself is given.
abbrev pub IsOwn : List AccessBundle → AgentIdentityProfile → CapabilityGrant → Type 0
IsOwn bundles identity grant =
    (bundle : AccessBundle) × Among bundle bundles
    × Among bundle.id identity.access_bundle_ids
    × Among grant bundle.grants

pub record IsApart (bundles : List AccessBundle) (r : ResolvedAgentIdentity) : Type 0 where
  pub isolated : r.isolated ≡ true
  pub no_baseline : r.baseline ≡ none
  pub own_bundles :
      (i : ℕ) {id : String}
      → get_elem? r.effective_bundle_ids i ≡ some id
      → Among id r.identity.access_bundle_ids
  pub own_grants :
      (i : ℕ) {grant : CapabilityGrant}
      → get_elem? r.effective_grants i ≡ some grant
      → IsOwn bundles r.identity grant

-- The identity is to share nothing with the workspace.
abbrev pub SharesNothing : AgentIdentityProfile → Type 0
SharesNothing identity =
    (identity.scope ≡ AgentIdentityScope.private_channel)
    ⊎ (identity.inherits_baseline ≡ some false)

all_grants-Among :
    (bundles : List AccessBundle) (i : ℕ) {grant : CapabilityGrant}
    → get_elem? (all_grants bundles) i ≡ some grant
    → (bundle : AccessBundle) × Among bundle bundles × Among grant bundle.grants
unfolding all_grants
all_grants-Among [] i at = absurd (ground arith)
all_grants-Among (b ∷ bs) i at = elim (append-Among b.grants (all_grants bs) i at) [
  | inl there ↦ (b, (0, refl), there)
  | inr (j, there) ↦
      let (bundle, (k, here), among) = all_grants-Among bs j there in (bundle, (suc k, here), among)
]

-- A grant of the bundles that are named is one of a bundle of that name.
pub grants_for_bundle_ids-Among :
    (bundles : List AccessBundle) (ids : List String) (i : ℕ) {grant : CapabilityGrant}
    → get_elem? (grants_for_bundle_ids bundles ids) i ≡ some grant
    → (bundle : AccessBundle) × Among bundle bundles
      × Among bundle.id ids
      × Among grant bundle.grants
unfolding grants_for_bundle_ids
grants_for_bundle_ids-Among bundles ids i at =
    let (bundle, (j, there), among) = all_grants-Among (keep _ bundles) i at in
    let (stands, named) = keep-Among _ bundles j there in
    (bundle, stands, (includes_iff ids bundle.id).0 named, among)

pub SharesNothing-isolated :
    (identity : AgentIdentityProfile)
    → SharesNothing identity
    → identity_is_isolated identity ≡ true
unfolding identity_is_isolated
SharesNothing-isolated identity (inl private) = rw private refl
SharesNothing-isolated identity (inr alone) = ground arith

inherited-isolated :
    (identity : AgentIdentityProfile) (baseline : Option AgentIdentityProfile)
    → identity_is_isolated identity ≡ true
    → inherited identity baseline ≡ none
unfolding inherited inherits_from_baseline
inherited-isolated identity baseline h = rw h refl

resolve_found-IsApart :
    (input : ResolveAgentIdentityInput) (identity : AgentIdentityProfile)
    (baseline : Option AgentIdentityProfile)
    → baseline ≡ none
    → identity_is_isolated identity ≡ true
    → IsApart input.access_bundles (resolve_found input identity baseline)
unfolding resolve_found
resolve_found-IsApart input identity (some b) e h = absurd (ground arith)
resolve_found-IsApart input identity none e h = record {
  isolated = h;
  no_baseline = refl;
  own_bundles = λ i at. unique-Among identity.access_bundle_ids i at;
  own_grants = λ i at.
      let (bundle, stands, (j, named), among) =
        grants_for_bundle_ids-Among input.access_bundles _ i at in
      (bundle, stands, unique-Among identity.access_bundle_ids j named, among);
}

-- A place whose identity is a private channel's, or inherits no baseline, is resolved as isolated:
-- no baseline comes with it, and every bundle and every grant that it may use is one of its own
-- identity.
pub resolve_agent_identity-IsApart :
    (input : ResolveAgentIdentityInput) (identity : AgentIdentityProfile)
    → place_identity input ≡ some identity
    → SharesNothing identity
    → ((resolve_agent_identity input).identity ≡ identity)
      × IsApart input.access_bundles (resolve_agent_identity input)
unfolding resolve_agent_identity
resolve_agent_identity-IsApart input identity found h =
    let alone = SharesNothing-isolated identity h in
    rw (found, resolve_agent_identity)
      (
        resolve_found_identity,
        resolve_found-IsApart input identity _ (inherited-isolated identity _ alone) alone,
      )
  where
    resolve_found_identity :
        (resolve_found input identity (inherited identity (baseline_of input))).identity ≡ identity
    resolve_found_identity = unfold resolve_found in refl
