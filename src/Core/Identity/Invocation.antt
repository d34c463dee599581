-- ===== src/Core/Identity/Invocation.antt =====
-- Who may invoke the agent: `canInvokeAgent` of packages/core/src/identity.ts.
use bek.Common.{
  ℕ, ◌≡◌, ◌≢◌, refl, ◌↔◌, inl, inr, Bool, Bool-cases, true, false, not, ◌&&◌, Option, Option-cases,
  none, some, List, [], ◌∷◌, String, get_elem?, any, any-Among, Among-any, or_else, includes_iff,
  Among, ◌==◌, eq_iff, arith,
}
use bek.Core.Store.Types.{Principal}
use bek.Core.Identity.{
  InvocationDecision, InvocationCheckInput, is_binding_disabled, inherited, is_baseline_enabled,
  place_identity, baseline_of, resolve_found, resolve_none, resolve_agent_identity, invoke_enabled,
  can_invoke_agent,
}
use bek.Core.Identity.Types.{
  AgentIdentityProfile, AgentIdentityBinding, ResolvedAgentIdentity, ResolveAgentIdentityInput,
}

-- The bindings of an identity to the place are enabled.
abbrev pub IsBound : ResolveAgentIdentityInput → AgentIdentityProfile → Type 0
IsBound input identity =
    (j : ℕ) (binding : AgentIdentityBinding)
    → get_elem? (or_else input.bindings []) j ≡ some binding
    → binding.place_id ≡ input.place.id
    → binding.identity_id ≡ identity.id
    → binding.enabled ≡ true

-- An allowlist, where there is one, names the principal; otherwise it is a member of the place.
abbrev pub Permits : List String → Principal → Option Bool → Type 0
Permits [] principal member = member ≢ some false
Permits (p ∷ ps) principal member = Among principal.id (p ∷ ps)

pub record MayInvoke (input : ResolveAgentIdentityInput) (principal : Principal)
    (member : Option Bool) : Type 0 where
  pub identity : AgentIdentityProfile
  pub found : place_identity input ≡ some identity
  pub enabled : identity.enabled ≡ true
  pub baseline_enabled :
      (b : AgentIdentityProfile)
      → inherited identity (baseline_of input) ≡ some b
      → b.enabled ≡ true
  pub bound : IsBound input identity
  pub permits : Permits (or_else identity.invocation_allowlist_principal_ids []) principal member

abbrev check_of : ResolvedAgentIdentity → Principal → Option Bool → InvocationCheckInput
check_of r principal member = record {
  resolved = r;
  principal = principal;
  is_place_member = member;
}

IsBound-iff :
    (input : ResolveAgentIdentityInput) (identity : AgentIdentityProfile)
    → (is_binding_disabled input identity ≡ false) ↔ IsBound input identity
unfolding is_binding_disabled
IsBound-iff input identity = (
  λ h j binding at place named. elim (Bool-cases binding.enabled) [
    | inl on ↦ on
    | inr off ↦
        let hit = Among-any disables (or_else input.bindings []) j at (
          ground (
            arith,
            eq_iff binding.place_id input.place.id,
            eq_iff binding.identity_id identity.id,
          )) in
        absurd (cc (hit, h))
  ],
  λ bound. elim (Bool-cases (any disables (or_else input.bindings []))) [
    | inr none_of ↦ none_of
    | inl hit ↦
        let (binding, (j, at), off) = any-Among disables (or_else input.bindings []) hit in
        let on =
          bound j binding at ((eq_iff _ _).0 (ground arith)) ((eq_iff _ _).0 (ground arith)) in
        absurd (ground arith)
  ],
)
  where
    disables : AgentIdentityBinding → Bool
    disables binding =
        binding.place_id == input.place.id
        && binding.identity_id == identity.id
        && not binding.enabled

Permits-iff :
    (allowlist : List String) (input : InvocationCheckInput)
    → ((invoke_enabled allowlist input).decision ≡ InvocationDecision.allow)
      ↔ Permits allowlist input.principal input.is_place_member
unfolding invoke_enabled
Permits-iff [] input = (λ h e. ground arith, λ h. ground (arith, h))
Permits-iff (p ∷ ps) input = (
  λ h. (includes_iff (p ∷ ps) input.principal.id).0 (ground arith),
  λ h. rw ((includes_iff (p ∷ ps) input.principal.id).1 h) refl,
)

baseline_enabled_iff :
    (baseline : Option AgentIdentityProfile)
    → (is_baseline_enabled baseline ≡ true)
      ↔ ((b : AgentIdentityProfile) → baseline ≡ some b → b.enabled ≡ true)
baseline_enabled_iff none = (λ h b e. absurd (ground arith), λ h. refl)
baseline_enabled_iff (some c) = (λ h b e. ground arith, λ h. h c refl)

enabled_parts :
    (input : ResolveAgentIdentityInput) (identity : AgentIdentityProfile)
    (baseline : Option AgentIdentityProfile)
    → ((resolve_found input identity baseline).enabled ≡ true)
      ↔ (identity.enabled ≡ true)
        × (is_baseline_enabled baseline ≡ true)
        × (is_binding_disabled input identity ≡ false)
unfolding resolve_found
enabled_parts input identity baseline =
    (λ h. (ground arith, ground arith, ground arith), λ (on, base, bound). ground arith)

abbrev pub Allows : ResolvedAgentIdentity → Principal → Option Bool → Type 0
Allows r principal member =
    (can_invoke_agent (check_of r principal member)).decision ≡ InvocationDecision.allow

Allows-iff :
    (r : ResolvedAgentIdentity) (principal : Principal) (member : Option Bool)
    → Allows r principal member
      ↔ (r.enabled ≡ true) × Permits r.invocation_allowlist_principal_ids principal member
unfolding can_invoke_agent
Allows-iff r principal member = elim (Bool-cases r.enabled) [
  | inr off ↦ (
    λ h.
        let refused : InvocationDecision.deny ≡ InvocationDecision.allow = rw off at h in
        absurd (ground arith),
    λ (on, _). absurd (ground arith),
  )
  | inl on ↦ (
    λ h. (on, (Permits-iff r.invocation_allowlist_principal_ids _).0 (rw on at h)),
    λ (_, p). rw on ((Permits-iff r.invocation_allowlist_principal_ids _).1 p),
  )
]

MayInvoke-of_found :
    (input : ResolveAgentIdentityInput) (identity : AgentIdentityProfile) (principal : Principal)
    (member : Option Bool)
    → place_identity input ≡ some identity
    → ((resolve_found input identity (inherited identity (baseline_of input))).enabled ≡ true)
      × Permits (or_else identity.invocation_allowlist_principal_ids []) principal member
    → MayInvoke input principal member
MayInvoke-of_found input identity principal member found (on, permits) =
    let (enabled, base, bound) = (enabled_parts input identity _).0 on in
    record {
      identity = identity;
      found = found;
      enabled = enabled;
      baseline_enabled = (baseline_enabled_iff _).0 base;
      bound = (IsBound-iff input identity).0 bound;
      permits = permits;
    }

of_MayInvoke :
    (input : ResolveAgentIdentityInput) (principal : Principal) (member : Option Bool)
    (m : MayInvoke input principal member)
    → ((resolve_found input m.identity (inherited m.identity (baseline_of input))).enabled ≡ true)
      × Permits (or_else m.identity.invocation_allowlist_principal_ids []) principal member
of_MayInvoke input principal member m = (
  (enabled_parts input m.identity _).1 (
    m.enabled,
    (baseline_enabled_iff _).1 m.baseline_enabled,
    (IsBound-iff input m.identity).1 m.bound,
  ),
  m.permits,
)

-- The agent may be invoked in a place exactly where an identity covers the place, that identity,
-- the baseline that it inherits and its bindings to the place are enabled, and the principal is
-- permitted: named by the identity's allowlist where that has names, and otherwise not known to be
-- no member of the place.
pub can_invoke_agent_iff :
    (input : ResolveAgentIdentityInput) (principal : Principal) (member : Option Bool)
    → Allows (resolve_agent_identity input) principal member ↔ MayInvoke input principal member
unfolding resolve_agent_identity resolve_found
can_invoke_agent_iff input principal member = elim (Option-cases (place_identity input)) [
  | inl out ↦ (
    λ h.
        let off : Allows (resolve_none input) principal member =
          rw (out, resolve_agent_identity) at h in
        absurd (unfold resolve_none can_invoke_agent in ground (arith, off)),
    λ m. absurd (cc (out, m.found)),
  )
  | inr (identity, found) ↦ (
    λ h.
        MayInvoke-of_found input identity principal member found
          ((Allows-iff _ principal member).0 (rw (found, resolve_agent_identity) at h)),
    λ m.
        rw (m.found, resolve_agent_identity)
          ((Allows-iff _ principal member).1 (of_MayInvoke input principal member m)),
  )
]
