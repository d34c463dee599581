-- ===== src/Core/Memory/Isolation.antt =====
-- What `selectInjectableMemoryChunks` of packages/core/src/memory.ts hands out, and that isolated
-- compartments share none of it.
use bek.Common.{
  ℕ, ◌≡◌, sym, ap, ◌∙◌, ◌⊎◌, inl, inr, Bool, not, Option-cases, none, some, List, [], ◌∷◌, ◌++◌,
  String, get_elem?, keep, keep-Among, is_some, Among, arith,
}
use mathlib.Core.List.{append_assoc, append-nil}
use bek.Core.Identity.{place_identity, resolve_agent_identity}
use bek.Core.Identity.Types.{ResolveAgentIdentityInput, AgentIdentityProfile}
use bek.Core.Identity.Isolation.{SharesNothing, resolve_agent_identity-IsApart}
use bek.Core.Memory.{
  MemoryChunk, MemoryExclusion, NormalizedContext, MemoryRetrievalContext, normalize_context,
  evaluate_chunk, select_from, select_injectable_memory_chunks,
}
use bek.Core.Memory.Access.{Passes, evaluate_chunk-Passes}

-- The chunk passes the test.
abbrev pub passes : NormalizedContext → MemoryChunk → Bool
passes ctx chunk = not (is_some (evaluate_chunk chunk ctx))

-- The reasons of those that do not pass, in their order.
abbrev pub exclusions : NormalizedContext → List MemoryChunk → List MemoryExclusion
exclusions ctx [] = []
exclusions ctx (chunk ∷ chunks) = elim (evaluate_chunk chunk ctx) [
  | some e ↦ e ∷ exclusions ctx chunks
  | none ↦ exclusions ctx chunks
]

select_from-keep :
    (ctx : NormalizedContext) (chunks allowed : List MemoryChunk) (excluded : List MemoryExclusion)
    → ((select_from ctx chunks allowed excluded).allowed ≡ allowed ++ keep (passes ctx) chunks)
      × ((select_from ctx chunks allowed excluded).excluded ≡ excluded ++ exclusions ctx chunks)
unfolding select_from keep
select_from-keep ctx [] allowed excluded = (sym (append-nil allowed), sym (append-nil excluded))
select_from-keep ctx (chunk ∷ chunks) allowed excluded =
    elim (Option-cases (evaluate_chunk chunk ctx)) [
      | inl fine ↦
          let (a, e) = select_from-keep ctx chunks (allowed ++ chunk ∷ []) excluded in
          rw (fine, select_from, keep, exclusions) (a ∙ append_assoc allowed (chunk ∷ []) _, e)
      | inr (x, refused) ↦
          let (a, e) = select_from-keep ctx chunks allowed (excluded ++ x ∷ []) in
          rw (refused, select_from, keep, exclusions) (a, e ∙ append_assoc excluded (x ∷ []) _)
    ]

-- What is selected is what passes, in its order, and the exclusions are those of the rest.
pub select_injectable_memory_chunks_lem :
    (chunks : List MemoryChunk) (context : MemoryRetrievalContext)
    → ((select_injectable_memory_chunks chunks context).allowed
        ≡ keep (passes (normalize_context context)) chunks)
      × ((select_injectable_memory_chunks chunks context).excluded
          ≡ exclusions (normalize_context context) chunks)
unfolding select_injectable_memory_chunks
select_injectable_memory_chunks_lem chunks context =
    select_from-keep (normalize_context context) chunks [] []

pub selected-Passes :
    (chunks : List MemoryChunk) (context : MemoryRetrievalContext) (i : ℕ) {chunk : MemoryChunk}
    → get_elem? (select_injectable_memory_chunks chunks context).allowed i ≡ some chunk
    → Among chunk chunks × Passes chunk (normalize_context context)
selected-Passes chunks context i {chunk} at =
    let (allowed, _) = select_injectable_memory_chunks_lem chunks context in
    let (stands, fine) =
      keep-Among (passes (normalize_context context)) chunks i (rw allowed at at) in
    (stands, (evaluate_chunk-Passes chunk (normalize_context context)).0 (ground arith))

-- The context of a place whose identity is resolved, as the caller passes it on.
abbrev pub context_of : String → ResolveAgentIdentityInput → MemoryRetrievalContext
context_of org_id input = record {
  org_id = org_id;
  place_id = input.place.id;
  resolved = some (resolve_agent_identity input);
  isolated = none;
  identity_id = none;
}

-- Where the identity that covers a place shares nothing, being a private channel's or inheriting no
-- baseline, every chunk that is selected for the place is of the organisation, and is bound to that
-- identity, or to no identity and to the place itself.
pub selected-IsOfCompartment :
    (input : ResolveAgentIdentityInput) (identity : AgentIdentityProfile)
    → place_identity input ≡ some identity
    → SharesNothing identity
    → (org_id : String) (chunks : List MemoryChunk) (i : ℕ) {chunk : MemoryChunk}
    → get_elem? (select_injectable_memory_chunks chunks (context_of org_id input)).allowed i
      ≡ some chunk
    → (chunk.org_id ≡ org_id)
      × ((chunk.identity_id ≡ some identity.id)
          ⊎ (chunk.identity_id ≡ none) × (chunk.place_id ≡ some input.place.id))
unfolding normalize_context
selected-IsOfCompartment input identity found h org_id chunks i {chunk} at =
    let (same, apart) = resolve_agent_identity-IsApart input identity found h in
    let (_, may) = selected-Passes chunks (context_of org_id input) i at in
    (
      may.same_org,
      elim (may.compartment apart.isolated) [
        | inl (_, bound) ↦ inl (bound ∙ ap (λ (p : AgentIdentityProfile). some p.id) same)
        | inr here ↦ inr here
      ],
    )
