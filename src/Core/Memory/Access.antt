-- ===== src/Core/Memory/Access.antt =====
-- Which chunks pass the test: `evaluateChunk` of packages/core/src/memory.ts.
use bek.Common.{
  ◌≡◌, ◌≢◌, refl, ap, ◌↔◌, ◌⊎◌, inl, inr, true, false, not, Option, none, some, List, ◌&&◌, String,
  is_some, includes_iff, Among, eq_iff, arith, Bool-cases,
}
use bek.Core.Memory.{
  MemoryChunk, NormalizedContext, is_listed, is_identity_listed, is_same, evaluate_isolated,
  evaluate_shared, evaluate_chunk,
}

-- An access list of the chunk, where it has one, names the value.
abbrev pub IsListed : Option (List String) → Option String → Type 0
IsListed none id = Unit {0}
IsListed (some ids) id = (name : String) × (id ≡ some name) × Among name ids

-- The chunk is of the compartment: of its identity, or of no identity and of its place.
abbrev pub IsOfCompartment : MemoryChunk → NormalizedContext → Type 0
IsOfCompartment chunk ctx =
    (chunk.identity_id ≢ none) × (chunk.identity_id ≡ ctx.identity_id)
    ⊎ (chunk.identity_id ≡ none) × (chunk.place_id ≡ some ctx.place_id)

-- The chunk is of the place, or of the whole workspace.
abbrev pub IsShared : MemoryChunk → NormalizedContext → Type 0
IsShared chunk ctx =
    (chunk.place_id ≡ some ctx.place_id) ⊎ (chunk.place_id ≡ none) × (chunk.identity_id ≡ none)

-- What the test asks of a chunk.
pub record Passes (chunk : MemoryChunk) (ctx : NormalizedContext) : Type 0 where
  pub same_org : chunk.org_id ≡ ctx.org_id
  pub of_place : IsListed chunk.allowed_place_ids (some ctx.place_id)
  pub of_identity : IsListed chunk.allowed_identity_ids ctx.identity_id
  pub compartment : ctx.isolated ≡ true → IsOfCompartment chunk ctx
  pub shared : ctx.isolated ≡ false → IsShared chunk ctx

is_same_iff : (a b : Option String) → (is_same a b ≡ true) ↔ (a ≢ none) × (a ≡ b)
is_same_iff none b = (λ h. absurd (ground arith), λ (ne, e). absurd (ne refl))
is_same_iff (some a) none = (λ h. absurd (ground arith), λ (ne, e). absurd (ground arith))
is_same_iff (some a) (some b) = (
  λ h. (λ e. ground arith, ap (λ s. some s) ((eq_iff a b).0 h)),
  λ (ne, e). (eq_iff a b).1 (ground arith),
)

is_listed_iff :
    (ids : Option (List String)) (id : String) → (is_listed ids id ≡ true) ↔ IsListed ids (some id)
is_listed_iff none id = (λ h. tt, λ h. refl)
is_listed_iff (some ids) id = (
  λ h. (id, refl, (includes_iff ids id).0 h),
  λ (name, e, among).
      let same : id ≡ name = ground arith in rw same ((includes_iff ids name).1 among),
)

is_identity_listed_iff :
    (ids : Option (List String)) (id : Option String)
    → (is_identity_listed ids id ≡ true) ↔ IsListed ids id
is_identity_listed_iff none id = (λ h. tt, λ h. refl)
is_identity_listed_iff (some ids) none =
    (λ h. absurd (ground arith), λ (name, e, among). absurd (ground arith))
is_identity_listed_iff (some ids) (some id) = is_listed_iff (some ids) id

evaluate_isolated_iff :
    (chunk : MemoryChunk) (ctx : NormalizedContext)
    → (evaluate_isolated chunk ctx ≡ none) ↔ IsOfCompartment chunk ctx
unfolding evaluate_isolated
evaluate_isolated_iff chunk ctx = (
  λ h. elim (Bool-cases (is_same chunk.identity_id ctx.identity_id)) [
    | inl same ↦ inl ((is_same_iff _ _).0 same)
    | inr other ↦
        elim (Bool-cases
          (not (is_some chunk.identity_id) && is_same chunk.place_id (some ctx.place_id))) [
            | inl here ↦ inr (
              ground arith,
              ((is_same_iff chunk.place_id (some ctx.place_id)).0 (ground arith)).1,
            )
            | inr no_more ↦ absurd (ground arith)
          ]
  ],
  λ h. elim h [
    | inl same ↦ rw ((is_same_iff _ _).1 same) refl
    | inr (unbound, here) ↦ rw (unbound, here, (eq_iff ctx.place_id ctx.place_id).1 refl) refl
  ],
)

evaluate_shared_iff :
    (chunk : MemoryChunk) (ctx : NormalizedContext)
    → (evaluate_shared chunk ctx ≡ none) ↔ IsShared chunk ctx
unfolding evaluate_shared
evaluate_shared_iff chunk ctx = (
  λ h. elim (Bool-cases (is_same chunk.place_id (some ctx.place_id))) [
    | inl here ↦ inl ((is_same_iff _ _).0 here).1
    | inr other ↦ inr (ground arith, ground arith)
  ],
  λ h. elim h [
    | inl here ↦ rw (here, (eq_iff ctx.place_id ctx.place_id).1 refl) refl
    | inr (unplaced, unbound) ↦ rw (unplaced, unbound) refl
  ],
)

-- A chunk passes exactly where it is of the organisation, its access lists, where it has them, name
-- the place and the requesting identity, and it is of the compartment, if that is isolated, or
-- otherwise of the place or of the whole workspace.
pub evaluate_chunk-Passes :
    (chunk : MemoryChunk) (ctx : NormalizedContext)
    → (evaluate_chunk chunk ctx ≡ none) ↔ Passes chunk ctx
unfolding evaluate_chunk
evaluate_chunk-Passes chunk ctx = (
  λ h. elim (Bool-cases ctx.isolated) [
    | inl apart ↦
        let passed : evaluate_isolated chunk ctx ≡ none = ground arith in
        record {
          same_org = (eq_iff _ _).0 (ground arith);
          of_place = (is_listed_iff _ _).0 (ground arith);
          of_identity = (is_identity_listed_iff _ _).0 (ground arith);
          compartment = λ _. (evaluate_isolated_iff chunk ctx).0 passed;
          shared = λ e. absurd (cc (e, apart));
        }
    | inr open_to ↦
        let passed : evaluate_shared chunk ctx ≡ none = ground arith in
        record {
          same_org = (eq_iff _ _).0 (ground arith);
          of_place = (is_listed_iff _ _).0 (ground arith);
          of_identity = (is_identity_listed_iff _ _).0 (ground arith);
          compartment = λ e. absurd (cc (e, open_to));
          shared = λ _. (evaluate_shared_iff chunk ctx).0 passed;
        }
  ],
  λ m.
      let org = (eq_iff chunk.org_id ctx.org_id).1 m.same_org in
      let place = (is_listed_iff chunk.allowed_place_ids ctx.place_id).1 m.of_place in
      let identity =
        (is_identity_listed_iff chunk.allowed_identity_ids ctx.identity_id).1 m.of_identity in
      elim (Bool-cases ctx.isolated) [
        | inl apart ↦
            let passed = (evaluate_isolated_iff chunk ctx).1 (m.compartment apart) in
            simp (org, place, identity, apart, passed)
        | inr open_to ↦
            let passed = (evaluate_shared_iff chunk ctx).1 (m.shared open_to) in
            simp (org, place, identity, open_to, passed)
      ],
)

-- The rules for injecting a chunk: it is of the organisation, its access lists name the place and the
-- identity, and it is of the compartment, if that is isolated; otherwise it is of the place or of the
-- workspace, and never bound to a different identity.
pub record MayInject (chunk : MemoryChunk) (ctx : NormalizedContext) : Type 0 where
  pub passes : Passes chunk ctx
  pub never_other :
      (ctx.isolated ≡ true) ⊎ (chunk.identity_id ≡ none) ⊎ (chunk.identity_id ≡ ctx.identity_id)

-- The chunk is of another place, or the compartment is isolated, or the chunk is bound to no identity
-- or to the requesting one.
abbrev pub IsElsewhereOrOwn : MemoryChunk → NormalizedContext → Type 0
IsElsewhereOrOwn chunk ctx =
    (chunk.place_id ≢ some ctx.place_id)
    ⊎ (ctx.isolated ≡ true)
    ⊎ (chunk.identity_id ≡ none)
    ⊎ (chunk.identity_id ≡ ctx.identity_id)

never_other_of :
    (chunk : MemoryChunk) (ctx : NormalizedContext)
    → IsElsewhereOrOwn chunk ctx
    → Passes chunk ctx
    → (ctx.isolated ≡ true) ⊎ (chunk.identity_id ≡ none) ⊎ (chunk.identity_id ≡ ctx.identity_id)
never_other_of chunk ctx (inr own) passes = own
never_other_of chunk ctx (inl away) passes = elim (Bool-cases ctx.isolated) [
  | inl apart ↦ inl apart
  | inr open_to ↦ elim (passes.shared open_to) [
    | inl here ↦ absurd (away here)
    | inr (unplaced, unbound) ↦ inr (inl unbound)
  ]
]

-- For a chunk of another place, in an isolated compartment, or bound to no identity or to the
-- requesting one, `evaluate_chunk` excludes nothing exactly where the chunk may be injected: it is of
-- the organisation, its access lists name the place and the identity, and it is of the compartment,
-- if that is isolated, or otherwise of the place or of the workspace, and bound to no different
-- identity.
pub evaluate_chunk_iff :
    (chunk : MemoryChunk) (ctx : NormalizedContext)
    → IsElsewhereOrOwn chunk ctx
    → (evaluate_chunk chunk ctx ≡ none) ↔ MayInject chunk ctx
evaluate_chunk_iff chunk ctx own = (
  λ h.
      let passes = (evaluate_chunk-Passes chunk ctx).0 h in
      record { passes = passes; never_other = never_other_of chunk ctx own passes },
  λ m. (evaluate_chunk-Passes chunk ctx).1 m.passes,
)
