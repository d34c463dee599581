-- ===== src/Core/Memory.antt =====
-- Which memory a place may be given: packages/core/src/memory.ts.
pub mod Access
pub mod Isolation
mod Tests
use bek.Common.{
  ℕ, String, Bool, true, false, not, ◌&&◌, ◌||◌, Option, none, some, List, [], ◌∷◌, ◌++◌, or_else,
  is_some, if◌then◌else◌, ltb, ◌==◌, concat, includes,
}
use bek.Core.Types.{Sensitivity}
use bek.Core.Security.{Redactor}
use bek.Core.Policy.{utf16_length}
use bek.Core.Outbox.{first_units}
use bek.Core.Identity.Types.{ResolvedAgentIdentity}

pub data MemorySourceKind : Type 0 where
  slack_thread doc repo ticket mcp_output uploaded_file generated_report : MemorySourceKind

pub record MemoryCitation : Type 0 where
  pub source_id : String
  pub source_kind : MemorySourceKind
  pub label : String
  pub uri : Option String
  pub locator : Option String

pub record MemoryChunk : Type 0 where
  pub id : String
  pub org_id : String
  pub source_id : String
  pub place_id : Option String
  pub identity_id : Option String
  pub allowed_place_ids : Option (List String)
  pub allowed_identity_ids : Option (List String)
  pub sensitivity : Sensitivity
  pub content_hash : String
  pub citation : MemoryCitation
  pub text : String

pub record MemoryRetrievalContext : Type 0 where
  pub org_id : String
  pub place_id : String
  pub resolved : Option ResolvedAgentIdentity
  pub isolated : Option Bool
  pub identity_id : Option String

pub data MemoryExclusionReasonCode : Type 0 where
  cross_org isolated_requires_same_compartment cross_place cross_identity acl_place_denied
        acl_identity_denied :
      MemoryExclusionReasonCode

pub record MemoryExclusion : Type 0 where
  pub chunk_id : String
  pub code : MemoryExclusionReasonCode
  pub reason : String

pub record NormalizedContext : Type 0 where
  pub org_id : String
  pub place_id : String
  pub isolated : Bool
  pub identity_id : Option String

pub record SelectInjectableMemoryChunksResult : Type 0 where
  pub allowed : List MemoryChunk
  pub excluded : List MemoryExclusion

-- `a ?? b` of two values that may be missing.
abbrev pub or_option : Option String → Option String → Option String
or_option none b = b
or_option (some a) b = some a

unfoldable pub normalize_context : MemoryRetrievalContext → NormalizedContext
normalize_context context = record {
  org_id = context.org_id;
  place_id = context.place_id;
  isolated = elim context.resolved [ some r ↦ r.isolated | none ↦ or_else context.isolated false ];
  identity_id =
      or_option context.identity_id
        (elim context.resolved [ none ↦ none | some r ↦ some r.identity.id ]);
}

-- An optional list is missing or has the text.
abbrev pub is_listed : Option (List String) → String → Bool
is_listed none id = true
is_listed (some ids) id = includes ids id

-- A list of identities, where there is one, has the requesting identity.
abbrev pub is_identity_listed : Option (List String) → Option String → Bool
is_identity_listed none id = true
is_identity_listed (some ids) none = false
is_identity_listed (some ids) (some id) = includes ids id

-- `id !== undefined && id === other`
abbrev pub is_same : Option String → Option String → Bool
is_same none other = false
is_same (some id) none = false
is_same (some id) (some other) = id == other

abbrev pub exclusion :
    MemoryChunk → MemoryExclusionReasonCode → List String → Option MemoryExclusion
exclusion chunk code reason =
    some (record { chunk_id = chunk.id; code = code; reason = concat reason })

-- `${value}` of a text that may be missing.
abbrev pub shown : Option String → String
shown none = "undefined"
shown (some s) = s

-- `evaluateChunk` for an isolated compartment.
unfoldable pub evaluate_isolated : MemoryChunk → NormalizedContext → Option MemoryExclusion
evaluate_isolated chunk ctx =
    if is_same chunk.identity_id ctx.identity_id
    then none
    else if not (is_some chunk.identity_id) && is_same chunk.place_id (some ctx.place_id)
    then none
    else exclusion chunk MemoryExclusionReasonCode.isolated_requires_same_compartment (
        "Requesting compartment is isolated; only chunks bound to the same identity/place may be injected."
        ∷ [])

-- `evaluateChunk` for a compartment that is not isolated.
unfoldable pub evaluate_shared : MemoryChunk → NormalizedContext → Option MemoryExclusion
evaluate_shared chunk ctx =
    if is_same chunk.place_id (some ctx.place_id)
      || (not (is_some chunk.place_id) && not (is_some chunk.identity_id))
    then none
    else if is_some chunk.identity_id && not (is_same chunk.identity_id ctx.identity_id)
    then exclusion chunk MemoryExclusionReasonCode.cross_identity (
        "Chunk is bound to identity "
        ∷ shown chunk.identity_id
        ∷ ", not the requesting identity."
        ∷ [])
    else exclusion chunk MemoryExclusionReasonCode.cross_place (
        "Chunk is bound to place "
        ∷ shown chunk.place_id
        ∷ ", not the requesting place "
        ∷ ctx.place_id
        ∷ "."
        ∷ [])

unfoldable pub evaluate_chunk : MemoryChunk → NormalizedContext → Option MemoryExclusion
evaluate_chunk chunk ctx =
    if not (chunk.org_id == ctx.org_id)
    then exclusion chunk MemoryExclusionReasonCode.cross_org
        ("Chunk belongs to org " ∷ chunk.org_id ∷ ", not " ∷ ctx.org_id ∷ "." ∷ [])
    else if not (is_listed chunk.allowed_place_ids ctx.place_id)
    then exclusion chunk MemoryExclusionReasonCode.acl_place_denied
        ("Place " ∷ ctx.place_id ∷ " is not in the chunk's allowedPlaceIds." ∷ [])
    else if not (is_identity_listed chunk.allowed_identity_ids ctx.identity_id)
    then exclusion chunk MemoryExclusionReasonCode.acl_identity_denied (
        "Identity "
        ∷ or_else ctx.identity_id "(none)"
        ∷ " is not in the chunk's allowedIdentityIds."
        ∷ [])
    else if ctx.isolated
    then evaluate_isolated chunk ctx
    else evaluate_shared chunk ctx

-- The loop of `selectInjectableMemoryChunks`, with what it has pushed.
unfoldable pub select_from :
    NormalizedContext
    → List MemoryChunk
    → List MemoryChunk
    → List MemoryExclusion
    → SelectInjectableMemoryChunksResult
select_from ctx [] allowed excluded = record { allowed = allowed; excluded = excluded }
select_from ctx (chunk ∷ chunks) allowed excluded = elim (evaluate_chunk chunk ctx) [
  | some e ↦ select_from ctx chunks allowed (excluded ++ e ∷ [])
  | none ↦ select_from ctx chunks (allowed ++ chunk ∷ []) excluded
]

unfoldable pub select_injectable_memory_chunks :
    List MemoryChunk → MemoryRetrievalContext → SelectInjectableMemoryChunksResult
select_injectable_memory_chunks chunks context =
    select_from (normalize_context context) chunks [] []

pub record CitationReference : Type 0 where
  pub label : String
  pub source_id : String
  pub source_kind : MemorySourceKind
  pub uri : Option String
  pub locator : Option String
  pub excerpt : String

-- A text of at most so many units of UTF-16, where a most is given.
abbrev pub shorten : Option ℕ → String → String
shorten none s = s
shorten (some most) s = if ltb most (utf16_length s) then first_units most s else s

unfoldable pub redact_memory_for_citation : Redactor → MemoryChunk → Option ℕ → CitationReference
redact_memory_for_citation redactor chunk max_excerpt_length = record {
  label = chunk.citation.label;
  source_id = chunk.citation.source_id;
  source_kind = chunk.citation.source_kind;
  uri = chunk.citation.uri;
  locator = chunk.citation.locator;
  excerpt = shorten max_excerpt_length (redactor.redact_secrets chunk.text);
}
