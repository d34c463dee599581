-- ===== src/Core/Memory/Tests.antt =====
-- Memory at concrete inputs: packages/core/src/memory.ts.
use bek.Common.{
  ◌≡◌, refl, ◌↔◌, ◌⊎◌, inl, inr, true, false, none, some, List, [], ◌∷◌, any, includes, keep, find,
  unique, get_elem?,
}
use bek.Core.Types.{Sensitivity}
use bek.Core.Identity.{
  resolve_agent_identity, place_identity, org_identities, is_of_place, bound_identity_ids,
  resolve_found, identity_is_isolated,
}
use bek.Core.Identity.Samples.{input, private, private-found}
use bek.Core.Memory.{
  MemorySourceKind, MemoryChunk, NormalizedContext, evaluate_chunk, normalize_context,
  evaluate_isolated, evaluate_shared, select_from, select_injectable_memory_chunks,
}
use bek.Core.Memory.Access.{MayInject, evaluate_chunk_iff}
use bek.Core.Memory.Isolation.{context_of, selected-IsOfCompartment}

abbrev chunk : MemoryChunk
chunk = record {
  id = "chunk_1";
  org_id = "org_1";
  source_id = "source_1";
  place_id = some "place_1";
  identity_id = some "identity_2";
  allowed_place_ids = none;
  allowed_identity_ids = none;
  sensitivity = Sensitivity.confidential;
  content_hash = "hash_1";
  citation = record {
    source_id = "source_1";
    source_kind = MemorySourceKind.doc;
    label = "runbook";
    uri = none;
    locator = none;
  };
  text = "Restart the queue.";
}

abbrev elsewhere : NormalizedContext
elsewhere = record {
  org_id = "org_1";
  place_id = "place_1";
  isolated = false;
  identity_id = some "identity_3";
}

-- A chunk of the place passes where no isolation is asked for, whatever identity it is bound to.
other_identity : evaluate_chunk chunk elsewhere ≡ none
unfolding evaluate_chunk evaluate_shared
other_identity = refl

abbrev compartment : NormalizedContext
compartment = record elsewhere { isolated = true; identity_id = some "identity_2" }

evaluate_chunk_iff_example : (evaluate_chunk chunk compartment ≡ none) ↔ MayInject chunk compartment
evaluate_chunk_iff_example = evaluate_chunk_iff chunk compartment (inr (inl refl))

-- A chunk of the workspace, and one that is bound to the private channel.
abbrev chunks : List MemoryChunk
chunks = record chunk { id = "chunk_2"; place_id = none; identity_id = none } ∷ chunk ∷ []

chunk-selected :
    get_elem? (select_injectable_memory_chunks chunks (context_of "org_1" input)).allowed 0
    ≡ some chunk
unfolding select_injectable_memory_chunks select_from normalize_context evaluate_chunk
    evaluate_isolated resolve_agent_identity resolve_found identity_is_isolated place_identity
    org_identities is_of_place bound_identity_ids keep find includes any unique
chunk-selected = refl

selected-IsOfCompartment_example :
    (chunk.org_id ≡ "org_1")
    × ((chunk.identity_id ≡ some private.id)
        ⊎ (chunk.identity_id ≡ none) × (chunk.place_id ≡ some input.place.id))
selected-IsOfCompartment_example =
    selected-IsOfCompartment input private private-found (inl refl) "org_1" chunks 0 chunk-selected
