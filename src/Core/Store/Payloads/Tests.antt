-- ===== src/Core/Store/Payloads/Tests.antt =====
-- The hash of a payload at a concrete input: packages/core/src/runs.ts.
use bek.Common.{◌≡◌, refl, ltb, decimal, arith}
use bek.Common.Json.{Json, Fields}
use bek.Core.Policy.{utf16_length}
use bek.Core.Store.Payloads.{PayloadPlatform, hash_payload}
use bek.Core.Store.Payloads.Canonical.{IsOrder, in_object, swapped, hash_payload_lem}

-- Texts by their length.
abbrev platform : PayloadPlatform
platform = record {
  sha256_hex = λ s. s;
  text_of_string = λ s. s;
  text_of_number = decimal;
  locale_before = λ a b. ltb (utf16_length a) (utf16_length b);
}

platform-IsOrder : IsOrder platform
platform-IsOrder = record {
  asymmetric = λ a b lt. ground arith;
  transitive = λ a b c ab bc. ground arith;
}

abbrev prompt_first : Json
prompt_first = Json.obj (
    Fields.field "prompt" (Json.str "Open a branch.")
      (Fields.field "capability" (Json.str "github.branch") Fields.end))

abbrev prompt_last : Json
prompt_last = Json.obj (
    Fields.field "capability" (Json.str "github.branch")
      (Fields.field "prompt" (Json.str "Open a branch.") Fields.end))

hash_payload_lem_example : hash_payload platform prompt_first ≡ hash_payload platform prompt_last
hash_payload_lem_example = hash_payload_lem platform platform-IsOrder (in_object (swapped refl))
