-- ===== src/Core/Store/Payloads/Canonical.antt =====
-- The hash of a payload and the order of its fields: `hashPayload` and `canonicalStringify` of
-- packages/core/src/runs.ts.
use bek.Common.{
  ◌≡◌, refl, sym, ap, ◌∙◌, String, Bool, true, false, List, [], ◌∷◌, map, concat, sort_with,
  insert_with, insert-insert_with,
}
use bek.Common.Json.{Json, Items, Fields}
use bek.Core.Store.Payloads.{
  PayloadPlatform, join_commas, canonical_stringify, canonical_items, canonical_fields,
  hash_payload,
}

-- `localeCompare` orders texts strictly.
pub record IsOrder (p : PayloadPlatform) : Type 0 where
  pub asymmetric : (a b : String) → p.locale_before a b ≡ true → p.locale_before b a ≡ false
  pub transitive :
      (a b c : String)
      → p.locale_before a b ≡ true
      → p.locale_before b c ≡ true
      → p.locale_before a c ≡ true

module _ (p : PayloadPlatform) where
  -- Values that differ in nothing but the order of fields, at any depth.
  mutual
    pub data SameJson : Json → Json → Type 0 where
      same : {a : Json} → SameJson a a
      in_array : {xs ys : Items} → SameItems xs ys → SameJson (Json.arr xs) (Json.arr ys)
      in_object : {f g : Fields} → SameFields f g → SameJson (Json.obj f) (Json.obj g)

    pub data SameItems : Items → Items → Type 0 where
      none_left : SameItems Items.nil Items.nil
      item :
          {a b : Json} {xs ys : Items}
          → SameJson a b
          → SameItems xs ys
          → SameItems (Items.cons a xs) (Items.cons b ys)

    pub data SameFields : Fields → Fields → Type 0 where
      ended : SameFields Fields.end Fields.end
      entry :
          {key : String} {a b : Json} {f g : Fields}
          → SameJson a b
          → SameFields f g
          → SameFields (Fields.field key a f) (Fields.field key b g)
      swapped :
          {k l : String} {a b : Json} {f : Fields}
          → p.locale_before k l ≡ true
          → SameFields
              (Fields.field k a (Fields.field l b f))
              (Fields.field l b (Fields.field k a f))
      turned : {f g : Fields} → SameFields f g → SameFields g f
      chained : {f g h : Fields} → SameFields f g → SameFields g h → SameFields f h

  abbrev entry_before : String × String → String × String → Bool
  entry_before a b = p.locale_before a.0 b.0

  abbrev entry_text : String × String → String
  entry_text e = concat (p.text_of_string e.0 ∷ ":" ∷ e.1 ∷ [])

  abbrev sorted : Fields → List (String × String)
  sorted f = sort_with entry_before (canonical_fields p f)

  module _ (laws : IsOrder p) where
    mutual
      unfolding canonical_stringify sort_with insert_with

      json_text : {a b : Json} → SameJson a b → canonical_stringify p a ≡ canonical_stringify p b
      json_text same = refl
      json_text (in_array items) =
          ap (λ texts. concat ("[" ∷ join_commas texts ∷ "]" ∷ [])) (item_texts items)
      json_text (in_object fields) =
          ap (λ entries. concat ("{" ∷ join_commas (map entry_text entries) ∷ "}" ∷ []))
            (field_texts fields)

      item_texts : {xs ys : Items} → SameItems xs ys → canonical_items p xs ≡ canonical_items p ys
      item_texts none_left = refl
      item_texts (item a xs) = rw (json_text a, item_texts xs) refl

      field_texts : {f g : Fields} → SameFields f g → sorted f ≡ sorted g
      field_texts ended = refl
      field_texts (entry a f) = rw (json_text a, field_texts f) refl
      field_texts (swapped {k} {l} {a} {b} {f} lt) =
          insert-insert_with entry_before (λ x y. laws.asymmetric x.0 y.0)
            (λ x y z. laws.transitive x.0 y.0 z.0) (k, canonical_stringify p a)
            (l, canonical_stringify p b) (sorted f) lt
      field_texts (turned f) = sym (field_texts f)
      field_texts (chained f g) = field_texts f ∙ field_texts g

    -- Values that differ only in the order of the fields of their objects, at any depth, have the
    -- same hash, where `localeCompare` is a strict order and tells apart the names that are swapped.
    pub hash_payload_lem : {a b : Json} → SameJson a b → hash_payload p a ≡ hash_payload p b
    unfolding hash_payload
    hash_payload_lem alike = ap p.sha256_hex (json_text alike)
