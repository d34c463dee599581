-- ===== src/Core/Security/Hiding.antt =====
-- What redaction leaves in a value of any shape: `redactUnknown` of
-- packages/core/src/security.ts.
use bek.Common.{String, ◌≡◌, refl, ◌⊎◌, inl, inr, Bool, Bool-cases, true, false}
use bek.Common.Json.{Json, Items, Fields}
use bek.Core.Security.{Redactor, redact_unknown, redact_items, redact_fields}

clash : {b : Bool} → b ≡ false → b ≡ true → ⊥
clash h k = cc

module _ (r : Redactor) where
  -- At every depth, a text is the redaction of a text or the marker of a hidden field, and what
  -- stands under a sensitive name is the marker.
  unfoldable mutual
    pub Hides : Json → Type 0
    Hides Json.null = Unit
    Hides (Json.bool b) = Unit
    Hides (Json.num n) = Unit
    Hides (Json.str s) = ((t : String) × (s ≡ r.redact_secrets t)) ⊎ (s ≡ "[redacted:field]")
    Hides (Json.arr items) = HidesItems items
    Hides (Json.obj fields) = HidesFields fields

    pub HidesItems : Items → Type 0
    HidesItems Items.nil = Unit
    HidesItems (Items.cons item items) = Hides item × HidesItems items

    pub HidesFields : Fields → Type 0
    HidesFields Fields.end = Unit
    HidesFields (Fields.field key entry fields) =
        (r.is_sensitive_field_name key ≡ true → entry ≡ Json.str "[redacted:field]")
        × (Hides entry × HidesFields fields)

  mutual
    unfolding Hides redact_unknown

    unknown : (j : Json) → Hides (redact_unknown r j)
    unknown Json.null = tt
    unknown (Json.bool b) = tt
    unknown (Json.num n) = tt
    unknown (Json.str s) = inl (s, refl)
    unknown (Json.arr items) = each items
    unknown (Json.obj fields) = entries fields

    each : (items : Items) → HidesItems (redact_items r items)
    each Items.nil = tt
    each (Items.cons item items) = (unknown item, each items)

    entries : (fields : Fields) → HidesFields (redact_fields r fields)
    entries Fields.end = tt
    entries (Fields.field key entry fields) = elim (Bool-cases (r.is_sensitive_field_name key)) [
      | inl hidden ↦ rw hidden (λ _. refl, (inr refl, entries fields))
      | inr shown ↦
          rw shown (λ sensitive. absurd (clash shown sensitive), (unknown entry, entries fields))
    ]

  -- In a value that is redacted, at every depth, each text is the redaction of a text or the marker
  -- of a hidden field, and what stands under a sensitive name is that marker.
  pub redact_unknown-Hides : (j : Json) → Hides (redact_unknown r j)
  redact_unknown-Hides j = unknown j
