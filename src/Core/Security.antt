-- ===== src/Core/Security.antt =====
-- packages/core/src/security.ts: redaction of secrets in values of any shape. The regular
-- expressions themselves are two parameters.
pub mod Hiding
pub mod Patterns
mod Tests
use bek.Common.{String, Bool, if◌then◌else◌}
use bek.Common.Json.{Json, Items, Fields}

pub record Redactor : Type 0 where
  pub redact_secrets : String → String
  pub is_sensitive_field_name : String → Bool

module _ (r : Redactor) where
  unfoldable mutual
    pub redact_unknown : Json → Json
    redact_unknown Json.null = Json.null
    redact_unknown (Json.bool b) = Json.bool b
    redact_unknown (Json.num n) = Json.num n
    redact_unknown (Json.str s) = Json.str (r.redact_secrets s)
    redact_unknown (Json.arr items) = Json.arr (redact_items items)
    redact_unknown (Json.obj fields) = Json.obj (redact_fields fields)

    pub redact_items : Items → Items
    redact_items Items.nil = Items.nil
    redact_items (Items.cons item items) = Items.cons (redact_unknown item) (redact_items items)

    pub redact_fields : Fields → Fields
    redact_fields Fields.end = Fields.end
    redact_fields (Fields.field key entry fields) =
        let hidden = Fields.field key (Json.str "[redacted:field]") (redact_fields fields) in
        let shown = Fields.field key (redact_unknown entry) (redact_fields fields) in
        if r.is_sensitive_field_name key then hidden else shown
