-- ===== src/Core/Security/Tests.antt =====
-- Redaction at a concrete input: packages/core/src/security.ts.
use bek.Common.{◌≡◌, refl, if◌then◌else◌, ◌==◌}
use bek.Common.Json.{Json, Items, Fields}
use bek.Core.Security.{redact_unknown}
use bek.Core.Security.Hiding.{Hides, redact_unknown-Hides}
use bek.Core.Security.Patterns.{
  TextEngine, redactor_of, redact_secrets, redact_by, is_sensitive_field_name, normalize_field_name,
}

-- An engine that knows one key and one name.
abbrev engine : TextEngine
engine = record {
  replace = λ pattern replacement text.
      if text == "sk-0123456789abcdefghij"
      then if pattern.source == "\\bsk-[A-Za-z0-9_-]{20,}\\b" then replacement else text
      else text;
  test = λ _ text. text == "password";
  to_lower_case = λ text. text;
}

abbrev config : Json
config = Json.obj (
    Fields.field "password" (Json.str "hunter2") (
      Fields.field "keys" (Json.arr (Items.cons (Json.str "sk-0123456789abcdefghij") Items.nil))
        Fields.end))

config_redacted :
    redact_unknown (redactor_of engine) config
    ≡ Json.obj (
        Fields.field "password" (Json.str "[redacted:field]") (
          Fields.field "keys"
            (Json.arr (Items.cons (Json.str "[redacted:api-key]") Items.nil))
            Fields.end))
unfolding redact_unknown redact_secrets redact_by is_sensitive_field_name normalize_field_name
config_redacted = refl

redact_unknown-Hides_example :
    Hides (redactor_of engine) (redact_unknown (redactor_of engine) config)
redact_unknown-Hides_example = redact_unknown-Hides (redactor_of engine) config
