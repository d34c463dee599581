-- ===== src/Core/Security/Patterns.antt =====
-- The patterns of secrets and of sensitive names, and redaction by them:
-- packages/core/src/security.ts. A regular expression is its source and its flags, and what the
-- platform does with one is a record of functions.
use bek.Common.{String, Bool, List, [], ◌∷◌, concat}
use bek.Core.Security.{Redactor}

pub record RegExp : Type 0 where
  pub source : String
  pub flags : String

-- `text.replace(pattern, replacement)`, `pattern.test(text)` and `text.toLowerCase()`.
pub record TextEngine : Type 0 where
  pub replace : RegExp → String → String → String
  pub test : RegExp → String → Bool
  pub to_lower_case : String → String

pub record SecretPattern : Type 0 where
  pub pattern : RegExp
  pub replacement : String

abbrev pub redacted : String → String
redacted label = concat ("[redacted:" ∷ label ∷ "]" ∷ [])

abbrev secret : String → String → String → SecretPattern
secret source flags replacement = record {
  pattern = record { source = source; flags = flags };
  replacement = replacement;
}

abbrev pub secret_patterns : List SecretPattern
secret_patterns =
    secret "\\bxox[baprs]-[A-Za-z0-9-]{10,}\\b" "g" (redacted "slack-token")
    ∷ secret "\\bxapp-\\d-[A-Za-z0-9-]{10,}\\b" "g" (redacted "slack-app-token")
    ∷ secret "\\bgh[pousr]_[A-Za-z0-9_]{20,}\\b" "g" (redacted "github-token")
    ∷ secret "\\bgithub_pat_[A-Za-z0-9_]{22,}\\b" "g" (redacted "github-token")
    ∷ secret "\\bsk-[A-Za-z0-9_-]{20,}\\b" "g" (redacted "api-key")
    ∷ secret
        (concat (
          "\\b((?:x-api-key|api[ _-]?key)\\s*[:=]\\s*[\"']?)[A-Za-z0-9._~+/" ∷ "=-]{16,}([\"']?)"
          ∷ []))
        "gi" (concat ("$1" ∷ redacted "api-key" ∷ "$2" ∷ []))
    ∷ secret
        (concat (
          "\\b((?:authorization|bearer[ _-]?token|access[ _-]?token|refr"
          ∷ "esh[ _-]?token|id[ _-]?token|auth[ _-]?token)\\s*[:=]\\s*[\"']?"
          ∷ ")(?:Bearer\\s+)?[A-Za-z0-9._~+/=-]{16,}([\"']?)" ∷ []))
        "gi" (concat ("$1" ∷ redacted "bearer-token" ∷ "$2" ∷ []))
    ∷ secret "\\b(?:AKIA|ASIA)[0-9A-Z]{16}\\b" "g" (redacted "aws-access-key")
    ∷ secret "\\bBearer\\s+[A-Za-z0-9._~+/=-]{16,}\\b" "gi" (redacted "bearer-token")
    ∷ secret
        (concat (
          "-----BEGIN [A-Z ]*PRIVATE KEY-----[\\s\\S]*?-----END [A-Z ]*PR" ∷ "IVATE KEY-----" ∷ []))
        "g" (redacted "private-key")
    ∷ []

abbrev pub sensitive_field_name_pattern : RegExp
sensitive_field_name_pattern = record {
  source =
      (concat (
        "token|secret|password|passphrase|api[_-]?key|private[_-]?key"
        ∷ "|access[_-]?key|authorization|credential[_-]?(secret|value|r"
        ∷ "ef)|refresh[_-]?(token|secret)|access[_-]?token|client[_-]?s"
        ∷ "ecret|bot[_-]?token|signing[_-]?secret|webhook[_-]?signing[_" ∷ "-]?secret" ∷ []));
  flags = "i";
}

module _ (engine : TextEngine) where
  unfoldable pub redact_by : List SecretPattern → String → String
  redact_by [] text = text
  redact_by (p ∷ ps) text = redact_by ps (engine.replace p.pattern p.replacement text)

  unfoldable pub redact_secrets : String → String
  unfolding redact_by
  redact_secrets text = redact_by secret_patterns text

  unfoldable pub normalize_field_name : String → String
  normalize_field_name field_name =
      let camel : RegExp = record { source = "([a-z0-9])([A-Z])"; flags = "g" } in
      let space : RegExp = record { source = "\\s+"; flags = "g" } in
      engine.to_lower_case (engine.replace space "_" (engine.replace camel "$1_$2" field_name))

  unfoldable pub is_sensitive_field_name : String → Bool
  unfolding normalize_field_name
  is_sensitive_field_name field_name =
      engine.test sensitive_field_name_pattern (normalize_field_name field_name)

  -- The redaction of the source.
  abbrev pub redactor_of : Redactor
  redactor_of = record {
    redact_secrets = redact_secrets;
    is_sensitive_field_name = is_sensitive_field_name;
  }
