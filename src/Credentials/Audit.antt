-- ===== src/Credentials/Audit.antt =====
-- References to credentials in audit records: packages/credentials/src/audit.ts.
use bek.Common.{ℕ, String, Option, none, some, List, [], ◌∷◌, ◌==◌, concat, or_else, if◌then◌else◌}
use bek.Core.Outbox.{first_units}
use bek.Credentials.Types.{
  CredentialMetadataRecord, CredentialAuditReference, CredentialLeaseStatus,
  CredentialLeaseAuditReference,
}

-- SHA-256 of a text in hexadecimal, which the platform computes.
pub record Hasher : Type 0 where
  pub sha256_hex : String → String

-- A field that is set only where the value is a text that is not empty.
unfoldable pub present : Option String → Option String
present none = none
present (some s) = if s == "" then none else some s

-- Each part is hashed after a character 0.
abbrev pub hashed_parts : List String → List String
hashed_parts [] = []
hashed_parts (part ∷ parts) = "\0" ∷ part ∷ hashed_parts parts

unfoldable pub create_credential_fingerprint : Hasher → List String → Option String → String
create_credential_fingerprint hasher parts salt = concat (
    "sha256:"
    ∷ first_units 32
        (hasher.sha256_hex (concat (or_else salt "bek.credentials.audit.v1" ∷ hashed_parts parts)))
    ∷ [])

unfoldable pub create_credential_audit_reference :
    Hasher → CredentialMetadataRecord → Option String → CredentialAuditReference
unfolding present
create_credential_audit_reference hasher credential salt = record {
  credential_id = credential.id;
  org_id = credential.org_id;
  provider = credential.provider;
  status = credential.status;
  scope_summary = credential.scope_summary;
  secret_ref_fingerprint =
      create_credential_fingerprint hasher
        (credential.org_id ∷ credential.id ∷ credential.provider ∷ credential.secret_ref ∷ []) salt;
  connector_install_id = present credential.connector_install_id;
  external_account_id = present credential.external_account_id;
}

-- `createCredentialLeaseAuditReference` of a credential's record, which is what the broker gives it.
unfoldable pub create_credential_lease_audit_reference :
    Hasher
    → String
    → CredentialMetadataRecord
    → ℕ
    → ℕ
    → String
    → List String
    → CredentialLeaseStatus
    → Option String
    → CredentialLeaseAuditReference
create_credential_lease_audit_reference hasher lease_id credential issued_at expires_at purpose
      scopes status salt =
    record {
      lease_id = lease_id;
      credential = create_credential_audit_reference hasher credential salt;
      issued_at = issued_at;
      expires_at = expires_at;
      purpose = purpose;
      scopes = scopes;
      status = status;
    }
