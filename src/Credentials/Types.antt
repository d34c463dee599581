-- ===== src/Credentials/Types.antt =====
-- The types of packages/credentials/src/types.ts.
use bek.Common.{ℕ, String, Option, List}

-- An instant in a text, by its milliseconds, or a text that is no date.
pub data Timestamp : Type 0 where
  date : ℕ → Timestamp
  no_date : String → Timestamp

pub data CredentialStatus : Type 0 where
  active disabled rotation_due revoked : CredentialStatus

pub record EncryptedCredentialMetadataEnvelope : Type 0 where
  pub key_id : String
  pub nonce : String
  pub tag : String
  pub ciphertext : String
  pub created_at : String
  pub aad : Option String

pub record CredentialMetadataRecord : Type 0 where
  pub id : String
  pub org_id : String
  pub name : String
  pub provider : String
  pub secret_ref : String
  pub status : CredentialStatus
  pub scope_summary : String
  pub connector_install_id : Option String
  pub external_account_id : Option String
  pub encrypted_metadata : Option EncryptedCredentialMetadataEnvelope
  pub expires_at : Option Timestamp
  pub rotation_due_at : Option Timestamp
  pub last_used_at : Option Timestamp
  pub created_at : Option Timestamp
  pub updated_at : Option Timestamp

pub record CredentialAuditReference : Type 0 where
  pub credential_id : String
  pub org_id : String
  pub provider : String
  pub status : CredentialStatus
  pub scope_summary : String
  pub secret_ref_fingerprint : String
  pub connector_install_id : Option String
  pub external_account_id : Option String

pub data CredentialLeaseStatus : Type 0 where
  active expired revoked : CredentialLeaseStatus

pub record CredentialLeaseAuditReference : Type 0 where
  pub lease_id : String
  pub credential : CredentialAuditReference
  pub issued_at : ℕ
  pub expires_at : ℕ
  pub purpose : String
  pub scopes : List String
  pub status : CredentialLeaseStatus

pub record CredentialLease : Type 0 where
  pub id : String
  pub credential_id : String
  pub org_id : String
  pub provider : String
  pub purpose : String
  pub scopes : List String
  pub issued_at : ℕ
  pub expires_at : ℕ
  pub ttl_ms : ℕ
  pub status : CredentialLeaseStatus
  pub audit_ref : CredentialLeaseAuditReference
  pub requested_by_principal_id : Option String
  pub run_id : Option String
  pub revoked_at : Option ℕ

pub record CredentialLeaseTarget : Type 0 where
  pub lease_id : String
  pub credential_id : String
  pub org_id : String
  pub provider : String
  pub secret_ref : String
  pub scopes : List String
  pub expires_at : ℕ
  pub audit_ref : CredentialLeaseAuditReference

-- A duration that is not positive is the duration 0.
pub record CredentialLeaseRequest : Type 0 where
  pub credential : CredentialMetadataRecord
  pub purpose : String
  pub scopes : Option (List String)
  pub ttl_ms : Option ℕ
  pub requested_by_principal_id : Option String
  pub run_id : Option String

pub record RenewCredentialLeaseInput : Type 0 where
  pub lease_id : String
  pub ttl_ms : Option ℕ

pub record RevokeCredentialLeaseInput : Type 0 where
  pub lease_id : String
  pub revoked_at : Option ℕ

pub data CredentialError : Type 0 where
  not_leaseable not_a_timestamp credential_expired ttl_not_positive ttl_over_max
        would_expire_immediately purpose_required lease_not_active :
      CredentialError

-- What a call returns or throws.
pub data Outcome (A : Type 0) : Type 0 where
  returned : A → Outcome A
  threw : CredentialError → Outcome A
