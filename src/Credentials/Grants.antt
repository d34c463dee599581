-- ===== src/Credentials/Grants.antt =====
-- What the broker of packages/credentials/src/leases.ts promises: leases whose status is a function
-- of the time, so that nothing has to be marked as expired.
use bek.Common.{
  ℕ, ◌+◌, ◌≤◌, ◌<◌, ◌≡◌, String, Option, none, some, List, [], ◌∷◌, ◌++◌, set, find_index, leb,
  if◌then◌else◌, ◌==◌,
}
use bek.Credentials.Types.{CredentialMetadataRecord, CredentialLeaseStatus, CredentialLease}
use bek.Credentials.Audit.{create_credential_lease_audit_reference}
use bek.Credentials.Broker.State.{BrokerOptions, StoredCredentialLease, is_active}

-- A lease that was issued, and when it was revoked.
pub record Grant : Type 0 where
  pub id : String
  pub credential : CredentialMetadataRecord
  pub purpose : String
  pub scopes : List String
  pub issued_at : ℕ
  pub expires_at : ℕ
  pub ttl_ms : ℕ
  pub requested_by_principal_id : Option String
  pub run_id : Option String
  pub revoked_at : Option ℕ
  pub credential_expires_at : Option ℕ

unfoldable pub status_at : ℕ → Grant → CredentialLeaseStatus
status_at t g = elim g.revoked_at [
  | some _ ↦ CredentialLeaseStatus.revoked
  | none ↦
      if leb g.expires_at t then CredentialLeaseStatus.expired else CredentialLeaseStatus.active
]

module _ (o : BrokerOptions) where
  -- The lease of a grant, in a status.
  abbrev pub lease_as : CredentialLeaseStatus → Grant → CredentialLease
  lease_as status g = record {
    id = g.id;
    credential_id = g.credential.id;
    org_id = g.credential.org_id;
    provider = g.credential.provider;
    purpose = g.purpose;
    scopes = g.scopes;
    issued_at = g.issued_at;
    expires_at = g.expires_at;
    ttl_ms = g.ttl_ms;
    status = status;
    audit_ref =
        create_credential_lease_audit_reference o.hasher g.id g.credential g.issued_at g.expires_at
          g.purpose g.scopes status o.fingerprint_salt;
    requested_by_principal_id = g.requested_by_principal_id;
    run_id = g.run_id;
    revoked_at = g.revoked_at;
  }

  abbrev pub stored_as : CredentialLeaseStatus → Grant → StoredCredentialLease
  stored_as status g = record {
    lease = lease_as status g;
    credential = g.credential;
    secret_ref = g.credential.secret_ref;
    credential_expires_at_ms = g.credential_expires_at;
  }

  -- The lease as it is seen at a time.
  abbrev pub view : ℕ → Grant → CredentialLease
  view t g = lease_as (status_at t g) g

-- The lease is live at the time.
abbrev pub IsLive : ℕ → Grant → Type 0
IsLive t g = (g.revoked_at ≡ none) × (t < g.expires_at)

abbrev pub find_grant : String → List Grant → Option (ℕ × Grant)
find_grant id gs = find_index (λ (g : Grant). g.id == id) gs

-- A lease of the same id is replaced.
abbrev pub put_grant : Grant → List Grant → List Grant
put_grant g gs = elim (find_grant g.id gs) [ some (i, _) ↦ set gs i g | none ↦ gs ++ g ∷ [] ]

abbrev pub live_of : ℕ → List Grant → List Grant
live_of t [] = []
live_of t (g ∷ gs) = if is_active (status_at t g) then g ∷ live_of t gs else live_of t gs

-- The expiry lies in the future, within the most that the options allow and no later than the
-- credential's.
pub record IsBounded (o : BrokerOptions) (now : ℕ) (g : Grant) : Type 0 where
  pub future : now < g.expires_at
  pub within_max : g.expires_at ≤ now + o.max_ttl_ms
  pub within_credential : (at : ℕ) → g.credential_expires_at ≡ some at → g.expires_at ≤ at
