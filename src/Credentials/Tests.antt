-- ===== src/Credentials/Tests.antt =====
-- Leases of credentials at concrete inputs: packages/credentials/src.
use bek.Common.{
  ℕ, ◌≡◌, refl, ◌↔◌, true, none, some, List, [], ◌∷◌, concat, decimal, keep, unique, sort_texts,
  sort_with, insert_with, text_before, trim, trimmed, is_space, includes, any, arith,
}
use bek.Credentials.Types.{
  Timestamp, CredentialStatus, CredentialMetadataRecord, CredentialLease, CredentialLeaseRequest,
  returned,
}
use bek.Credentials.Broker.{normalize_ttl_ms, issue_lease, issue_live, issue_until, new_stored}
use bek.Credentials.Broker.State.{
  BrokerOptions, Broker, is_valid_options, trimmed_all, normalize_scopes, normalize_required_string,
  parse_optional_timestamp, is_leaseable_credential_status,
}
use bek.Credentials.Broker.Calls.{Call, issue, renew, revoke, get, list, sweep, resolve, run}
use bek.Credentials.Grants.{Grant}
use bek.Credentials.Promises.{ServesAll}
use bek.Credentials.Refinement.Runs.{run-ServesAll}
use bek.Credentials.Health.{
  CredentialHealth, CredentialHealthState, CredentialHealthReason, parse_scope_summary, split_parts,
  compute_missing_scopes, derive_credential_health, health_by_status, health_by_expiry,
  health_in_force, collect_active_lease_ids,
}
use bek.Credentials.Health.Leaseable.{Issues, derive_credential_health-issue_lease}

abbrev options : BrokerOptions
options = record {
  default_ttl_ms = 300;
  max_ttl_ms = 900;
  id_factory = λ prefix n. concat (prefix ∷ "_" ∷ decimal n ∷ []);
  fingerprint_salt = none;
  hasher = record { sha256_hex = λ s. s };
}

options-valid : is_valid_options options ≡ true
unfolding is_valid_options
options-valid = refl

abbrev credential : CredentialMetadataRecord
credential = record {
  id = "credential_1";
  org_id = "org_1";
  name = "GitHub";
  provider = "github";
  secret_ref = "vault:1";
  status = CredentialStatus.active;
  scope_summary = "repo, read:org";
  connector_install_id = none;
  external_account_id = none;
  encrypted_metadata = none;
  expires_at = some (Timestamp.date 1400);
  rotation_due_at = none;
  last_used_at = none;
  created_at = none;
  updated_at = none;
}

abbrev request : CredentialLeaseRequest
request = record {
  credential = credential;
  purpose = " open a pull request ";
  scopes = some ("repo" ∷ " " ∷ "issues " ∷ "repo" ∷ []);
  ttl_ms = some 600;
  requested_by_principal_id = some "principal_1";
  run_id = none;
}

abbrev empty_broker : Broker
empty_broker = record { leases = []; next_id = 1 }

scopes-sorted : normalize_scopes request.scopes ≡ "issues" ∷ "repo" ∷ []
unfolding normalize_scopes trimmed trim is_space unique sort_texts sort_with insert_with text_before
    keep
scopes-sorted = refl

summary-parsed : parse_scope_summary " repo,, read:org" ≡ "repo" ∷ "read:org" ∷ []
unfolding parse_scope_summary split_parts is_space trimmed_all trimmed trim unique keep
summary-parsed = refl

missing-scopes :
    compute_missing_scopes credential.scope_summary (some ("admin" ∷ "repo" ∷ [])) ≡ "admin" ∷ []
unfolding compute_missing_scopes parse_scope_summary split_parts is_space trimmed_all trimmed trim
    unique keep includes any sort_texts sort_with insert_with
missing-scopes = refl

-- The lease is cut off where the credential expires.
issued-expiry :
    (e : ℕ) × (l : CredentialLease) × ((issue_lease options request 1000 empty_broker).0
      ≡ returned l)
    × (l.expires_at ≡ e)
    × (◌≡◌ {A = ℕ} e 1400)
unfolding issue_lease issue_live issue_until is_leaseable_credential_status parse_optional_timestamp
    normalize_ttl_ms normalize_required_string trimmed trim is_space new_stored
issued-expiry = (1400, _, refl, refl, refl)

abbrev calls : List Call
calls =
    issue request 1000
    ∷ get "credential_lease_1" 1200
    ∷ renew (record { lease_id = "credential_lease_1"; ttl_ms = some 100 }) 1210 1220
    ∷ resolve "credential_lease_1" 1300
    ∷ sweep 1330
    ∷ revoke (record { lease_id = "credential_lease_1"; revoked_at = none }) 1340 1341
    ∷ list 1350
    ∷ []

run-ServesAll_example :
    (after : List Grant) × ServesAll options calls []
      (run options calls (record { leases = []; next_id = 1 })).0
      after
run-ServesAll_example = run-ServesAll options 1000 1 calls (omega arith)

abbrev healthy : CredentialHealth
healthy = record {
  credential_id = "credential_1";
  state = CredentialHealthState.active;
  reason = CredentialHealthReason.credential_active;
  leaseable = true;
  missing_scopes = none;
  active_lease_ids = none;
}

is_healthy :
    derive_credential_health credential
      (record { now = 1000; required_scopes = none; leases = none })
    ≡ returned healthy
unfolding derive_credential_health health_by_status health_by_expiry health_in_force
    compute_missing_scopes parse_optional_timestamp collect_active_lease_ids
is_healthy = refl

ttl-allowed : normalize_ttl_ms options request.ttl_ms ≡ returned 600
unfolding normalize_ttl_ms
ttl-allowed = refl

purpose-trimmed : normalize_required_string request.purpose ≡ returned "open a pull request"
unfolding normalize_required_string trimmed trim is_space
purpose-trimmed = refl

derive_credential_health-issue_lease_example :
    (healthy.leaseable ≡ true) ↔ Issues options request 1000 empty_broker
derive_credential_health-issue_lease_example =
    derive_credential_health-issue_lease options request 1000 none empty_broker healthy 600
      "open a pull request" is_healthy ttl-allowed purpose-trimmed
