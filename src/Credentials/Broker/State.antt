-- ===== src/Credentials/Broker/State.antt =====
-- The state of InMemoryCredentialLeaseBroker of packages/credentials/src/leases.ts, and the reading of
-- its inputs.
use bek.Common.{
  ℕ, String, Bool, true, false, ◌&&◌, Option, none, some, List, [], ◌∷◌, ◌++◌, set, find_index,
  or_else, ltb, leb, if◌then◌else◌, ◌==◌, unique, sort_texts, trimmed,
}
use bek.Credentials.Types.{
  Timestamp, CredentialStatus, CredentialMetadataRecord, CredentialLeaseStatus, CredentialLease,
  CredentialLeaseTarget, not_a_timestamp, purpose_required, Outcome, returned, threw,
}
use bek.Credentials.Audit.{Hasher}

pub record BrokerOptions : Type 0 where
  pub default_ttl_ms : ℕ
  pub max_ttl_ms : ℕ
  pub id_factory : String → ℕ → String
  pub fingerprint_salt : Option String
  pub hasher : Hasher

pub record StoredCredentialLease : Type 0 where
  pub lease : CredentialLease
  pub credential : CredentialMetadataRecord
  pub secret_ref : String
  pub credential_expires_at_ms : Option ℕ

-- The entries of the map, each under the id of its lease, in the order of insertion; and the count
-- of identifiers made.
pub record Broker : Type 0 where
  pub leases : List StoredCredentialLease
  pub next_id : ℕ

-- The most safe integer of the platform.
abbrev pub max_safe_integer : ℕ
max_safe_integer = 9007199254740991

-- `Number.isSafeInteger(n) && n > 0`
abbrev pub is_positive_safe : ℕ → Bool
is_positive_safe n = ltb 0 n && leb n max_safe_integer

-- The checks of the constructor.
unfoldable pub is_valid_options : BrokerOptions → Bool
is_valid_options o =
    is_positive_safe o.default_ttl_ms
    && is_positive_safe o.max_ttl_ms
    && leb o.default_ttl_ms o.max_ttl_ms

unfoldable pub is_leaseable_credential_status : CredentialStatus → Bool
is_leaseable_credential_status CredentialStatus.active = true
is_leaseable_credential_status CredentialStatus.rotation_due = true
is_leaseable_credential_status _ = false

unfoldable pub parse_optional_timestamp : Option Timestamp → Outcome (Option ℕ)
parse_optional_timestamp none = returned none
parse_optional_timestamp (some (Timestamp.date ms)) = returned (some ms)
parse_optional_timestamp (some (Timestamp.no_date _)) = threw not_a_timestamp

-- The texts of the list that are not blank, trimmed.
unfoldable pub trimmed_all : List String → List String
trimmed_all [] = []
trimmed_all (x ∷ xs) = elim (trimmed x) [ none ↦ trimmed_all xs | some t ↦ t ∷ trimmed_all xs ]

unfoldable pub normalize_scopes : Option (List String) → List String
unfolding trimmed_all
normalize_scopes scopes = sort_texts (unique (trimmed_all (or_else scopes [])))

unfoldable pub normalize_required_string : String → Outcome String
normalize_required_string value = elim (trimmed value) [
  | none ↦ threw purpose_required
  | some t ↦ returned t
]

unfoldable pub normalize_optional_string : Option String → Option String
normalize_optional_string none = none
normalize_optional_string (some value) = trimmed value

abbrev pub is_active : CredentialLeaseStatus → Bool
is_active CredentialLeaseStatus.active = true
is_active _ = false

-- The expiry that is asked for, no later than the credential's.
abbrev pub capped : ℕ → Option ℕ → ℕ
capped requested none = requested
capped requested (some expires_at) = if leb requested expires_at then requested else expires_at

-- The credential has expired by then.
abbrev pub is_past : Option ℕ → ℕ → Bool
is_past none now = false
is_past (some expires_at) now = leb expires_at now

-- `this.leases.get(leaseId)`, with its place.
unfoldable pub get_stored : String → Broker → Option (ℕ × StoredCredentialLease)
get_stored id b = find_index (λ (s : StoredCredentialLease). s.lease.id == id) b.leases

unfoldable pub put_stored : ℕ → StoredCredentialLease → Broker → Broker
put_stored i s b = record b { leases = set b.leases i s }

-- `this.leases.set(leaseId, stored)`
unfoldable pub set_stored : StoredCredentialLease → Broker → Broker
unfolding get_stored put_stored
set_stored s b = elim (get_stored s.lease.id b) [
  | some (i, _) ↦ put_stored i s b
  | none ↦ record b { leases = b.leases ++ s ∷ [] }
]

abbrev pub target_of : StoredCredentialLease → CredentialLeaseTarget
target_of s = record {
  lease_id = s.lease.id;
  credential_id = s.lease.credential_id;
  org_id = s.lease.org_id;
  provider = s.lease.provider;
  secret_ref = s.secret_ref;
  scopes = s.lease.scopes;
  expires_at = s.lease.expires_at;
  audit_ref = s.lease.audit_ref;
}

-- `stored ? … : undefined`
abbrev pub found_lease : Option (ℕ × StoredCredentialLease) → Option CredentialLease
found_lease none = none
found_lease (some (_, s)) = some s.lease

abbrev pub found_target : Option (ℕ × StoredCredentialLease) → Option CredentialLeaseTarget
found_target none = none
found_target (some (_, s)) = some (target_of s)
