-- ===== src/Credentials/Health.antt =====
-- The health of a credential: packages/credentials/src/health.ts.
pub mod Leaseable
use Prim.Native.Char.{code}
use bek.Common.{
  ℕ, String, Bool, true, false, not, ◌&&◌, ◌||◌, Option, none, some, List, [], ◌∷◌, map, keep, ltb,
  eqb, if◌then◌else◌, ◌==◌, includes, unique, sort_texts, is_space, trimmed,
}
use bek.Credentials.Types.{
  CredentialStatus, CredentialMetadataRecord, CredentialLease, Outcome, returned, threw,
}
use bek.Credentials.Broker.State.{is_active, is_past, parse_optional_timestamp, trimmed_all}

pub data CredentialHealthState : Type 0 where
  active disabled rotation_due revoked expired missing_scopes : CredentialHealthState

pub data CredentialHealthReason : Type 0 where
  credential_active credential_disabled credential_revoked credential_expired rotation_overdue
        rotation_due_flagged missing_required_scopes :
      CredentialHealthReason

pub record CredentialHealth : Type 0 where
  pub credential_id : String
  pub state : CredentialHealthState
  pub reason : CredentialHealthReason
  pub leaseable : Bool
  pub missing_scopes : Option (List String)
  pub active_lease_ids : Option (List String)

pub record DeriveCredentialHealthOptions : Type 0 where
  pub now : ℕ
  pub required_scopes : Option (List String)
  pub leases : Option (List CredentialLease)

unfoldable pub is_leaseable_credential_health_state : CredentialHealthState → Bool
is_leaseable_credential_health_state CredentialHealthState.active = true
is_leaseable_credential_health_state CredentialHealthState.rotation_due = true
is_leaseable_credential_health_state _ = false

unfoldable pub collect_active_lease_ids :
    String → Option (List CredentialLease) → ℕ → Option (List String)
collect_active_lease_ids credential_id none now = none
collect_active_lease_ids credential_id (some leases) now = some (
    sort_texts (
      map (λ (lease : CredentialLease). lease.id)
        (keep
          (λ (lease : CredentialLease).
            lease.credential_id == credential_id
            && is_active lease.status
            && ltb now lease.expires_at)
          leases)))

-- A separator of `[\s,]+`.
abbrev pub is_separator : ℕ → Bool
is_separator c = is_space c || eqb c 44

-- A part that has begun is put before the others.
abbrev pub part_before : String → List String → List String
part_before part parts = if part == "" then parts else part ∷ parts

-- `split(/[\s,]+/)`, with the part that has begun at the front; parts that are empty, which the
-- source drops later, are dropped here.
unfoldable pub split_parts : String → String × List String
unfolding is_space
split_parts String.[] = ("", [])
split_parts (String.◌∷◌ c s) =
    let (part, parts) = split_parts s in
    if is_separator (code c) then ("", part_before part parts) else (String.◌∷◌ c part, parts)

unfoldable pub parse_scope_summary : String → List String
unfolding split_parts trimmed_all
parse_scope_summary summary =
    let (part, parts) = split_parts summary in unique (trimmed_all (part_before part parts))

unfoldable pub compute_missing_scopes : String → Option (List String) → List String
compute_missing_scopes summary none = []
compute_missing_scopes summary (some required) =
    let advertised = parse_scope_summary summary in
    sort_texts (unique (keep (λ scope. not (includes advertised scope)) (trimmed_all required)))

-- `base` of `deriveCredentialHealth`.
abbrev pub health_of :
    CredentialMetadataRecord
    → DeriveCredentialHealthOptions
    → CredentialHealthState
    → CredentialHealthReason
    → Bool
    → Option (List String)
    → CredentialHealth
health_of credential options state reason leaseable missing = record {
  credential_id = credential.id;
  state = state;
  reason = reason;
  leaseable = leaseable;
  missing_scopes = missing;
  active_lease_ids = collect_active_lease_ids credential.id options.leases options.now;
}

abbrev pub is_rotation_due : CredentialStatus → Bool
is_rotation_due CredentialStatus.rotation_due = true
is_rotation_due _ = false

-- `deriveCredentialHealth` by the missing scopes of a credential that is in force.
unfoldable pub health_in_force :
    List String
    → CredentialMetadataRecord
    → DeriveCredentialHealthOptions
    → Outcome CredentialHealth
health_in_force (scope ∷ scopes) credential options = returned (
    health_of credential options CredentialHealthState.missing_scopes
      CredentialHealthReason.missing_required_scopes false (some (scope ∷ scopes)))
health_in_force [] credential options = elim (parse_optional_timestamp credential.rotation_due_at) [
  | threw e ↦ threw e
  | returned rotation_due_at ↦
      if is_past rotation_due_at options.now
      then returned (
          health_of credential options CredentialHealthState.rotation_due
            CredentialHealthReason.rotation_overdue true none)
      else if is_rotation_due credential.status
      then returned (
          health_of credential options CredentialHealthState.rotation_due
            CredentialHealthReason.rotation_due_flagged true none)
      else returned (
          health_of credential options CredentialHealthState.active
            CredentialHealthReason.credential_active true none)
]

-- `deriveCredentialHealth` on a credential that is neither revoked nor disabled.
unfoldable pub health_by_expiry :
    CredentialMetadataRecord → DeriveCredentialHealthOptions → Outcome CredentialHealth
health_by_expiry credential options = elim (parse_optional_timestamp credential.expires_at) [
  | threw e ↦ threw e
  | returned expires_at ↦
      if is_past expires_at options.now
      then returned (
          health_of credential options CredentialHealthState.expired
            CredentialHealthReason.credential_expired false none)
      else health_in_force (compute_missing_scopes credential.scope_summary options.required_scopes)
          credential options
]

unfoldable pub health_by_status :
    CredentialStatus
    → CredentialMetadataRecord
    → DeriveCredentialHealthOptions
    → Outcome CredentialHealth
health_by_status CredentialStatus.revoked credential options = returned (
    health_of credential options CredentialHealthState.revoked
      CredentialHealthReason.credential_revoked false none)
health_by_status CredentialStatus.disabled credential options = returned (
    health_of credential options CredentialHealthState.disabled
      CredentialHealthReason.credential_disabled false none)
health_by_status _ credential options = health_by_expiry credential options

unfoldable pub derive_credential_health :
    CredentialMetadataRecord → DeriveCredentialHealthOptions → Outcome CredentialHealth
derive_credential_health credential options = health_by_status credential.status credential options
