-- ===== src/Credentials/Broker.antt =====
-- The class InMemoryCredentialLeaseBroker of packages/credentials/src/leases.ts. An operation takes
-- the readings of the clock, and returns its outcome with the new broker.
pub mod State
pub mod Calls
use bek.Common.{
  ℕ, zero, suc, ◌+◌, ◌-◌, ◌<◌, min, String, Bool, true, false, not, ◌&&◌, ◌||◌, Option, none, some,
  List, [], ◌∷◌, ◌++◌, map, keep, set, find_index, or_else, ltb, leb, eqb, if◌then◌else◌, ◌==◌,
  unique, sort_texts, trimmed,
}
use bek.Credentials.Types.{
  Timestamp, CredentialStatus, CredentialMetadataRecord, CredentialLeaseStatus,
  CredentialLeaseAuditReference, CredentialLease, CredentialLeaseTarget, CredentialLeaseRequest,
  RenewCredentialLeaseInput, RevokeCredentialLeaseInput, CredentialError, not_leaseable,
  not_a_timestamp, credential_expired, ttl_not_positive, ttl_over_max, would_expire_immediately,
  purpose_required, lease_not_active, Outcome, returned, threw,
}
use bek.Credentials.Audit.{Hasher, create_credential_lease_audit_reference}
use bek.Credentials.Broker.State.{
  Broker, BrokerOptions, StoredCredentialLease, capped, found_lease, found_target, get_stored,
  is_active, is_leaseable_credential_status, is_past, is_positive_safe, is_valid_options,
  max_safe_integer, normalize_optional_string, normalize_required_string, normalize_scopes,
  parse_optional_timestamp, put_stored, set_stored, target_of, trimmed_all,
}

module _ (o : BrokerOptions) where
  unfoldable pub normalize_ttl_ms : Option ℕ → Outcome ℕ
  normalize_ttl_ms ttl_ms =
      let normalized = or_else ttl_ms o.default_ttl_ms in
      if not (is_positive_safe normalized)
      then threw ttl_not_positive
      else if ltb o.max_ttl_ms normalized
      then threw ttl_over_max
      else returned normalized

  unfoldable pub create_lease_audit_reference :
      StoredCredentialLease → CredentialLeaseAuditReference
  create_lease_audit_reference s =
      create_credential_lease_audit_reference o.hasher s.lease.id s.credential s.lease.issued_at
        s.lease.expires_at s.lease.purpose s.lease.scopes s.lease.status o.fingerprint_salt

  -- `stored.lease.auditRef = this.createLeaseAuditReference(stored)`
  unfoldable pub refresh_audit_ref : StoredCredentialLease → StoredCredentialLease
  unfolding create_lease_audit_reference
  refresh_audit_ref s = record s {
    lease = record s.lease { audit_ref = create_lease_audit_reference s };
  }

  unfoldable pub expire_if_needed : StoredCredentialLease → ℕ → StoredCredentialLease
  unfolding refresh_audit_ref
  expire_if_needed s at =
      if is_active s.lease.status && leb s.lease.expires_at at
      then refresh_audit_ref
          (record s { lease = record s.lease { status = CredentialLeaseStatus.expired } })
      else s

  -- The lease that `issueLease` makes.
  unfoldable pub new_stored :
      String → CredentialLeaseRequest → String → Option ℕ → ℕ → ℕ → StoredCredentialLease
  new_stored lease_id request purpose credential_expires_at_ms issued_at expires_at =
      let credential = request.credential in
      let scopes = normalize_scopes request.scopes in
      record {
        lease = record {
          id = lease_id;
          credential_id = credential.id;
          org_id = credential.org_id;
          provider = credential.provider;
          purpose = purpose;
          scopes = scopes;
          issued_at = issued_at;
          expires_at = expires_at;
          ttl_ms = expires_at - issued_at;
          status = CredentialLeaseStatus.active;
          audit_ref =
              create_credential_lease_audit_reference o.hasher lease_id credential issued_at
                expires_at purpose scopes CredentialLeaseStatus.active o.fingerprint_salt;
          requested_by_principal_id = normalize_optional_string request.requested_by_principal_id;
          run_id = normalize_optional_string request.run_id;
          revoked_at = none;
        };
        credential = credential;
        secret_ref = credential.secret_ref;
        credential_expires_at_ms = credential_expires_at_ms;
      }

  -- `issueLease` once the expiry is known; the identifier is made before the purpose is read.
  unfoldable pub issue_until :
      CredentialLeaseRequest → Option ℕ → ℕ → ℕ → Broker → Outcome CredentialLease × Broker
  issue_until request credential_expires_at_ms issued_at expires_at b =
      let lease_id = o.id_factory "credential_lease" b.next_id in
      let b' : Broker = record b { next_id = suc b.next_id } in
      let named =
        elim (normalize_required_string request.purpose)
          as (λ _. Outcome CredentialLease × Broker) [
            | threw e ↦ (threw e, b')
            | returned purpose ↦
                let s =
                  new_stored lease_id request purpose credential_expires_at_ms issued_at
                    expires_at in
                (returned s.lease, set_stored s b')
          ] in
      if leb expires_at issued_at then (threw would_expire_immediately, b) else named

  -- `issueLease` on a credential that may be leased, whose expiry is parsed.
  unfoldable pub issue_live :
      CredentialLeaseRequest → Option ℕ → ℕ → Broker → Outcome CredentialLease × Broker
  issue_live request credential_expires_at_ms now b =
      if is_past credential_expires_at_ms now
      then (threw credential_expired, b)
      else elim (normalize_ttl_ms request.ttl_ms) [
        | threw e ↦ (threw e, b)
        | returned ttl_ms ↦
            issue_until request credential_expires_at_ms now
              (capped (now + ttl_ms) credential_expires_at_ms) b
      ]

  unfoldable pub issue_lease :
      CredentialLeaseRequest → ℕ → Broker → Outcome CredentialLease × Broker
  issue_lease request now b =
      if not (is_leaseable_credential_status request.credential.status)
      then (threw not_leaseable, b)
      else elim (parse_optional_timestamp request.credential.expires_at) [
        | threw e ↦ (threw e, b)
        | returned credential_expires_at_ms ↦ issue_live request credential_expires_at_ms now b
      ]

  -- `getStoredActiveLease`, with the place of the lease, and the broker after it.
  unfoldable pub get_stored_active_lease :
      String → ℕ → Broker → Option (ℕ × StoredCredentialLease) × Broker
  unfolding get_stored put_stored expire_if_needed
  get_stored_active_lease id at b = elim (get_stored id b) [
    | none ↦ (none, b)
    | some (i, s) ↦
        let s' = expire_if_needed s at in
        (if is_active s'.lease.status then some (i, s') else none, put_stored i s' b)
  ]

  -- `renewLease` on the active lease at its place.
  unfoldable pub renew_stored :
      ℕ → StoredCredentialLease → Option ℕ → ℕ → Broker → Outcome CredentialLease × Broker
  unfolding refresh_audit_ref put_stored
  renew_stored i s ttl_ms now b = elim (normalize_ttl_ms ttl_ms) [
    | threw e ↦ (threw e, b)
    | returned ttl ↦
        let expires_at = capped (now + ttl) s.credential_expires_at_ms in
        let s' = refresh_audit_ref (record s {
          lease = record s.lease { expires_at = expires_at; ttl_ms = expires_at - now };
        }) in
        if leb expires_at now
        then (threw would_expire_immediately, b)
        else (returned s'.lease, put_stored i s' b)
  ]

  -- `renewLease` on the active lease, if there is one.
  unfoldable pub renew_found :
      Option (ℕ × StoredCredentialLease) → Option ℕ → ℕ → Broker → Outcome CredentialLease × Broker
  renew_found none ttl_ms now b = (threw lease_not_active, b)
  renew_found (some (i, s)) ttl_ms now b = renew_stored i s ttl_ms now b

  -- The clock is read twice.
  unfoldable pub renew_lease :
      RenewCredentialLeaseInput → ℕ → ℕ → Broker → Outcome CredentialLease × Broker
  renew_lease request clock later b =
      let (found, b') = get_stored_active_lease request.lease_id clock b in
      renew_found found request.ttl_ms later b'

  -- `revokeLease` on the lease after `expireIfNeeded`.
  unfoldable pub revoke_stored : StoredCredentialLease → ℕ → StoredCredentialLease
  unfolding refresh_audit_ref
  revoke_stored s at =
      if is_active s.lease.status
      then refresh_audit_ref (record s {
        lease = record s.lease { status = CredentialLeaseStatus.revoked; revoked_at = some at };
      })
      else s

  unfoldable pub revoke_lease :
      RevokeCredentialLeaseInput → ℕ → ℕ → Broker → Option CredentialLease × Broker
  unfolding get_stored put_stored expire_if_needed revoke_stored
  revoke_lease request clock later b = elim (get_stored request.lease_id b) [
    | none ↦ (none, b)
    | some (i, s) ↦
        let expired = expire_if_needed s (or_else request.revoked_at clock) in
        let s' = revoke_stored expired (or_else request.revoked_at later) in
        (some s'.lease, put_stored i s' b)
  ]

  unfoldable pub get_lease : String → ℕ → Broker → Option CredentialLease × Broker
  get_lease id at b = let (found, b') = get_stored_active_lease id at b in (found_lease found, b')

  unfoldable pub expire_all : ℕ → List StoredCredentialLease → List StoredCredentialLease
  unfolding expire_if_needed
  expire_all at [] = []
  expire_all at (s ∷ ss) = expire_if_needed s at ∷ expire_all at ss

  unfoldable pub active_of : List StoredCredentialLease → List CredentialLease
  active_of [] = []
  active_of (s ∷ ss) =
      let rest = active_of ss in if is_active s.lease.status then s.lease ∷ rest else rest

  unfoldable pub list_active_leases : ℕ → Broker → List CredentialLease × Broker
  unfolding expire_all active_of
  list_active_leases at b =
      let leases = expire_all at b.leases in (active_of leases, record b { leases = leases })

  -- The leases that `sweepExpired` finds to expire.
  unfoldable pub swept_of : ℕ → List StoredCredentialLease → List CredentialLease
  unfolding expire_if_needed
  swept_of at [] = []
  swept_of at (s ∷ ss) =
      let rest = swept_of at ss in
      let s' = expire_if_needed s at in
      if is_active s.lease.status && not (is_active s'.lease.status) then s'.lease ∷ rest else rest

  unfoldable pub sweep_expired : ℕ → Broker → List CredentialLease × Broker
  unfolding expire_all swept_of
  sweep_expired at b = (swept_of at b.leases, record b { leases = expire_all at b.leases })

  unfoldable pub resolve_lease_target : String → ℕ → Broker → Option CredentialLeaseTarget × Broker
  resolve_lease_target id at b =
      let (found, b') = get_stored_active_lease id at b in (found_target found, b')
