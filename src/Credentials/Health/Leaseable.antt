-- ===== src/Credentials/Health/Leaseable.antt =====
-- Which credentials may be leased: `deriveCredentialHealth` of packages/credentials/src/health.ts
-- and `issueLease` of packages/credentials/src/leases.ts.
use bek.Common.{
  ℕ, ◌+◌, ◌<◌, ◌≡◌, refl, ap, ◌↔◌, ◌⊎◌, inl, inr, Bool-cases, true, false, Option, none, some, List,
  [], String, leb, arith,
}
use bek.Credentials.Types.{
  CredentialStatus, CredentialMetadataRecord, CredentialLease, CredentialLeaseRequest,
  CredentialError, Outcome, returned, threw,
}
use bek.Credentials.Broker.{normalize_ttl_ms, issue_lease, issue_live, issue_until, new_stored}
use bek.Credentials.Broker.State.{
  BrokerOptions, Broker, is_leaseable_credential_status, parse_optional_timestamp, is_past, capped,
  normalize_required_string,
}
use bek.Credentials.Health.{
  CredentialHealth, DeriveCredentialHealthOptions, compute_missing_scopes, health_in_force,
  health_by_expiry, health_by_status, derive_credential_health,
}

-- The status allows leases, and the credential has not expired.
pub record InForce (credential : CredentialMetadataRecord) (now : ℕ) : Type 0 where
  pub allowed : is_leaseable_credential_status credential.status ≡ true
  pub expires_at : Option ℕ
  pub parsed : parse_optional_timestamp credential.expires_at ≡ returned expires_at
  pub live : is_past expires_at now ≡ false

-- The health that a call returns says so exactly where it does.
abbrev Says : Outcome CredentialHealth → Type 0 → Type 0
Says x P = (h : CredentialHealth) → x ≡ returned h → (h.leaseable ≡ true) ↔ P

Outcome-cases :
    {A : Type 0} (x : Outcome A)
    → ((e : CredentialError) × (x ≡ threw e)) ⊎ ((a : A) × (x ≡ returned a))
Outcome-cases (threw e) = inl (e, refl)
Outcome-cases (returned a) = inr (a, refl)

-- With no scopes required, a credential that is in force is healthy.
in_force-leaseable :
    (credential : CredentialMetadataRecord) (options : DeriveCredentialHealthOptions)
    (h : CredentialHealth)
    → health_in_force [] credential options ≡ returned h
    → h.leaseable ≡ true
unfolding health_in_force
in_force-leaseable credential options h e =
    elim (Outcome-cases (parse_optional_timestamp credential.rotation_due_at)) [
      | inl (err, bad) ↦ absurd (ground arith)
      | inr (due, parsed) ↦ ground arith
    ]

past_not_live :
    {x : Outcome (Option ℕ)} (a b : Option ℕ) (now : ℕ)
    → x ≡ returned a
    → x ≡ returned b
    → is_past a now ≡ true
    → is_past b now ≡ false
    → ⊥
past_not_live a b now e f past live =
    let same : a ≡ b = cc in cc (ap (λ c. is_past c now) same, past, live)

by_expiry-Says :
    (credential : CredentialMetadataRecord) (options : DeriveCredentialHealthOptions)
    → options.required_scopes ≡ none
    → is_leaseable_credential_status credential.status ≡ true
    → Says (health_by_expiry credential options) (InForce credential options.now)
unfolding health_by_expiry compute_missing_scopes
by_expiry-Says credential options free allowed h e =
    elim (Outcome-cases (parse_optional_timestamp credential.expires_at)) [
      | inl (err, bad) ↦ absurd (ground arith)
      | inr (expires_at, parsed) ↦ elim (Bool-cases (is_past expires_at options.now)) [
        | inl past ↦
            let off : h.leaseable ≡ false = ground arith in
            (
              λ on. absurd (cc (on, off)),
              λ f.
                  absurd
                    (past_not_live expires_at f.expires_at options.now parsed f.parsed past f.live),
            )
        | inr live ↦
            let rest : health_in_force [] credential options ≡ returned h = ground arith in
            (
              λ _. record {
                allowed = allowed;
                expires_at = expires_at;
                parsed = parsed;
                live = live;
              },
              λ _. in_force-leaseable credential options h rest,
            )
      ]
    ]

by_status-Says :
    (status : CredentialStatus) (credential : CredentialMetadataRecord)
    (options : DeriveCredentialHealthOptions)
    → credential.status ≡ status
    → options.required_scopes ≡ none
    → Says (health_by_status status credential options) (InForce credential options.now)
unfolding health_by_status is_leaseable_credential_status
by_status-Says CredentialStatus.active credential options st free h e =
    by_expiry-Says credential options free (rw st refl) h e
by_status-Says CredentialStatus.rotation_due credential options st free h e =
    by_expiry-Says credential options free (rw st refl) h e
by_status-Says CredentialStatus.disabled credential options st free h e =
    (λ on. absurd (ground arith), λ f. absurd (ground (arith, f.allowed)))
by_status-Says CredentialStatus.revoked credential options st free h e =
    (λ on. absurd (ground arith), λ f. absurd (ground (arith, f.allowed)))

module _ (o : BrokerOptions) where
  -- The call returns a lease.
  abbrev pub Issues : CredentialLeaseRequest → ℕ → Broker → Type 0
  Issues request now b =
      (lease : CredentialLease) × ((issue_lease o request now b).0 ≡ returned lease)

  capped-later :
      (now ttl : ℕ) (expires_at : Option ℕ)
      → 0 < ttl
      → is_past expires_at now ≡ false
      → leb (capped (now + ttl) expires_at) now ≡ false
  capped-later now ttl none lt live = ground arith
  capped-later now ttl (some at) lt live = ground arith

  normalize_ttl_ms-pos :
      (ttl_ms : Option ℕ) {ttl : ℕ} → normalize_ttl_ms o ttl_ms ≡ returned ttl → 0 < ttl
  unfolding normalize_ttl_ms
  normalize_ttl_ms-pos ttl_ms e = ground arith

  InForce-Issues :
      (request : CredentialLeaseRequest) (now : ℕ) (b : Broker) {ttl : ℕ} {purpose : String}
      → normalize_ttl_ms o request.ttl_ms ≡ returned ttl
      → normalize_required_string request.purpose ≡ returned purpose
      → InForce request.credential now
      → Issues request now b
  unfolding issue_lease issue_live issue_until
  InForce-Issues request now b {ttl} {purpose} timed named f =
      let later =
        capped-later now ttl f.expires_at (normalize_ttl_ms-pos request.ttl_ms timed) f.live in
      let s =
        new_stored o (o.id_factory "credential_lease" b.next_id) request purpose f.expires_at now
          (capped (now + ttl) f.expires_at) in
      (s.lease, simp (f.allowed, f.parsed, f.live, timed, later, named))

  Issues-InForce :
      (request : CredentialLeaseRequest) (now : ℕ) (b : Broker)
      → Issues request now b
      → InForce request.credential now
  unfolding issue_lease issue_live
  Issues-InForce request now b (lease, e) =
      elim (Bool-cases (is_leaseable_credential_status request.credential.status)) [
        | inr refused ↦ absurd (ground arith)
        | inl allowed ↦
            elim (Outcome-cases (parse_optional_timestamp request.credential.expires_at)) [
              | inl (err, bad) ↦ absurd (ground arith)
              | inr (expires_at, parsed) ↦ elim (Bool-cases (is_past expires_at now)) [
                | inl past ↦ absurd (ground arith)
                | inr live ↦ record {
                  allowed = allowed;
                  expires_at = expires_at;
                  parsed = parsed;
                  live = live;
                }
              ]
            ]
      ]

  -- With no scopes required, the health of a credential is leaseable exactly where the broker issues
  -- a lease of it at that time, for a duration that the options allow and a purpose that is not
  -- blank.
  pub derive_credential_health-issue_lease :
      (request : CredentialLeaseRequest) (now : ℕ) (leases : Option (List CredentialLease))
      (b : Broker) (h : CredentialHealth) (ttl : ℕ) (purpose : String)
      → derive_credential_health request.credential
          (record { now = now; required_scopes = none; leases = leases })
        ≡ returned h
      → normalize_ttl_ms o request.ttl_ms ≡ returned ttl
      → normalize_required_string request.purpose ≡ returned purpose
      → (h.leaseable ≡ true) ↔ Issues request now b
  unfolding derive_credential_health
  derive_credential_health-issue_lease request now leases b h ttl purpose e timed named =
      let says =
        by_status-Says request.credential.status request.credential
          (record { now = now; required_scopes = none; leases = leases }) refl refl h e in
      (
        λ on. InForce-Issues request now b timed named (says.0 on),
        λ issued. says.1 (Issues-InForce request now b issued),
      )
