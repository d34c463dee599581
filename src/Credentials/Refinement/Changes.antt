-- ===== src/Credentials/Refinement/Changes.antt =====
-- The calls that issue, renew and revoke leases.
use bek.Common.{
  ℕ, suc, ◌+◌, ◌-◌, ◌≤◌, ◌<◌, ◌≡◌, refl, sym, ap, subst, ◌⊎◌, inl, inr, Bool-cases, true, false,
  Option, none, some, List, leb, String, Pairwise-set, Pairwise-snoc, arith,
}
use bek.Credentials.Types.{
  CredentialLeaseStatus, CredentialLease, CredentialLeaseRequest, CredentialError, Outcome,
  returned, threw,
}
use bek.Credentials.Broker.{normalize_ttl_ms, new_stored, issue_until, issue_live, issue_lease}
use bek.Credentials.Broker.State.{
  BrokerOptions, StoredCredentialLease, Broker, capped, is_past, is_leaseable_credential_status,
  parse_optional_timestamp, normalize_scopes, normalize_required_string, normalize_optional_string,
  set_stored,
}
use bek.Credentials.Broker.Calls.{issue, Reply, outcome, perform}
use bek.Credentials.Grants.{Grant, status_at, lease_as, view, find_grant, put_grant, IsBounded}
use bek.Credentials.Represents.{
  Represents, Represents-active, RepresentsAll, RepresentsAll-later, get_stored-cases,
}
use bek.Credentials.Refinement.Reads.{Keeps}

capped-le : (n : ℕ) (c : Option ℕ) → capped n c ≤ n
capped-le n none = omega arith
capped-le n (some m) = ground arith

capped-within : (n at : ℕ) (c : Option ℕ) → c ≡ some at → capped n c ≤ at
capped-within n at none e = absurd (ground arith)
capped-within n at (some m) e = ground arith

pub Outcome-cases :
    {A : Type 0} (x : Outcome A)
    → ((e : CredentialError) × (x ≡ threw e)) ⊎ ((a : A) × (x ≡ returned a))
Outcome-cases (threw e) = inl (e, refl)
Outcome-cases (returned a) = inr (a, refl)

module _ (o : BrokerOptions) where
  normalize_ttl_ms-le :
      (ttl_ms : Option ℕ) {ttl : ℕ} → normalize_ttl_ms o ttl_ms ≡ returned ttl → ttl ≤ o.max_ttl_ms
  unfolding normalize_ttl_ms
  normalize_ttl_ms-le ttl_ms e = ground arith

  -- The bounds that hold once the guards are passed.
  pub capped-IsBounded :
      (ttl_ms : Option ℕ) (ttl now : ℕ) (g : Grant)
      → normalize_ttl_ms o ttl_ms ≡ returned ttl
      → g.expires_at ≡ capped (now + ttl) g.credential_expires_at
      → leb g.expires_at now ≡ false
      → IsBounded o now g
  capped-IsBounded ttl_ms ttl now g e exact future = record {
    future = ground arith;
    within_max =
        omega (
          arith,
          exact,
          capped-le (now + ttl) g.credential_expires_at,
          normalize_ttl_ms-le ttl_ms e,
        );
    within_credential =
        λ at c. omega (arith, exact, capped-within (now + ttl) at g.credential_expires_at c);
  }

  set_stored-Represents :
      (t now : ℕ) (s : StoredCredentialLease) (g : Grant) (b : Broker) (gs : List Grant)
      → t ≤ now
      → RepresentsAll o t b.leases gs
      → Represents o now s g
      → s.lease.id ≡ g.id
      → RepresentsAll o now (set_stored s b).leases (put_grant g gs)
  unfolding set_stored
  set_stored-Represents t now s g b gs le h r same =
      let later = RepresentsAll-later o t now b.leases gs le h in
      elim (get_stored-cases o t s.lease.id b gs h) [
        | inl (out, none_of) ↦
            rw (out, set_stored, subst (λ id. find_grant id gs ≡ none) same none_of, put_grant)
              (Pairwise-snoc (Represents o now) b.leases gs later r)
        | inr (i, s', g', at, stands, _) ↦
            rw
              (at, set_stored, subst (λ id. find_grant id gs ≡ some (i, g')) same stands, put_grant)
              (Pairwise-set (Represents o now) b.leases gs i later r)
      ]

  refused :
      (t now : ℕ) (request : CredentialLeaseRequest) (e : CredentialError) (b b' : Broker)
      (gs : List Grant)
      → t ≤ now
      → RepresentsAll o t b.leases gs
      → b'.leases ≡ b.leases
      → Keeps o (issue request now) gs (outcome (threw e), b')
  refused t now request e b b' gs le h same = record {
    after = gs;
    serves = inl (e, refl, refl);
    represents =
        subst (λ ss. RepresentsAll o now ss gs) (sym same)
          (RepresentsAll-later o t now b.leases gs le h);
  }

  -- The grant that `issueLease` makes.
  abbrev grant_of : String → CredentialLeaseRequest → String → Option ℕ → ℕ → ℕ → Grant
  grant_of id request purpose credential_expires_at now expires_at = record {
    id = id;
    credential = request.credential;
    purpose = purpose;
    scopes = normalize_scopes request.scopes;
    issued_at = now;
    expires_at = expires_at;
    ttl_ms = expires_at - now;
    requested_by_principal_id = normalize_optional_string request.requested_by_principal_id;
    run_id = normalize_optional_string request.run_id;
    revoked_at = none;
    credential_expires_at = credential_expires_at;
  }

  pub live-view :
      (now : ℕ) (g : Grant)
      → g.revoked_at ≡ none
      → now < g.expires_at
      → view o now g ≡ lease_as o CredentialLeaseStatus.active g
  live-view now g h lt =
      let on : status_at now g ≡ CredentialLeaseStatus.active = unfold status_at in ground arith in
      ap (λ st. lease_as o st g) on

  abbrev pub as_outcome : Outcome CredentialLease × Broker → Reply × Broker
  as_outcome (x, b) = (outcome x, b)

  issue_until-Keeps :
      (t now ttl : ℕ) (request : CredentialLeaseRequest) (expiry : Option ℕ) (b : Broker)
      (gs : List Grant)
      → t ≤ now
      → RepresentsAll o t b.leases gs
      → is_leaseable_credential_status request.credential.status ≡ true
      → parse_optional_timestamp request.credential.expires_at ≡ returned expiry
      → normalize_ttl_ms o request.ttl_ms ≡ returned ttl
      → Keeps o
          (issue request now)
          gs
          (as_outcome (issue_until o request expiry now (capped (now + ttl) expiry) b))
  unfolding issue_until new_stored
  issue_until-Keeps t now ttl request expiry b gs le h leaseable parsed e =
      elim (Bool-cases (leb (capped (now + ttl) expiry) now)) [
        | inl at_once ↦ rw at_once (refused t now request _ b b gs le h refl)
        | inr future ↦ elim (Outcome-cases (normalize_required_string request.purpose)) [
          | inl (err, blank) ↦
              rw (future, blank)
                (refused t now request err b (record b { next_id = suc b.next_id }) gs le h refl)
          | inr (purpose, named) ↦
              let g =
                grant_of (o.id_factory "credential_lease" b.next_id) request purpose expiry now
                  (capped (now + ttl) expiry) in
              let bounded = capped-IsBounded request.ttl_ms ttl now g e refl future in
              rw (future, named)
                (record {
                  after = put_grant g gs;
                  serves = inr (
                    g,
                    record {
                      leaseable = leaseable;
                      same_credential = refl;
                      parsed = parsed;
                      unrevoked = refl;
                      issued = refl;
                      bounded = bounded;
                      lasts = refl;
                    },
                    ap (λ l. outcome (returned l)) (sym (live-view now g refl bounded.future)),
                    refl,
                  );
                  represents =
                      set_stored-Represents t now _ g (record b { next_id = suc b.next_id }) gs le h
                        (Represents-active o now _ g refl refl) refl;
                })
        ]
      ]

  issue_live-Keeps :
      (t now : ℕ) (request : CredentialLeaseRequest) (expiry : Option ℕ) (b : Broker)
      (gs : List Grant)
      → t ≤ now
      → RepresentsAll o t b.leases gs
      → is_leaseable_credential_status request.credential.status ≡ true
      → parse_optional_timestamp request.credential.expires_at ≡ returned expiry
      → Keeps o (issue request now) gs (as_outcome (issue_live o request expiry now b))
  unfolding issue_live
  issue_live-Keeps t now request expiry b gs le h leaseable parsed =
      elim (Bool-cases (is_past expiry now)) [
        | inl past ↦ rw past (refused t now request _ b b gs le h refl)
        | inr live ↦ elim (Outcome-cases (normalize_ttl_ms o request.ttl_ms)) [
          | inl (err, bad) ↦ rw (live, bad) (refused t now request err b b gs le h refl)
          | inr (ttl, e) ↦
              rw (live, e) (issue_until-Keeps t now ttl request expiry b gs le h leaseable parsed e)
        ]
      ]

  pub issue-Keeps :
      (t now : ℕ) (request : CredentialLeaseRequest) (b : Broker) (gs : List Grant)
      → t ≤ now
      → RepresentsAll o t b.leases gs
      → Keeps o (issue request now) gs (perform o (issue request now) b)
  unfolding perform issue_lease
  issue-Keeps t now request b gs le h =
      elim (Bool-cases (is_leaseable_credential_status request.credential.status)) [
        | inr no_lease ↦ rw no_lease (refused t now request _ b b gs le h refl)
        | inl leaseable ↦
            elim (Outcome-cases (parse_optional_timestamp request.credential.expires_at)) [
              | inl (err, bad) ↦ rw (leaseable, bad) (refused t now request err b b gs le h refl)
              | inr (expiry, parsed) ↦
                  rw (leaseable, parsed)
                    (issue_live-Keeps t now request expiry b gs le h leaseable parsed)
            ]
      ]
