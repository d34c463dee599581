-- ===== src/Credentials/Refinement/Renewals.antt =====
-- The calls that renew and revoke leases.
use bek.Common.{
  ℕ, ◌+◌, ◌-◌, ◌≤◌, ◌≡◌, refl, sym, ap, ◌∙◌, subst, inl, inr, Bool-cases, true, false, none, some,
  List, set, or_else, leb, Pairwise-set, arith,
}
use bek.Credentials.Types.{
  CredentialLeaseStatus, RenewCredentialLeaseInput, RevokeCredentialLeaseInput, CredentialError,
  returned, threw,
}
use bek.Credentials.Broker.{
  normalize_ttl_ms, refresh_audit_ref, create_lease_audit_reference, expire_if_needed, renew_stored,
  renew_found, renew_lease, revoke_stored, revoke_lease, get_stored_active_lease,
}
use bek.Credentials.Broker.State.{
  BrokerOptions, StoredCredentialLease, Broker, is_active, capped, put_stored,
}
use bek.Credentials.Broker.Calls.{renew, revoke, Reply, outcome, found, perform}
use bek.Credentials.Grants.{Grant, status_at, stored_as, view, find_grant}
use bek.Credentials.Represents.{
  IsLive-active, active-eq, Represents, Represents-active, Represents-revoked, RepresentsAll,
  RepresentsAll-later, Represents-expire, get_stored-cases,
}
use bek.Credentials.Lookups.{live_grant-some, put_stored-Represents, get_stored_active_lease-cases}
use bek.Credentials.Refinement.Reads.{Keeps}
use bek.Credentials.Refinement.Changes.{as_outcome, Outcome-cases, capped-IsBounded, live-view}

module _ (o : BrokerOptions) where
  -- A live lease that is written to.
  renewed : Grant → ℕ → ℕ → Grant
  renewed g now expires_at = record g { expires_at = expires_at; ttl_ms = expires_at - now }

  renew_stored-Keeps :
      (clock later i : ℕ) (request : RenewCredentialLeaseInput) (b : Broker) (gs : List Grant)
      (g : Grant)
      → clock ≤ later
      → RepresentsAll o clock b.leases gs
      → find_grant request.lease_id gs ≡ some (i, g)
      → is_active (status_at clock g) ≡ true
      → Keeps o (renew request clock later) gs (
          as_outcome o
            (renew_stored o i (stored_as o CredentialLeaseStatus.active g) request.ttl_ms later b))
  unfolding renew_stored refresh_audit_ref create_lease_audit_reference renewed
  renew_stored-Keeps clock later i request b gs g le h stands on =
      elim (Outcome-cases (normalize_ttl_ms o request.ttl_ms)) [
        | inl (err, bad) ↦ rw (bad, renew_stored) (kept_back err)
        | inr (ttl, e) ↦
            elim (Bool-cases (leb (capped (later + ttl) g.credential_expires_at) later)) [
              | inl at_once ↦ rw (e, renew_stored, at_once) (kept_back _)
              | inr future ↦
                  let g' = renewed g later (capped (later + ttl) g.credential_expires_at) in
                  let bounded = capped-IsBounded o request.ttl_ms ttl later g' e refl future in
                  rw (e, renew_stored, future)
                    (record {
                      after = set gs i g';
                      serves = inr (
                          inr (
                            i,
                            g,
                            g',
                            stands,
                            record {
                              live = IsLive-active clock g on;
                              rest_kept = refl;
                              bounded = bounded;
                              lasts = refl;
                            },
                            ap (λ l. outcome (returned l))
                                (sym (
                                  live-view o later g' (IsLive-active clock g on).0
                                    bounded.future)),
                            refl,
                          ));
                      represents =
                          Pairwise-set (Represents o later) b.leases gs i
                            (RepresentsAll-later o clock later b.leases gs le h)
                            (Represents-active o later _ g' refl (IsLive-active clock g on).0);
                    })
            ]
      ]
    where
      kept_back :
          (err : CredentialError) → Keeps o (renew request clock later) gs (outcome (threw err), b)
      kept_back err = record {
        after = gs;
        serves = inr (
            inl (
              err,
              λ none_live.
                  cc
                    (none_live, live_grant-some o clock (find_grant request.lease_id gs) stands on),
              refl,
              refl,
            ));
        represents = RepresentsAll-later o clock later b.leases gs le h;
      }

  pub renew-Keeps :
      (t clock later : ℕ) (request : RenewCredentialLeaseInput) (b : Broker) (gs : List Grant)
      → t ≤ clock
      → clock ≤ later
      → RepresentsAll o t b.leases gs
      → Keeps o (renew request clock later) gs (perform o (renew request clock later) b)
  unfolding perform renew_lease
  renew-Keeps t clock later request b gs le le' h =
      let b' = (get_stored_active_lease o request.lease_id clock b).1 in
      elim (get_stored_active_lease-cases o t clock request.lease_id b gs le h) [
        | inl m ↦
            subst
              (λ x.
                Keeps o (renew request clock later) gs
                  (as_outcome o (renew_found o x request.ttl_ms later b')))
              (sym m.reply)
              (unfold renew_found in
                record {
                  after = gs;
                  serves = inl (m.dead, refl, refl);
                  represents = RepresentsAll-later o clock later b'.leases gs le' m.represents;
                })
        | inr m ↦
            subst
              (λ x.
                Keeps o (renew request clock later) gs
                  (as_outcome o (renew_found o x request.ttl_ms later b')))
              (sym m.reply)
              (unfold renew_found in
                renew_stored-Keeps clock later m.place request b' gs m.grant le' m.represents
                  m.stands m.live)
      ]

  -- The reply of `revokeLease` on a lease after `expireIfNeeded`.
  abbrev revoked_reply : ℕ → ℕ → Broker → StoredCredentialLease → Reply × Broker
  revoked_reply i now b s =
      (found (some (revoke_stored o s now).lease), put_stored i (revoke_stored o s now) b)

  revoke_active-Represents :
      (t now : ℕ) (g : Grant)
      → g.revoked_at ≡ none
      → Represents o t
          (revoke_stored o (stored_as o CredentialLeaseStatus.active g) now)
          (record g { revoked_at = some now })
  unfolding revoke_stored refresh_audit_ref create_lease_audit_reference
  revoke_active-Represents t now g h = Represents-revoked o t now _ g refl

  revoke_active-view :
      (t now : ℕ) (g : Grant)
      → (revoke_stored o (stored_as o CredentialLeaseStatus.active g) now).lease
        ≡ view o t (record g { revoked_at = some now })
  unfolding revoke_stored refresh_audit_ref create_lease_audit_reference status_at
  revoke_active-view t now g = refl

  revoke_over :
      (s : StoredCredentialLease) (now : ℕ)
      → is_active s.lease.status ≡ false
      → revoke_stored o s now ≡ s
  unfolding revoke_stored
  revoke_over s now off = rw off refl

  revoke_found-Keeps :
      (t clock later i : ℕ) (request : RevokeCredentialLeaseInput) (b : Broker) (gs : List Grant)
      (s : StoredCredentialLease) (g : Grant)
      → t ≤ or_else request.revoked_at clock
      → or_else request.revoked_at clock ≤ or_else request.revoked_at later
      → RepresentsAll o t b.leases gs
      → find_grant request.lease_id gs ≡ some (i, g)
      → Represents o t s g
      → Keeps o (revoke request clock later) gs (
          revoked_reply i
            (or_else request.revoked_at later)
            b
            (expire_if_needed o s (or_else request.revoked_at clock)))
  unfolding put_stored
  revoke_found-Keeps t clock later i request b gs s g le le' h stands r =
      let at = or_else request.revoked_at clock in
      let then' = or_else request.revoked_at later in
      let seen = r at le in
      elim (Bool-cases (is_active (status_at at g))) [
        | inl on ↦
            let e : expire_if_needed o s at ≡ stored_as o CredentialLeaseStatus.active g =
              seen ∙ ap (λ st. stored_as o st g) (active-eq _ on) in
            let live = IsLive-active at g on in
            rw e (record {
              after = set gs i (record g { revoked_at = some then' });
              serves = inr (
                  inr (
                    i,
                    g,
                    stands,
                    live,
                    ap (λ l. found (some l)) (revoke_active-view then' then' g),
                    refl,
                  ));
              represents =
                  Pairwise-set (Represents o then') b.leases gs i
                    (RepresentsAll-later o t then' b.leases gs (omega (arith, le, le')) h)
                    (revoke_active-Represents then' then' g live.0);
            })
        | inr off ↦
            let e =
              revoke_over (expire_if_needed o s at) then'
                (ap (λ (x : StoredCredentialLease). is_active x.lease.status) seen ∙ off) in
            record {
              after = gs;
              serves = inr (
                  inl (
                    i,
                    g,
                    stands,
                    off,
                    ap (λ (x : StoredCredentialLease). found (some x.lease)) (e ∙ seen),
                    refl,
                  ));
              represents = RepresentsAll-later o at then' _ gs le' (
                  subst (λ x. RepresentsAll o at (put_stored i x b).leases gs) (sym e)
                    (put_stored-Represents o t at i request.lease_id b gs _ le h stands
                      (Represents-expire o t at s g le r)));
            }
      ]

  pub revoke-Keeps :
      (t clock later : ℕ) (request : RevokeCredentialLeaseInput) (b : Broker) (gs : List Grant)
      → t ≤ or_else request.revoked_at clock
      → or_else request.revoked_at clock ≤ or_else request.revoked_at later
      → RepresentsAll o t b.leases gs
      → Keeps o (revoke request clock later) gs (perform o (revoke request clock later) b)
  unfolding perform revoke_lease
  revoke-Keeps t clock later request b gs le le' h =
      let at = or_else request.revoked_at clock in
      let then' = or_else request.revoked_at later in
      elim (get_stored-cases o t request.lease_id b gs h) [
        | inl (out, none_of) ↦
            rw (out, revoke_lease)
              (record {
                after = gs;
                serves = inl (none_of, refl, refl);
                represents = RepresentsAll-later o t then' b.leases gs (omega (arith, le, le')) h;
              })
        | inr (i, s, g, stored, stands, r) ↦
            rw (stored, revoke_lease)
              (revoke_found-Keeps t clock later i request b gs s g le le' h stands r)
      ]
