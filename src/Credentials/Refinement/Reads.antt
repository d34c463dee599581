-- ===== src/Credentials/Refinement/Reads.antt =====
-- The calls that read leases: getLease, resolveLeaseTarget, listActiveLeases and sweepExpired.
use bek.Common.{
  ℕ, suc, ◌≤◌, ◌≡◌, refl, sym, ap, ◌∙◌, inl, inr, Bool-cases, true, false, not, ◌&&◌, some, List,
  [], ◌∷◌, map, All, All-imp, Among, String, arith,
}
use bek.Credentials.Types.{CredentialLeaseStatus, CredentialLease}
use bek.Credentials.Broker.{
  expire_if_needed, get_lease, resolve_lease_target, expire_all, active_of, swept_of,
  list_active_leases, sweep_expired,
}
use bek.Credentials.Broker.State.{
  BrokerOptions, StoredCredentialLease, Broker, is_active, found_lease, found_target,
}
use bek.Credentials.Broker.Calls.{Call, get, list, sweep, resolve, Reply, found, target, perform}
use bek.Credentials.Grants.{Grant, status_at, lease_as, view, live_of}
use bek.Credentials.Promises.{Serves, ends, shown_lease, shown_target}
use bek.Credentials.Represents.{active-eq, RepresentsAll, RepresentsAll-expire_all}
use bek.Credentials.Lookups.{live_grant-some, get_stored_active_lease-cases}

module _ (o : BrokerOptions) where
  -- The reply of a call is one that the promise allows, and the broker stands for the leases after
  -- it.
  pub record Keeps (c : Call) (gs : List Grant) (x : Reply × Broker) : Type 0 where
    pub after : List Grant
    pub serves : Serves o c gs x.0 after
    pub represents : RepresentsAll o (ends c) x.1.leases after

  pub get-Keeps :
      (t at : ℕ) (id : String) (b : Broker) (gs : List Grant)
      → t ≤ at
      → RepresentsAll o t b.leases gs
      → Keeps (get id at) gs (perform o (get id at) b)
  unfolding perform get_lease
  get-Keeps t at id b gs le h = elim (get_stored_active_lease-cases o t at id b gs le h) [
    | inl m ↦ record {
      after = gs;
      serves = (
        ap (λ x. found (found_lease x)) m.reply ∙ sym (ap (λ x. found (shown_lease o at x)) m.dead),
        refl,
      );
      represents = m.represents;
    }
    | inr m ↦ record {
      after = gs;
      serves = (
        ap (λ x. found (found_lease x)) m.reply
            ∙ ap (λ st. found (some (lease_as o st m.grant))) (sym (active-eq _ m.live))
            ∙ sym (ap (λ x. found (shown_lease o at x)) (live_grant-some o at _ m.stands m.live)),
        refl,
      );
      represents = m.represents;
    }
  ]

  pub resolve-Keeps :
      (t at : ℕ) (id : String) (b : Broker) (gs : List Grant)
      → t ≤ at
      → RepresentsAll o t b.leases gs
      → Keeps (resolve id at) gs (perform o (resolve id at) b)
  unfolding perform resolve_lease_target
  resolve-Keeps t at id b gs le h = elim (get_stored_active_lease-cases o t at id b gs le h) [
    | inl m ↦ record {
      after = gs;
      serves = (
        ap (λ x. target (found_target x)) m.reply
            ∙ sym (ap (λ x. target (shown_target o x)) m.dead),
        refl,
      );
      represents = m.represents;
    }
    | inr m ↦ record {
      after = gs;
      serves = (
        ap (λ x. target (found_target x)) m.reply
            ∙ sym (ap (λ x. target (shown_target o x)) (live_grant-some o at _ m.stands m.live)),
        refl,
      );
      represents = m.represents;
    }
  ]

  active_of-live_of :
      (t at : ℕ) (ss : List StoredCredentialLease) (gs : List Grant)
      → t ≤ at
      → RepresentsAll o t ss gs
      → active_of o (expire_all o at ss) ≡ map (view o at) (live_of at gs)
  unfolding active_of expire_all
  active_of-live_of t at [] [] le h = refl
  active_of-live_of t at [] (_ ∷ _) le h = absurd h
  active_of-live_of t at (_ ∷ _) [] le h = absurd h
  active_of-live_of t at (s ∷ ss) (g ∷ gs) le h =
      let rest = active_of-live_of t at ss gs le h.1 in
      elim (Bool-cases (is_active (status_at at g))) [
        | inl on ↦ rw (h.0 at le, on) (ap (λ ls. view o at g ∷ ls) rest)
        | inr off ↦ rw (h.0 at le, off) rest
      ]

  pub list-Keeps :
      (t at : ℕ) (b : Broker) (gs : List Grant)
      → t ≤ at
      → RepresentsAll o t b.leases gs
      → Keeps (list at) gs (perform o (list at) b)
  unfolding perform list_active_leases
  list-Keeps t at b gs le h = record {
    after = gs;
    serves = (ap Reply.leases (active_of-live_of t at b.leases gs le h), refl);
    represents = RepresentsAll-expire_all o t at b.leases gs le h;
  }

  -- A lease that has expired by the time.
  abbrev Lapsed : ℕ → List Grant → CredentialLease → Type 0
  Lapsed at gs l =
      (g : Grant) × Among g gs
      × (status_at at g ≡ CredentialLeaseStatus.expired)
      × (l ≡ view o at g)

  expired-eq :
      (s : StoredCredentialLease) (at : ℕ)
      → is_active s.lease.status ≡ true
      → is_active (expire_if_needed o s at).lease.status ≡ false
      → (expire_if_needed o s at).lease.status ≡ CredentialLeaseStatus.expired
  unfolding expire_if_needed
  expired-eq s at on off = ground arith

  swept_of-Lapsed :
      (t at : ℕ) (ss : List StoredCredentialLease) (gs : List Grant)
      → t ≤ at
      → RepresentsAll o t ss gs
      → All (Lapsed at gs) (swept_of o at ss)
  unfolding swept_of
  swept_of-Lapsed t at [] [] le h = tt
  swept_of-Lapsed t at [] (_ ∷ _) le h = absurd h
  swept_of-Lapsed t at (_ ∷ _) [] le h = absurd h
  swept_of-Lapsed t at (s ∷ ss) (g ∷ gs) le h =
      let rest : All (Lapsed at (g ∷ gs)) (swept_of o at ss) =
        All-imp (Lapsed at gs) (swept_of o at ss)
          (λ l (g', (i, there), lapsed, seen). (g', (suc i, there), lapsed, seen))
          (swept_of-Lapsed t at ss gs le h.1) in
      elim (Bool-cases
        (is_active s.lease.status && not (is_active (expire_if_needed o s at).lease.status))) [
          | inr kept ↦ rw kept rest
          | inl over ↦
              let status =
                sym (ap (λ (x : StoredCredentialLease). x.lease.status) (h.0 at le))
                ∙ expired-eq s at (ground arith) (ground arith) in
              rw over (
                (g, (0, refl), status, ap (λ (x : StoredCredentialLease). x.lease) (h.0 at le)),
                rest,
              )
        ]

  pub sweep-Keeps :
      (t at : ℕ) (b : Broker) (gs : List Grant)
      → t ≤ at
      → RepresentsAll o t b.leases gs
      → Keeps (sweep at) gs (perform o (sweep at) b)
  unfolding perform sweep_expired
  sweep-Keeps t at b gs le h = record {
    after = gs;
    serves = (_, refl, swept_of-Lapsed t at b.leases gs le h, refl);
    represents = RepresentsAll-expire_all o t at b.leases gs le h;
  }
